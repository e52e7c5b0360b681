-- ===== src/Client/Connecting.antt =====
-- About `ConnectTcpServer` of the client's MainModel.cpp.
use my_communication.Prelude.{
  ℕ, zero, suc, ◌+◌, ◌<◌, ◌≡◌, refl, sym, ap, ap₂, subst, ◌∙◌, ◌⊎◌, inl, inr, Bool, true, false,
  ◌&&◌, List, some, ltb, leb, if◌then◌else◌, arith, Bool-cases, ℕ_discrete, Option,
}
use my_communication.Prelude.Assoc.{Assoc, lookup, insert, lookup-insert}
use my_communication.Iocp.Connect.{add_connect}
use my_communication.Iocp.Steps.{IsIntact, add_connect-IsIntact}
use my_communication.ServerConnect.{ServerInfo, ServerConnect, add_server}
use my_communication.Client.{ClientConfig, connect_from, connect_tcp_server, est_cmd_server}

-- The entry of a server that is to be connected again when it is lost.
abbrev pub server_info : ℕ → List ℕ → ℕ → ServerInfo
server_info key ip port = record {
  user_key = key;
  ip = ip;
  port = port;
  recnnt = 1;
  need_connect = false;
}

-- The first `k` of the servers from `i` on have their entries, and the rest of the table is as before.
abbrev pub Entered : ℕ → ℕ → List ℕ → ℕ → ServerConnect → ServerConnect → Type 0
Entered i k ip port s t =
    (j : ℕ)
    → lookup j t.map_srv_info
      ≡ (if leb i j && ltb j (i + k) then some (server_info j ip port) else lookup j s.map_srv_info)

-- After the server `i` has been entered and its connection started or not.
abbrev pub entering : ℕ → List ℕ → ℕ → ServerConnect → ServerConnect
entering i ip port s = record {
  map_srv_info = insert i (server_info i ip port) s.map_srv_info;
  client = (add_connect i s.client).0;
}

-- The connections of `k` servers from `i` on are started, one after another.
abbrev pub AllStart : ℕ → ℕ → List ℕ → ℕ → ServerConnect → Type 0
AllStart i zero ip port s = Unit
AllStart i (suc k) ip port s =
    ((add_connect i s.client).1 ≡ true) × AllStart (i + 1) k ip port (entering i ip port s)

-- Those of `k` servers from `i` on are started, and that of the next one is not.
abbrev pub FailsBehind : ℕ → ℕ → List ℕ → ℕ → ServerConnect → Type 0
FailsBehind i zero ip port s = (add_connect i s.client).1 ≡ false
FailsBehind i (suc k) ip port s =
    ((add_connect i s.client).1 ≡ true) × FailsBehind (i + 1) k ip port (entering i ip port s)

-- All of `left` servers have been started and entered, or one could not be and is the last that has
-- been entered.
abbrev pub Connects : ℕ → ℕ → List ℕ → ℕ → ServerConnect → ServerConnect × Bool → Type 0
Connects left i ip port s r =
    IsIntact r.0.client
    × ((r.1 ≡ true) × Entered i left ip port s r.0 × AllStart i left ip port s
        ⊎ (r.1 ≡ false)
          × (k : ℕ) × (k < left)
          × Entered i (suc k) ip port s r.0
          × FailsBehind i k ip port s)

-- One more entry in front.
further :
    (i j k : ℕ) (ip : List ℕ) (port : ℕ) (m : Assoc ServerInfo) (o : Option ServerInfo)
    → o ≡ (
        if leb (i + 1) j && ltb j (i + 1 + k)
        then some (server_info j ip port)
        else lookup j (insert i (server_info i ip port) m))
    → o ≡ (if leb i j && ltb j (i + suc k) then some (server_info j ip port) else lookup j m)
further i j k ip port m o e = elim (ℕ_discrete i j) [
  | yes same ↦
      let new : lookup j (insert i (server_info i ip port) m) ≡ some (server_info i ip port) =
        ground (arith, lookup-insert i j (server_info i ip port) m, same) in
      let mine : server_info i ip port ≡ server_info j ip port =
        ap (λ key. server_info key ip port) same in
      let out : leb (i + 1) j ≡ false = ground (arith, same) in
      let low : leb i j ≡ true = ground (arith, same) in
      let high : ltb j (i + suc k) ≡ true = ground (arith, same) in
      subst
        (λ (b : Bool). o ≡ (
          if b && ltb j (i + 1 + k)
          then some (server_info j ip port)
          else lookup j (insert i (server_info i ip port) m)))
        out e
      ∙ new
      ∙ ap (λ v. some v) mine
      ∙ sym (
          ap₂ (λ (b c : Bool). if b && c then some (server_info j ip port) else lookup j m) low
            high)
  | no other ↦ ground (arith, e, lookup-insert i j (server_info i ip port) m, other)
]

connect_from_lem :
    (left i : ℕ) (ip : List ℕ) (port : ℕ) (s : ServerConnect)
    → IsIntact s.client
    → Connects left i ip port s (connect_from left i ip port s)
unfolding connect_from add_server
connect_from_lem zero i ip port s sound = (sound, inl (refl, λ j. ground arith, tt))
connect_from_lem (suc left) i ip port s sound =
    let (client, started) = add_connect i s.client in
    let fine = add_connect-IsIntact i s.client sound in
    elim (Bool-cases started) [
      | inl yes_ ↦
          let (done, ends) = connect_from_lem left (i + 1) ip port (entering i ip port s) fine in
          rw yes_ (
            done,
            elim ends [
              | inl (all, entered, starts) ↦
                  inl (
                    all,
                    λ j. further i j left ip port s.map_srv_info _ (entered j),
                    (refl, starts),
                  )
              | inr (one, k, few, entered, fails) ↦ inr (
                one,
                suc k,
                omega arith,
                λ j. further i j (suc k) ip port s.map_srv_info _ (entered j),
                (yes_, fails),
              )
            ],
          )
      | inr no_ ↦ rw no_ (
        fine,
        inr (refl, 0, omega arith, λ j. further i j 0 ip port s.map_srv_info _ (no_more j), no_),
      )
    ]
  where
    added : ServerConnect
    added = record {
      map_srv_info = insert i (server_info i ip port) s.map_srv_info;
      client = (add_connect i s.client).0;
    }

    no_more :
        (j : ℕ)
        → lookup j added.map_srv_info ≡ (
            if leb (i + 1) j && ltb j (i + 1 + 0)
            then some (server_info j ip port)
            else lookup j added.map_srv_info)
    no_more j = ground arith

-- `ConnectTcpServer` enters the servers from 1 on in the table, to be connected again when they are
-- lost. It reports success where the connections of all the servers before 60000 start, each after
-- those before it, and these servers are entered then; it reports failure where one does not, and
-- then the servers up to that one are entered, that one too. The other entries of the table stay, and
-- the connections below stay intact.
pub connect_tcp_server_lem :
    (cfg : ClientConfig) (s : ServerConnect)
    → IsIntact s.client
    → Connects 59999 est_cmd_server cfg.server_ip cfg.server_port s (connect_tcp_server cfg s)
unfolding connect_tcp_server
connect_tcp_server_lem cfg s sound =
    connect_from_lem 59999 est_cmd_server cfg.server_ip cfg.server_port s sound
