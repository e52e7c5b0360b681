-- ===== src/Iocp/Serving.antt =====
-- About `StartServerListen` and `StopServer` of IOCPCommunication/source/IOCPServer.cpp, with the
-- listening context.
use my_communication.Prelude.{
  ℕ, zero, suc, ◌≡◌, ◌≢◌, refl, sym, ap, subst, ◌∙◌, inl, inr, Bool, true, false, Option, none,
  some, ◌==◌, arith, Bool-cases, Option-cases,
}
use my_communication.Prelude.Assoc.{lookup, lookup-insert, lookup-erase}
use my_communication.Prelude.Assoc.Order.{AllIn-self}
use my_communication.Resource.Invariant.{IsLive, put-live}
use my_communication.Iocp.State.{
  Iocp, get_socket_context, put_socket_context, release_socket, sync_result, next_reply, call,
}
use my_communication.Iocp.Connect.{
  Accepting, posted, no_socket, failed, after_rounds, enlist, post_accept_ex,
}
use my_communication.Iocp.Accepting.{before_rounds, the_rounds, the_rounds-Rounds}
use my_communication.Iocp.Lifecycle.{
  IocpServer, post_accepts, listening_socket, bind_listener, listen_on, settle, listener,
  start_server_listen, release_listener, reset_exit_count, stop_server,
}
use my_communication.Iocp.Registry.{
  Unlisted, IsListSound, IsTaken, fresh-Unlisted, take-Registered, put-Registered,
  count-values_registered,
}
use my_communication.Iocp.Listed.{SameList, SameList-IsListSound, SameList-IsTaken}
use my_communication.Iocp.Enlisting.{
  get_socket_context-GetsContext, the_rounds-IsListSound, post_accept_ex-IsListSound,
}
use my_communication.Iocp.Closing.{IsSound}
use my_communication.Iocp.Steps.{IsIntact}
use my_communication.Iocp.Stopping.{IsOpen, stop_all-IsSound, stop_all-open}
use my_communication.Iocp.Unlisting.{stop_all-IsListSound}
use my_communication.Iocp.Listening.{
  Listens, settle-Listens, listen_on-IsSound, listen_on-cases, listener-IsSound,
}

-- The context `l` is in use and not listed.
pub record Holds (l : ℕ) (s : Iocp) : Type 0 where
  pub listed : IsListSound s
  pub taken : IsTaken s l
  pub off : Unlisted s.connect_list l

SameList-Holds : (l : ℕ) (s t : Iocp) → SameList s t → Holds l s → Holds l t
SameList-Holds l s t same h = record {
  listed = SameList-IsListSound s t same h.listed;
  taken = SameList-IsTaken s t l same h.taken;
  off = subst (λ m. Unlisted m l) (sym same.0) h.off;
}

-- The rounds end with the entry of another context, or without one.
after_rounds-off :
    (l p key : ℕ) (r : Iocp × Accepting)
    → IsListSound r.0
    → IsTaken r.0 p
    → p ≢ l
    → IsTaken r.0 l
    → Unlisted r.0.connect_list l
    → IsTaken (after_rounds p key r).0 l × Unlisted (after_rounds p key r).0.connect_list l
unfolding put_socket_context
after_rounds-off l p key (t, posted) w live ne taken off = (taken, off)
after_rounds-off l p key (t, no_socket) w live ne taken off = (taken, off)
after_rounds-off l p key (t, failed) w live ne taken off = (
  rw (put-live t.rsc_socket_context p w.valid live)
      (ground (arith, taken, ne, lookup-erase p l t.rsc_socket_context.using_list)),
  λ k there. ground (arith, off k, there, lookup-erase key k t.connect_list),
)

-- `PostAcceptEx` uses another context.
post_accept_ex-Holds :
    (l : ℕ) (listen : Option ℕ) (s : Iocp) → Holds l s → Holds l (post_accept_ex listen s).0
unfolding post_accept_ex
post_accept_ex-Holds l none s h = h
post_accept_ex-Holds l (some listen_socket) s h =
    let p = (get_socket_context s).0 in
    let (t, run, out, free) = get_socket_context-GetsContext s h.listed in
    let other : p ≢ l = λ same. ground (arith, out.was_free, h.taken, same) in
    let ((_, c, r, _, _, _, _, _), _) = the_rounds-Rounds s in
    let live : IsTaken (before_rounds s) l =
      subst (λ u. IsTaken (enlist p s.user_num u) l) (sym run)
        (out.others l (λ same. other (sym same)) ∙ h.taken) in
    let off : Unlisted (before_rounds s).connect_list l =
      subst (λ u. Unlisted (enlist p s.user_num u).connect_list l) (sym run)
        (λ k there.
          ground (arith, h.off k, other, there, lookup-insert s.user_num k p s.connect_list)) in
    let (fine, taken, _) = the_rounds-IsListSound s h.listed in
    let (live_, off_) =
      after_rounds-off l p s.user_num (the_rounds s) fine taken other
        (subst (λ q. IsLive q l) (sym r) live) (subst (λ m. Unlisted m l) (sym c) off) in
    record {
      listed = post_accept_ex-IsListSound (some listen_socket) s h.listed;
      taken = live_;
      off = off_;
    }

post_accepts-Holds :
    (n : ℕ) (ret : Bool) (l : ℕ) (s : Iocp) → Holds l s → Holds l (post_accepts n ret l s).0
unfolding post_accepts
post_accepts-Holds zero ret l s h = h
post_accepts-Holds (suc n) ret l s h =
    let fine = post_accept_ex-Holds l (s.context_socket l) s h in
    let rest = post_accepts-Holds n true l (post_accept_ex (s.context_socket l) s).0 fine in
    elim (Bool-cases (post_accept_ex (s.context_socket l) s).1) [
      | inl more ↦ rw more rest
      | inr refused ↦ rw refused fine
    ]

listening_socket-SameList : (l : ℕ) (s : Iocp) → SameList s (listening_socket l s).0
unfolding listening_socket
listening_socket-SameList l s = ground arith

bind_listener-SameList : (s : Iocp) → SameList s (bind_listener s).0
unfolding bind_listener
bind_listener-SameList s = elim (Bool-cases (sync_result (next_reply s) == 0)) [
  | inr refused ↦ rw refused (refl, refl, refl, refl)
  | inl bound ↦ elim (Bool-cases (sync_result (next_reply (call s)) == 0)) [
    | inr refused ↦ rw (bound, refused) (refl, refl, refl, refl)
    | inl listens ↦ rw (bound, listens) (refl, refl, refl, refl)
  ]
]

listen_on-Holds : (n l : ℕ) (s : Iocp) → Holds l s → Holds l (listen_on n l s).0
listen_on-Holds n l s h =
    let s₁ = (listening_socket l s).0 in
    let s₂ = (bind_listener s₁).0 in
    let h₁ = SameList-Holds l s s₁ (listening_socket-SameList l s) h in
    let h₂ = SameList-Holds l s₁ s₂ (bind_listener-SameList s₁) h₁ in
    elim (Bool-cases (listening_socket l s).1) [
      | inr unready ↦ rw unready h₁
      | inl ready ↦ elim (Bool-cases (bind_listener s₁).1) [
        | inr unbound ↦ rw (ready, unbound) h₂
        | inl bound ↦ rw (ready, bound) (post_accepts-Holds n false l s₂ h₂)
      ]
    ]

-- The server below: the connections are intact, and the listening context, if there is one, is in use
-- and not listed.
pub record IsServing (d : IocpServer) : Type 0 where
  pub intact : IsIntact d.base
  pub holds : (l : ℕ) → d.listen_socket_context ≡ some l → Holds l d.base

listener-Holds : (d : IocpServer) → IsServing d → Holds (listener d).0 (listener d).1
listener-Holds d h = elim (Option-cases d.listen_socket_context) [
  | inr (l, e) ↦ rw e (h.holds l e)
  | inl e ↦
      let w = h.intact.listed in
      let p = (get_socket_context d.base).0 in
      let (t, run, out, free) = get_socket_context-GetsContext d.base w in
      rw e (
        subst (Holds p) (sym run) (record {
          listed = take-Registered w p t out free;
          taken = out.live;
          off = fresh-Unlisted w p t out;
        }))
]

-- The context goes back to the pool.
released : (l : ℕ) (s : Iocp) → Holds l s → IsListSound (put_socket_context l (release_socket l s))
unfolding put_socket_context
released l s h = put-Registered h.listed l h.taken h.off

-- `StartServerListen` returns true where the context has a socket or gets one, `Bind`, `Listen` and
-- `BindIoCompletionPort` succeed, and at least one accept operation was to be posted and each call of
-- `PostAcceptEx` returns true; the listening context is the one it took. Where one of these fails, or
-- no accept operation was to be posted, it returns false, there is no listening context, and the
-- context that it took has no socket. In both cases the server stays sound: the connections are
-- intact, and the listening context, if there is one, is in use and not listed.
pub start_server_listen_lem :
    (n : ℕ) (d : IocpServer)
    → IsServing d
    → Listens n (listener d) (start_server_listen n d) × IsServing (start_server_listen n d).0
unfolding start_server_listen
start_server_listen_lem n d h =
    let (l, s) = listener d in
    let (ends, sound) =
      settle-Listens n l s (listen_on n l s) d
        (listen_on-IsSound n l s (listener-IsSound d h.intact.sound)) (listen_on-cases n l s) in
    (
      ends,
      settled (listener d).0 (listen_on n l s) (listen_on-Holds n l s (listener-Holds d h)) sound,
    )
  where
    no_listener : (k : ℕ) → none ≡ some k → ⊥
    no_listener k e = cc

    same : (a b : ℕ) → some a ≡ some b → a ≡ b
    same a b e = cc

    settled :
        (l : ℕ) (r : Iocp × Bool)
        → Holds l r.0
        → IsSound (settle l r d).0.base
        → IsServing (settle l r d).0
    settled l (s, true) holds sound = record {
      intact = record { sound = sound; listed = holds.listed };
      holds = λ k e. subst (λ j. Holds j s) (same l k e) holds;
    }
    settled l (s, false) holds sound = record {
      intact = record { sound = sound; listed = released l s holds };
      holds = λ k e. absurd (no_listener k e);
    }

release_listener-IsIntact :
    (d : IocpServer) → IsServing d → IsIntact (release_listener d.listen_socket_context d.base)
unfolding put_socket_context
release_listener-IsIntact d h = elim (Option-cases d.listen_socket_context) [
  | inl e ↦ rw e h.intact
  | inr (l, e) ↦ rw e (record { sound = h.intact.sound; listed = released l d.base (h.holds l e) })
]

-- Giving the listening context back touches neither the connection list nor the other contexts.
release_listener-list :
    (o : Option ℕ) (s : Iocp) → (release_listener o s).connect_list ≡ s.connect_list
unfolding put_socket_context
release_listener-list none s = refl
release_listener-list (some l) s = refl

release_listener-IsOpen :
    (d : IocpServer) (key p : ℕ)
    → IsServing d
    → lookup key d.base.connect_list ≡ some p
    → IsOpen p d.base
    → IsOpen p (release_listener d.listen_socket_context d.base)
unfolding put_socket_context
release_listener-IsOpen d key p h there (socket, active) =
    elim (Option-cases d.listen_socket_context) [
      | inl e ↦ rw e (socket, active)
      | inr (l, e) ↦
          let other : l ≢ p = λ same. (h.holds l e).off key (there ∙ ap (λ i. some i) (sym same)) in
          rw e (ground (arith, other, socket), active)
    ]

-- `StopServer` on a server that has been started: it is stopped without a listening context, every open
-- connection is taken off the connection list, and the connections stay intact.
pub stop_server_lem :
    (d : IocpServer)
    → IsServing d
    → d.start ≡ true
    → let t = stop_server d in
      (t.start ≡ false)
      × (t.listen_socket_context ≡ none)
      × IsServing t
      × ((key p : ℕ)
          → lookup key d.base.connect_list ≡ some p
          → IsOpen p d.base
          → lookup key t.base.connect_list ≡ none)
unfolding stop_server
stop_server_lem d h started =
    let s = release_listener d.listen_socket_context d.base in
    let intact = release_listener-IsIntact d h in
    let list = release_listener-list d.listen_socket_context d.base in
    rw started (
      refl,
      refl,
      record {
        intact = record {
          sound = stop_all-IsSound s.connect_list (reset_exit_count s) intact.sound;
          listed =
              stop_all-IsListSound s.connect_list (reset_exit_count s) intact.listed.ordered
                (AllIn-self s.connect_list intact.listed.ordered)
                (SameList-IsListSound s (reset_exit_count s) (refl, refl, refl, refl)
                  intact.listed);
        };
        holds = λ k e. absurd (no_listener k e);
      },
      λ key p there open_.
          stop_all-open s.connect_list (reset_exit_count s) key p
            (count-values_registered intact.listed) (ap (lookup key) list ∙ there)
            (release_listener-IsOpen d key p h there open_),
    )
  where
    no_listener : (k : ℕ) → none ≡ some k → ⊥
    no_listener k e = cc
