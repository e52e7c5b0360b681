-- ===== src/Iocp/Clients.antt =====
-- About `StopClient` of IOCPCommunication/source/IOCPClient.cpp.
use my_communication.Prelude.{
  ℕ, zero, suc, ◌≤◌, ◌≡◌, ◌≢◌, refl, sym, ap, subst, ◌∙◌, inl, inr, true, false, [], ◌∷◌, none,
  some, length, arith, Bool-cases, count,
}
use my_communication.Prelude.Assoc.{Assoc, lookup, values, lookup-erase}
use my_communication.Prelude.Assoc.Order.{Ascends, AllIn, AllIn-erase, AllIn-self}
use my_communication.Iocp.State.{Iocp, call}
use my_communication.Iocp.Connect.{is_invalid}
use my_communication.Iocp.Lifecycle.{
  is_pending, stop_connection, stop_all_client, reset_exit_count, stop_client,
}
use my_communication.Iocp.Registry.{count-values_registered}
use my_communication.Iocp.Listed.{SameList-IsListSound}
use my_communication.Iocp.Steps.{IsIntact}
use my_communication.Iocp.Stopped.{stop_connection-contexts}
use my_communication.Iocp.Stopping.{
  IsOpen, Distinct, head-cases, tail-Distinct, no_entry, stop_connection-IsOpen,
  stop_connection-IsSound,
}
use my_communication.Iocp.Unlisting.{stop_connection-IsListSound}

-- Each context of the entries has a socket.
abbrev pub AllSockets : Assoc ℕ → Iocp → Type 0
AllSockets m s = (p : ℕ) → 1 ≤ count p (values m) → is_invalid (s.context_socket p) ≡ false

-- The loop ends: the connections are intact, no entry is new, and those of open connections are gone.
abbrev pub Stops : ℕ → Assoc ℕ → Iocp → Type 0
Stops fuel m s =
    (t : Iocp) × (stop_all_client fuel m s ≡ some t)
    × IsIntact t
    × ((key : ℕ) → lookup key s.connect_list ≡ none → lookup key t.connect_list ≡ none)
    × ((key p : ℕ) → lookup key m ≡ some p → IsOpen p s → lookup key t.connect_list ≡ none)

tail-AllSockets : (k q : ℕ) (m : Assoc ℕ) (s : Iocp) → AllSockets ((k, q) ∷ m) s → AllSockets m s
tail-AllSockets k q m s sockets p there = sockets p (ground (arith, there))

stopped-AllSockets :
    (k q : ℕ) (m : Assoc ℕ) (s : Iocp)
    → Distinct ((k, q) ∷ m)
    → AllSockets ((k, q) ∷ m) s
    → AllSockets m (stop_connection k q s)
stopped-AllSockets k q m s distinct sockets p there =
    let (socket_of, _, _) = stop_connection-contexts k q s in
    let apart : p ≢ q = λ same. ground (arith, distinct p, there, same) in
    ap is_invalid (socket_of p apart) ∙ tail-AllSockets k q m s sockets p there

not_both :
    (q p : ℕ) (s : Iocp)
    → p ≡ q
    → is_pending (s.receive_context q).operate_type ≡ true
    → IsOpen p s
    → ⊥
not_both q p s at pending (socket, active) =
    let clash : true ≡ false =
      sym pending ∙ ap (λ r. is_pending (s.receive_context r).operate_type) (sym at) ∙ active in
    cc

stop_all_client-Stops :
    (fuel : ℕ) (m : Assoc ℕ) (s : Iocp)
    → length m ≤ fuel
    → Distinct m
    → Ascends m
    → AllIn m s.connect_list
    → AllSockets m s
    → IsIntact s
    → Stops fuel m s
unfolding stop_all_client
stop_all_client-Stops fuel [] s enough distinct ordered there sockets h =
    (s, refl, h, λ key e. e, λ key p e. absurd (no_entry key p e))
stop_all_client-Stops zero ((k, q) ∷ m) s enough distinct ordered there sockets h =
    absurd (omega (arith, enough))
stop_all_client-Stops (suc fuel) ((k, q) ∷ m) s enough distinct (above, ordered) (here, there)
      sockets h =
    let socket : is_invalid (s.context_socket q) ≡ false = sockets q (ground arith) in
    let short : length m ≤ fuel = omega (arith, enough) in
    let rest = tail-Distinct k q m distinct in
    let (_, _, list) = stop_connection-contexts k q s in
    elim (Bool-cases (is_pending (s.receive_context q).operate_type)) [
      | inl pending ↦
          let (t, run, fine, absent, gone) =
            stop_all_client-Stops fuel m (call s) short rest ordered there
              (tail-AllSockets k q m s sockets)
              (record {
                sound = h.sound;
                listed = SameList-IsListSound s (call s) (refl, refl, refl, refl) h.listed;
              }) in
          (
            t,
            rw (socket, pending) run,
            fine,
            absent,
            λ key p e open_. elim (head-cases k q key p m distinct e) [
              | inl (same, at) ↦ absurd (not_both q p s at pending open_)
              | inr (other, apart, behind) ↦ gone key p behind open_
            ],
          )
      | inr active ↦
          let (t, run, fine, absent, gone) =
            stop_all_client-Stops fuel m (stop_connection k q s) short rest ordered
              (subst (AllIn m) (sym list) (AllIn-erase k m s.connect_list above there))
              (stopped-AllSockets k q m s distinct sockets)
              (record {
                sound = stop_connection-IsSound k q s h.sound;
                listed = stop_connection-IsListSound k q s h.listed here;
              }) in
          (
            t,
            rw (socket, active) run,
            fine,
            λ key e.
                absent key
                  (ap (lookup key) list ∙ ground (arith, lookup-erase k key s.connect_list, e)),
            λ key p e open_. elim (head-cases k q key p m distinct e) [
              | inl (same, at) ↦
                  absent key
                    (ap (lookup key) list ∙ ground (arith, lookup-erase k key s.connect_list, same))
              | inr (other, apart, behind) ↦
                  gone key p behind (stop_connection-IsOpen k q p s apart open_)
            ],
          )
    ]

-- Where the connections are intact and each context in the connection list has a socket, the loop of
-- `StopClient` ends within a round for each entry; the connections stay intact, and the open ones are
-- taken off the connection list.
pub stop_client_lem :
    (s : Iocp)
    → IsIntact s
    → AllSockets s.connect_list s
    → (t : Iocp) × (stop_client (length s.connect_list) s ≡ some t)
      × IsIntact t
      × ((key p : ℕ)
          → lookup key s.connect_list ≡ some p
          → IsOpen p s
          → lookup key t.connect_list ≡ none)
unfolding stop_client
stop_client_lem s h sockets =
    let (t, run, fine, _, gone) =
      stop_all_client-Stops (length s.connect_list) s.connect_list (reset_exit_count s)
        (omega arith) (count-values_registered h.listed) h.listed.ordered
        (AllIn-self s.connect_list h.listed.ordered) sockets
        (record {
          sound = h.sound;
          listed = SameList-IsListSound s (reset_exit_count s) (refl, refl, refl, refl) h.listed;
        }) in
    (t, run, fine, gone)
