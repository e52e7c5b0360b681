-- ===== src/Iocp/Stopping.antt =====
-- About the loop of `StopServer` (IOCPCommunication/source/IOCPServer.cpp).
use my_communication.Prelude.{
  ℕ, ◌≤◌, ◌≡◌, ◌≢◌, sym, ap, subst, ◌∙◌, ◌⊎◌, inl, inr, false, [], ◌∷◌, none, some, ◌==◌, arith,
  Bool-cases, count, ℕ_discrete,
}
use my_communication.Prelude.Assoc.{Assoc, lookup, values, lookup-erase}
use my_communication.Iocp.State.{
  Iocp, IoContext, release_socket, get_io, put_socket_context, overlapped_result, next_reply,
}
use my_communication.Iocp.Disconnect.{recycle_socket_rsc, start_disconnect}
use my_communication.Iocp.Connect.{is_invalid}
use my_communication.Iocp.Lifecycle.{is_pending, finish_stop, stop_connection, stop_all}
use my_communication.Iocp.Ownership.{get_io-GetsIo}
use my_communication.Iocp.Closing.{IsSound, IsHeld, put_io-IsSound}
use my_communication.Iocp.Receiving.{recycle-IsSound}
use my_communication.Iocp.Stopped.{stop_connection-contexts}

finish_stop-IsSound : (p io : ℕ) (s : Iocp) → IsSound s → IsHeld s io → IsSound (finish_stop p io s)
unfolding put_socket_context
finish_stop-IsSound p io s sound held = elim (Bool-cases (overlapped_result (next_reply s) == 0)) [
  | inl e ↦ rw e sound
  | inr e ↦ rw e (
      put_io-IsSound io (put_socket_context p (release_socket p (start_disconnect p io s))) sound
        held)
]

pub stop_connection-IsSound : (key p : ℕ) (s : Iocp) → IsSound s → IsSound (stop_connection key p s)
unfolding stop_connection
stop_connection-IsSound key p s sound =
    let s₁ = recycle_socket_rsc p none s in
    let (t, run, fine, held, _) = get_io-GetsIo s₁ (recycle-IsSound p s sound) in
    let stopped =
      finish_stop-IsSound p (get_io s₁).0 (record s₁ { rsc_io_context = t }) fine held in
    subst (λ u. IsSound (finish_stop p (get_io s₁).0 u)) (sym run) stopped

pub stop_all-IsSound : (m : Assoc ℕ) (s : Iocp) → IsSound s → IsSound (stop_all m s)
unfolding stop_all
stop_all-IsSound [] s sound = sound
stop_all-IsSound ((key, p) ∷ m) s sound =
    let kept = stop_all-IsSound m s sound in
    let stopped =
      stop_all-IsSound m (stop_connection key p s) (stop_connection-IsSound key p s sound) in
    elim (Bool-cases (is_invalid (s.context_socket p))) [
      | inl bad ↦ rw bad kept
      | inr socket ↦ elim (Bool-cases (is_pending (s.receive_context p).operate_type)) [
        | inl pending ↦ rw (socket, pending) kept
        | inr open_ ↦ rw (socket, open_) stopped
      ]
    ]

-- A key that is not listed is not listed afterwards.
stop_all-absent :
    (key : ℕ) (m : Assoc ℕ) (s : Iocp)
    → lookup key s.connect_list ≡ none
    → lookup key (stop_all m s).connect_list ≡ none
unfolding stop_all
stop_all-absent key [] s h = h
stop_all-absent key ((k, q) ∷ m) s h =
    let kept = stop_all-absent key m s h in
    let (_, _, list) = stop_connection-contexts k q s in
    let gone : lookup key (stop_connection k q s).connect_list ≡ none =
      ap (lookup key) list ∙ ground (arith, lookup-erase k key s.connect_list, h) in
    let stopped = stop_all-absent key m (stop_connection k q s) gone in
    elim (Bool-cases (is_invalid (s.context_socket q))) [
      | inl bad ↦ rw bad kept
      | inr socket ↦ elim (Bool-cases (is_pending (s.receive_context q).operate_type)) [
        | inl pending ↦ rw (socket, pending) kept
        | inr open_ ↦ rw (socket, open_) stopped
      ]
    ]

-- No two entries share a context.
abbrev pub Distinct : Assoc ℕ → Type 0
Distinct m = (p : ℕ) → count p (values m) ≤ 1

-- The connection on the context `p` is open: it has a socket, and its receive context is past
-- accepting and connecting.
abbrev pub IsOpen : ℕ → Iocp → Type 0
IsOpen p s =
    (is_invalid (s.context_socket p) ≡ false)
    × (is_pending (s.receive_context p).operate_type ≡ false)

count-values_pos : (key p : ℕ) (m : Assoc ℕ) → lookup key m ≡ some p → 1 ≤ count p (values m)
unfolding lookup
count-values_pos key p [] e = absurd (cc)
count-values_pos key p ((k, q) ∷ m) e = ground (arith, count-values_pos key p m)

pub stop_connection-IsOpen :
    (k q p : ℕ) (s : Iocp) → p ≢ q → IsOpen p s → IsOpen p (stop_connection k q s)
stop_connection-IsOpen k q p s ne (socket, open_) =
    let (a, b, _) = stop_connection-contexts k q s in
    (
      ap is_invalid (a p ne) ∙ socket,
      ap (λ (f : ℕ → IoContext). is_pending (f p).operate_type) b ∙ open_,
    )

pub head-cases :
    (k q key p : ℕ) (m : Assoc ℕ)
    → Distinct ((k, q) ∷ m)
    → lookup key ((k, q) ∷ m) ≡ some p
    → ((key ≡ k) × (p ≡ q)) ⊎ ((key ≢ k) × (p ≢ q) × (lookup key m ≡ some p))
unfolding lookup
head-cases k q key p m distinct e = elim (ℕ_discrete key k) [
  | yes same ↦ inl (same, ground (arith, e, same))
  | no other ↦
      let behind : lookup key m ≡ some p = ground (arith, e, other) in
      let apart : p ≢ q =
        λ same. ground (arith, distinct p, count-values_pos key p m behind, same) in
      inr (other, apart, behind)
]

pub tail-Distinct : (k q : ℕ) (m : Assoc ℕ) → Distinct ((k, q) ∷ m) → Distinct m
tail-Distinct k q m distinct p = ground (arith, distinct p)

pub no_entry : (key p : ℕ) → lookup {V = ℕ} key [] ≡ some p → ⊥
unfolding lookup
no_entry key p e = cc

pub stop_all-open :
    (m : Assoc ℕ) (s : Iocp) (key p : ℕ)
    → Distinct m
    → lookup key m ≡ some p
    → IsOpen p s
    → lookup key (stop_all m s).connect_list ≡ none
unfolding stop_all
stop_all-open [] s key p distinct e open_ = absurd (no_entry key p e)
stop_all-open ((k, q) ∷ m) s key p distinct e open_ = elim (head-cases k q key p m distinct e) [
  | inl (same, here) ↦
      let (_, _, list) = stop_connection-contexts k q s in
      let gone : lookup key (stop_connection k q s).connect_list ≡ none =
        ap (lookup key) list ∙ ground (arith, lookup-erase k key s.connect_list, same) in
      let (socket, active) = subst (λ r. IsOpen r s) here open_ in
      rw (socket, active) (stop_all-absent key m (stop_connection k q s) gone)
  | inr (other, apart, behind) ↦
      let rest = tail-Distinct k q m distinct in
      let kept = stop_all-open m s key p rest behind open_ in
      let stopped =
        stop_all-open m (stop_connection k q s) key p rest behind
          (stop_connection-IsOpen k q p s apart open_) in
      elim (Bool-cases (is_invalid (s.context_socket q))) [
        | inl bad ↦ rw bad kept
        | inr socket ↦ elim (Bool-cases (is_pending (s.receive_context q).operate_type)) [
          | inl pending ↦ rw (socket, pending) kept
          | inr active ↦ rw (socket, active) stopped
        ]
      ]
]
