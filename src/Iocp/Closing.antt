-- ===== src/Iocp/Closing.antt =====
-- About `Disconnect`, `PostDisconnectEx`, `ReCycleSocketRsc` and `HandDisconnect` of
-- IOCPCommunication/source/IOCPBase.cpp.
use my_communication.Prelude.{
  ℕ, ◌≤◌, ◌≡◌, refl, ap, ◌∙◌, inl, inr, false, List, [], ◌∷◌, Option, some, ◌==◌, if◌then◌else◌,
  arith, ℕ_discrete, Bool-cases, Option-cases,
}
use my_communication.Prelude.Assoc.{lookup}
use my_communication.Iocp.State.{
  Iocp, delete_user, update, notify, set_flag, set_queue, get_io, put_io, put_socket_context,
  count_exit, erase_from_connect_list, overlapped_result, next_reply,
}
use my_communication.Iocp.Disconnect.{
  recycle_queue, recycle_socket_rsc, start_disconnect, give_back, post_disconnect_ex, disconnect,
  hand_disconnect,
}
use my_communication.Iocp.Ownership.{
  IoSound, InFlight, get_io-GetsIo, pop-IoSound, pop-InFlight, pop-keeps, put-IoSound, put-keeps,
}

abbrev pub IsSound : Iocp → Type 0
IsSound s = IoSound s.rsc_io_context s.queue_io_context

abbrev pub IsHeld : Iocp → ℕ → Type 0
IsHeld s io = InFlight s.rsc_io_context s.queue_io_context io

-- What the first of the disconnect events does before the operation is started.
abbrev pub first_recycle : ℕ → Iocp → Iocp
first_recycle p s =
    notify (delete_user (s.context_key p)) (recycle_queue p (s.queue_io_context p) (set_flag p 1 s))

pub recycle_socket_rsc-zero :
    (p : ℕ) (io : Option ℕ) (s : Iocp)
    → s.disconnect_flag p ≡ 0
    → recycle_socket_rsc p io s ≡ first_recycle p s
unfolding recycle_socket_rsc
recycle_socket_rsc-zero p io s e = rw e

pub recycle_socket_rsc-one :
    (p io : ℕ) (s : Iocp)
    → s.disconnect_flag p ≡ 1
    → recycle_socket_rsc p (some io) s ≡ put_io io (set_flag p 2 s)
unfolding recycle_socket_rsc
recycle_socket_rsc-one p io s e = rw e

pub recycle_socket_rsc-done :
    (p : ℕ) (io : Option ℕ) (s : Iocp) → 2 ≤ s.disconnect_flag p → recycle_socket_rsc p io s ≡ s
unfolding recycle_socket_rsc
recycle_socket_rsc-done p io s h =
    let not_zero : s.disconnect_flag p == 0 ≡ false = ground arith in
    let not_one : s.disconnect_flag p == 1 ≡ false = ground arith in rw (not_zero, not_one)

-- Emptying a queue writes neither the flags, nor the keys, nor what was called.
pub recycle_queue-frame :
    (p : ℕ) (ios : List ℕ) (s : Iocp)
    → let t = recycle_queue p ios s in
      (t.disconnect_flag ≡ s.disconnect_flag)
      × (t.context_key ≡ s.context_key)
      × (t.connect_list ≡ s.connect_list)
      × (t.rsc_socket_context ≡ s.rsc_socket_context)
      × (t.upcalls ≡ s.upcalls)
unfolding recycle_queue put_io
recycle_queue-frame p [] s = (refl, refl, refl, refl, refl)
recycle_queue-frame p (io ∷ ios) s = recycle_queue-frame p ios (set_queue p ios (put_io io s))

pub update_self : (q : ℕ → List ℕ) (p : ℕ) (v : List ℕ) → update q p v p ≡ v
update_self q p v = ground arith

-- Emptying a queue gives each of its contexts back once, and leaves the queue empty.
pub recycle_queue-IsSound :
    (p : ℕ) (ios : List ℕ) (s : Iocp)
    → IsSound s
    → s.queue_io_context p ≡ ios
    → IsSound (recycle_queue p ios s)
      × ((recycle_queue p ios s).queue_io_context p ≡ [])
      × ((a : ℕ) → IsHeld s a → IsHeld (recycle_queue p ios s) a)
unfolding recycle_queue put_io
recycle_queue-IsSound p [] s sound e = (sound, e, λ a h. h)
recycle_queue-IsSound p (io ∷ ios) s sound e =
    let r = s.rsc_io_context in
    let q = s.queue_io_context in
    let popped = pop-IoSound r q sound p io ios e in
    let flying = pop-InFlight r q sound p io ios e in
    let (done, empty, keeps) =
      recycle_queue-IsSound p ios (set_queue p ios (put_io io s))
        (put-IoSound r (update q p ios) popped io flying) (update_self q p ios) in
    (
      done,
      empty,
      λ a h.
          let (held, other) = pop-keeps r q sound p io ios e a h in
          keeps a (put-keeps r (update q p ios) popped io a flying held other),
    )

-- What is left of the operation after `first_recycle`.
abbrev pub finish_disconnect : ℕ → ℕ → Iocp → Iocp
finish_disconnect p io t =
    let u = start_disconnect p io (erase_from_connect_list (t.context_key p) t) in
    if overlapped_result (next_reply t) == 0 then u else give_back p io u

pub first_recycle-flag : (p : ℕ) (s : Iocp) → (first_recycle p s).disconnect_flag p ≡ 1
first_recycle-flag p s =
    ap (λ (f : ℕ → ℕ). f p) (recycle_queue-frame p (s.queue_io_context p) (set_flag p 1 s)).0
    ∙ ground arith

pub post_disconnect_ex-zero :
    (p io : ℕ) (s : Iocp)
    → s.disconnect_flag p ≡ 0
    → post_disconnect_ex p io s ≡ finish_disconnect p io (first_recycle p s)
unfolding post_disconnect_ex
post_disconnect_ex-zero p io s e =
    rw (recycle_socket_rsc-zero p (some io) s e) (rw (first_recycle-flag p s))

pub flag_two : (p io : ℕ) (s : Iocp) → (put_io io (set_flag p 2 s)).disconnect_flag p ≡ 2
unfolding put_io
flag_two p io s = ground arith

pub post_disconnect_ex-one :
    (p io : ℕ) (s : Iocp)
    → s.disconnect_flag p ≡ 1
    → post_disconnect_ex p io s ≡ put_io io (set_flag p 2 s)
unfolding post_disconnect_ex
post_disconnect_ex-one p io s e = rw (recycle_socket_rsc-one p io s e) (rw (flag_two p io s))

pub post_disconnect_ex-done :
    (p io : ℕ) (s : Iocp) → 2 ≤ s.disconnect_flag p → post_disconnect_ex p io s ≡ s
unfolding post_disconnect_ex
post_disconnect_ex-done p io s h =
    let not_one : s.disconnect_flag p == 1 ≡ false = ground arith in
    rw (recycle_socket_rsc-done p (some io) s h, not_one)

pub first_recycle-IsSound :
    (p : ℕ) (s : Iocp)
    → IsSound s
    → IsSound (first_recycle p s)
      × ((first_recycle p s).queue_io_context p ≡ [])
      × ((a : ℕ) → IsHeld s a → IsHeld (first_recycle p s) a)
first_recycle-IsSound p s sound =
    recycle_queue-IsSound p (s.queue_io_context p) (set_flag p 1 s) sound refl

pub put_io-IsSound : (io : ℕ) (s : Iocp) → IsSound s → IsHeld s io → IsSound (put_io io s)
unfolding put_io
put_io-IsSound io s sound held = put-IoSound s.rsc_io_context s.queue_io_context sound io held

pub give_back-IsSound : (p io : ℕ) (s : Iocp) → IsSound s → IsHeld s io → IsSound (give_back p io s)
unfolding put_io put_socket_context count_exit
give_back-IsSound p io s sound held = put-IoSound s.rsc_io_context s.queue_io_context sound io held

pub finish_disconnect-IsSound :
    (p io : ℕ) (s : Iocp) → IsSound s → IsHeld s io → IsSound (finish_disconnect p io s)
finish_disconnect-IsSound p io s sound held =
    let u = start_disconnect p io (erase_from_connect_list (s.context_key p) s) in
    elim (Bool-cases (overlapped_result (next_reply s) == 0)) [
      | inl e ↦ rw e sound
      | inr e ↦ rw e (give_back-IsSound p io u sound held)
    ]

-- Whatever the flag, `PostDisconnectEx` with an IO context of its own keeps the ownership.
pub post_disconnect_ex-IsSound :
    (p io : ℕ) (s : Iocp) → IsSound s → IsHeld s io → IsSound (post_disconnect_ex p io s)
post_disconnect_ex-IsSound p io s sound held = elim (ℕ_discrete (s.disconnect_flag p) 0) [
  | yes zero_ ↦
      let (done, _, keeps) = first_recycle-IsSound p s sound in
      rw (post_disconnect_ex-zero p io s zero_)
        (finish_disconnect-IsSound p io (first_recycle p s) done (keeps io held))
  | no nonzero ↦ elim (ℕ_discrete (s.disconnect_flag p) 1) [
    | yes one ↦
        rw (post_disconnect_ex-one p io s one) (put_io-IsSound io (set_flag p 2 s) sound held)
    | no more ↦ rw (post_disconnect_ex-done p io s (omega arith)) sound
  ]
]

-- A fresh IO context is taken for the operation.
pub drop-IsSound :
    (p : ℕ) (s : Iocp) → IsSound s → IsSound (post_disconnect_ex p (get_io s).0 (get_io s).1)
drop-IsSound p s sound =
    let (t, run, fine, held, _) = get_io-GetsIo s sound in
    rw run (post_disconnect_ex-IsSound p (get_io s).0 (record s { rsc_io_context = t }) fine held)

pub disconnect-IsSound : (key : ℕ) (s : Iocp) → IsSound s → IsSound (disconnect key s)
unfolding disconnect
disconnect-IsSound key s sound = elim (Option-cases (lookup key s.connect_list)) [
  | inl e ↦ rw (e, disconnect) sound
  | inr (p, e) ↦ rw (e, disconnect) (drop-IsSound p s sound)
]

pub hand_disconnect-IsSound :
    (result p io : ℕ) (s : Iocp) → IsSound s → IsHeld s io → IsSound (hand_disconnect result p io s)
unfolding hand_disconnect put_io put_socket_context count_exit
hand_disconnect-IsSound result p io s sound held = elim (Bool-cases (result == 0)) [
  | inl e ↦ rw e (put-IoSound s.rsc_io_context s.queue_io_context sound io held)
  | inr e ↦ rw e (put-IoSound s.rsc_io_context s.queue_io_context sound io held)
]
