-- ===== src/Iocp/Listed.antt =====
-- About `PostDisconnectEx`, `Disconnect`, `HandDisconnect`, the sends and the receives of
-- IOCPCommunication/source/IOCPBase.cpp: what they do with the connection list and with the pool of
-- socket contexts.
use my_communication.Prelude.{
  ℕ, ◌≡◌, ◌≢◌, refl, sym, ap, subst, ◌∙◌, inl, inr, false, none, ◌==◌, arith, ℕ_discrete,
  Bool-cases, Option-cases,
}
use my_communication.Prelude.Assoc.{Assoc, lookup, erase}
use my_communication.Resource.{ResourceManage}
use my_communication.Resource.Invariant.{IsLive}
use my_communication.Iocp.State.{
  Iocp, set_flag, get_io, put_io, put_socket_context, count_exit, overlapped_result, next_reply,
}
use my_communication.Iocp.Disconnect.{
  recycle_socket_rsc, post_disconnect_ex, disconnect, hand_disconnect,
}
use my_communication.Iocp.Closing.{
  first_recycle, recycle_queue-frame, post_disconnect_ex-zero, post_disconnect_ex-one,
  post_disconnect_ex-done, finish_disconnect,
}
use my_communication.Iocp.Registry.{
  Registered, Unlisted, IsListSound, IsTaken, given_up-Unlisted, erased-Unlisted, flag-Registered,
  give_up-Registered, put-Registered,
}

-- Two states with the same connection list, socket contexts, keys and flags.
abbrev pub SameList : Iocp → Iocp → Type 0
SameList s t =
    (t.connect_list ≡ s.connect_list)
    × (t.rsc_socket_context ≡ s.rsc_socket_context)
    × (t.context_key ≡ s.context_key)
    × (t.disconnect_flag ≡ s.disconnect_flag)

pub moved :
    {m n : Assoc ℕ} {r q : ResourceManage} {k l f g : ℕ → ℕ}
    → n ≡ m
    → q ≡ r
    → l ≡ k
    → g ≡ f
    → Registered m r k f
    → Registered n q l g
moved a b c d w = rw (a, b, c, d) w

pub SameList-IsListSound : (s t : Iocp) → SameList s t → IsListSound s → IsListSound t
SameList-IsListSound s t (a, b, c, d) w = moved a b c d w

pub SameList-IsTaken : (s t : Iocp) (p : ℕ) → SameList s t → IsTaken s p → IsTaken t p
SameList-IsTaken s t p (_, b, _, _) taken = rw b taken

-- The end of giving up a connection whose entry is to go.
finish_disconnect-IsListSound :
    (p io : ℕ) (t : Iocp)
    → Registered
        (erase (t.context_key p) t.connect_list)
        t.rsc_socket_context
        t.context_key
        t.disconnect_flag
    → Unlisted (erase (t.context_key p) t.connect_list) p
    → IsTaken t p
    → IsListSound (finish_disconnect p io t)
unfolding put_io put_socket_context count_exit
finish_disconnect-IsListSound p io t w off taken =
    elim (Bool-cases (overlapped_result (next_reply t) == 0)) [
      | inl e ↦ rw e w
      | inr e ↦ rw e (put-Registered w p taken off)
    ]

-- A connection that is given up.
pub first_recycle-SameList : (p : ℕ) (s : Iocp) → SameList (set_flag p 1 s) (first_recycle p s)
first_recycle-SameList p s =
    let (f, k, c, r, _) = recycle_queue-frame p (s.queue_io_context p) (set_flag p 1 s) in
    (c, r, k, f)

pub put_io-SameList : (io : ℕ) (s : Iocp) → SameList s (put_io io s)
unfolding put_io
put_io-SameList io s = (refl, refl, refl, refl)

pub get_io-SameList : (s : Iocp) → SameList s (get_io s).1
unfolding get_io
get_io-SameList s = ground arith

-- Whatever the flag, `PostDisconnectEx` on a context in use.
pub post_disconnect_ex-IsListSound :
    (p io : ℕ) (s : Iocp) → IsListSound s → IsTaken s p → IsListSound (post_disconnect_ex p io s)
post_disconnect_ex-IsListSound p io s w taken = elim (ℕ_discrete (s.disconnect_flag p) 0) [
  | yes zero_ ↦
      let t = first_recycle p s in
      let (c, r, k, f) = first_recycle-SameList p s in
      let key : t.context_key p ≡ s.context_key p = ap (λ (g : ℕ → ℕ). g p) k in
      let list : erase (t.context_key p) t.connect_list ≡ erase (s.context_key p) s.connect_list =
        ap (λ j. erase j t.connect_list) key ∙ ap (erase (s.context_key p)) c in
      subst IsListSound (sym (post_disconnect_ex-zero p io s zero_)) (
        finish_disconnect-IsListSound p io t (moved list r k f (give_up-Registered w p 1))
          (subst (λ m. Unlisted m p) (sym list) (erased-Unlisted w p))
          (subst (λ q. IsLive q p) (sym r) taken))
  | no closed ↦ elim (ℕ_discrete (s.disconnect_flag p) 1) [
    | yes one ↦ subst IsListSound (sym (post_disconnect_ex-one p io s one)) (
        SameList-IsListSound (set_flag p 2 s) (put_io io (set_flag p 2 s))
          (put_io-SameList io (set_flag p 2 s))
          (flag-Registered w p 2 (given_up-Unlisted w p closed)))
    | no more ↦ subst IsListSound (sym (post_disconnect_ex-done p io s (omega arith))) w
  ]
]

-- With a fresh IO context.
pub drop-IsListSound :
    (p : ℕ) (s : Iocp)
    → IsListSound s
    → IsTaken s p
    → IsListSound (post_disconnect_ex p (get_io s).0 (get_io s).1)
drop-IsListSound p s w taken =
    let same = get_io-SameList s in
    post_disconnect_ex-IsListSound p (get_io s).0 (get_io s).1
      (SameList-IsListSound s (get_io s).1 same w) (SameList-IsTaken s (get_io s).1 p same taken)

pub disconnect-IsListSound : (key : ℕ) (s : Iocp) → IsListSound s → IsListSound (disconnect key s)
unfolding disconnect
disconnect-IsListSound key s w = elim (Option-cases (lookup key s.connect_list)) [
  | inl e ↦ rw (e, disconnect) w
  | inr (p, e) ↦ rw (e, disconnect) (drop-IsListSound p s w (w.live key p e))
]

pub hand_disconnect-IsListSound :
    (result p io : ℕ) (s : Iocp)
    → IsListSound s
    → IsTaken s p
    → s.disconnect_flag p ≢ 0
    → IsListSound (hand_disconnect result p io s)
unfolding hand_disconnect put_io put_socket_context count_exit
hand_disconnect-IsListSound result p io s w taken closed =
    let done = put-Registered w p taken (given_up-Unlisted w p closed) in
    elim (Bool-cases (result == 0)) [ inl e ↦ rw e done | inr e ↦ rw e done ]

-- The flag of a connection that has been given up counts on.
pub recycle-IsListSound :
    (p : ℕ) (s : Iocp)
    → IsListSound s
    → s.disconnect_flag p ≢ 0
    → IsListSound (recycle_socket_rsc p none s)
unfolding recycle_socket_rsc
recycle-IsListSound p s w closed =
    let test : s.disconnect_flag p == 0 ≡ false = ground arith in
    rw test (elim (Bool-cases (s.disconnect_flag p == 1)) [
      | inl one ↦ rw one (flag-Registered w p 2 (given_up-Unlisted w p closed))
      | inr more ↦ rw more w
    ])
