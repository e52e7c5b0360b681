-- ===== src/Iocp/Listing.antt =====
-- About `Send`, `HandSend`, `PostReceive` and `HandReceive` of IOCPCommunication/source/IOCPBase.cpp:
-- what they do with the connection list and with the pool of socket contexts.
use my_communication.Prelude.{
  ℕ, ◌-◌, ◌≡◌, refl, subst, ◌∙◌, inl, inr, not, ◌||◌, List, [], ◌∷◌, ◌++◌, Option, none, some, ◌==◌,
  ltb, arith, Bool-cases, Option-cases, length,
}
use my_communication.Prelude.Assoc.{lookup}
use my_communication.Wire.{
  Delivery, Outcome, waits, drops, pack_buffers, unpack_buffer, max_rcv_buf_len, header_size,
}
use my_communication.Iocp.State.{
  Iocp, set_queue, hand_data, notify, get_io, put_io, overlapped_result, next_reply,
}
use my_communication.Iocp.Send.{
  queue_buffer, queue_buffers, pack_send_data, start_send, reset_io, post_front, post_send,
  post_packed, send, hand_send,
}
use my_communication.Iocp.Receive.{
  drop_connection, start_receive, post_receive, hand_all, keep_bytes, after_unpack,
  unpack_received_data, hand_receive,
}
use my_communication.Iocp.Registry.{IsListSound, IsTaken}
use my_communication.Iocp.Listed.{
  SameList, SameList-IsListSound, SameList-IsTaken, get_io-SameList, put_io-SameList,
  post_disconnect_ex-IsListSound, drop-IsListSound, recycle-IsListSound,
}

queue_buffers-SameList :
    (p : ℕ) (chunks : List (List ℕ)) (s : Iocp) → SameList s (queue_buffers p chunks s)
unfolding queue_buffers
queue_buffers-SameList p [] s = (refl, refl, refl, refl)
queue_buffers-SameList p (chunk ∷ chunks) s =
    let (a, b, c, d) = get_io-SameList s in
    let (e, f, g, h) =
      queue_buffers-SameList p chunks (queue_buffer p chunk (get_io s).0 (get_io s).1) in
    (e ∙ a, f ∙ b, g ∙ c, h ∙ d)

pack_send_data-SameList :
    (p msg_type : ℕ) (body : List ℕ) (s t : Iocp)
    → pack_send_data p msg_type body s ≡ some t
    → SameList s t
unfolding pack_send_data
pack_send_data-SameList p msg_type body s t = elim (Bool-cases (s.disconnect_flag p == 1)) [
  | inl closed ↦ rw closed (λ e. subst (SameList s) (given s t e) (refl, refl, refl, refl))
  | inr open_ ↦ rw open_ (elim (Option-cases (pack_buffers msg_type body)) [
    | inl e ↦ rw e (λ e. absurd (cc))
    | inr (chunks, run) ↦ rw run (λ e.
        subst (SameList s) (given (queue_buffers p chunks s) t e)
          (queue_buffers-SameList p chunks s))
  ])
]
  where
    given : (a b : Iocp) → some a ≡ some b → a ≡ b
    given a b e = cc

post_front-IsListSound :
    (p : ℕ) (ios : List ℕ) (s : Iocp)
    → IsListSound s
    → IsTaken s p
    → IsListSound (post_front p ios s).0
unfolding post_front
post_front-IsListSound p [] s w taken = w
post_front-IsListSound p (io ∷ rest) s w taken =
    elim (Bool-cases (overlapped_result (next_reply s) == 0)) [
      | inl started ↦ rw started w
      | inr refused ↦ rw refused (
          post_disconnect_ex-IsListSound p io (reset_io io (start_send io (set_queue p rest s))) w
            taken)
    ]

post_send-IsListSound :
    (p : ℕ) (s : Iocp) → IsListSound s → IsTaken s p → IsListSound (post_send p s).0
unfolding post_send
post_send-IsListSound p s w taken = post_front-IsListSound p (s.queue_io_context p) s w taken

post_packed-IsListSound :
    (p msg_type : ℕ) (body : List ℕ) (s t : Iocp)
    → IsListSound s
    → IsTaken s p
    → post_packed p (pack_send_data p msg_type body s) ≡ some t
    → IsListSound t
post_packed-IsListSound p msg_type body s t w taken =
    elim (Option-cases (pack_send_data p msg_type body s)) [
      | inl e ↦ rw e (λ e. absurd (cc))
      | inr (u, run) ↦
          let same = pack_send_data-SameList p msg_type body s u run in
          rw run (λ e. subst IsListSound (given (post_send p u).0 t e) (
            post_send-IsListSound p u (SameList-IsListSound s u same w)
              (SameList-IsTaken s u p same taken)))
    ]
  where
    given : (a b : Iocp) → some a ≡ some b → a ≡ b
    given a b e = cc

pub send-IsListSound :
    (key msg_type : ℕ) (body : List ℕ) (s t : Iocp)
    → IsListSound s
    → send key msg_type body s ≡ some t
    → IsListSound t
unfolding send
send-IsListSound key msg_type body s t w = elim (Bool-cases (length body == 0)) [
  | inl e ↦ rw e (same s t w)
  | inr e ↦ rw e (elim (Bool-cases (ltb (max_rcv_buf_len - header_size) (length body))) [
    | inl big ↦ rw big (same s t w)
    | inr fits ↦ rw fits (elim (Option-cases (lookup key s.connect_list)) [
      | inl absent ↦ rw absent (same s t w)
      | inr (p, there) ↦
          rw there (post_packed-IsListSound p msg_type body s t w (w.live key p there))
    ])
  ])
]
  where
    same : (a b : Iocp) → IsListSound a → some a ≡ some b → IsListSound b
    same a b w e = let equal : a ≡ b = cc in subst IsListSound equal w

pub hand_send-IsListSound :
    (result p io transferred : ℕ) (s : Iocp)
    → IsListSound s
    → IsTaken s p
    → IsListSound (hand_send result p io transferred s)
unfolding hand_send
hand_send-IsListSound result p io transferred s w taken =
    let back = put_io-SameList io s in
    elim (Bool-cases (not (result == 0) || transferred == 0)) [
      | inl fault ↦ rw fault (post_disconnect_ex-IsListSound p io (reset_io io s) w taken)
      | inr sent ↦ rw sent (
          post_send-IsListSound p (put_io io s) (SameList-IsListSound s (put_io io s) back w)
            (SameList-IsTaken s (put_io io s) p back taken))
    ]

drop_connection-IsListSound :
    (p : ℕ) (s : Iocp) → IsListSound s → IsTaken s p → IsListSound (drop_connection p s)
unfolding drop_connection
drop_connection-IsListSound p s w taken = drop-IsListSound p s w taken

pub post_receive-IsListSound :
    (p : ℕ) (s : Iocp) → IsListSound s → IsTaken s p → IsListSound (post_receive p s)
unfolding post_receive
post_receive-IsListSound p s w taken = elim (Bool-cases (ltb 0 (s.disconnect_flag p))) [
  | inl closed ↦ rw closed (recycle-IsListSound p s w (λ zero_. ground (arith, zero_)))
  | inr open_ ↦ elim (Bool-cases (overlapped_result (next_reply s) == 0)) [
    | inl started ↦ rw (open_, started) w
    | inr refused ↦ rw (open_, refused) (drop_connection-IsListSound p (start_receive p s) w taken)
  ]
]

hand_all-SameList : (key : ℕ) (ds : List Delivery) (s : Iocp) → SameList s (hand_all key ds s)
unfolding hand_all
hand_all-SameList key [] s = (refl, refl, refl, refl)
hand_all-SameList key (d ∷ ds) s = hand_all-SameList key ds (notify (hand_data key d) s)

after_unpack-IsListSound :
    (p : ℕ) (o : Option Outcome) (s t : Iocp)
    → IsListSound s
    → IsTaken s p
    → after_unpack p o s ≡ some t
    → IsListSound t
after_unpack-IsListSound p none s t w taken e = absurd (cc)
after_unpack-IsListSound p (some (waits ds rest)) s t w taken e =
    let u = hand_all (s.context_key p) ds s in
    let same = hand_all-SameList (s.context_key p) ds s in
    let equal : post_receive p (keep_bytes p rest u) ≡ t = cc in
    subst IsListSound equal (
      post_receive-IsListSound p (keep_bytes p rest u) (SameList-IsListSound s u same w)
        (SameList-IsTaken s u p same taken))
after_unpack-IsListSound p (some (drops ds f)) s t w taken e =
    let u = hand_all (s.context_key p) ds s in
    let same = hand_all-SameList (s.context_key p) ds s in
    let equal : drop_connection p u ≡ t = cc in
    subst IsListSound equal (
      drop_connection-IsListSound p u (SameList-IsListSound s u same w)
        (SameList-IsTaken s u p same taken))

pub hand_receive-IsListSound :
    (result p : ℕ) (received : List ℕ) (s t : Iocp)
    → IsListSound s
    → IsTaken s p
    → hand_receive result p received s ≡ some t
    → IsListSound t
unfolding hand_receive unpack_received_data
hand_receive-IsListSound result p received s t w taken = elim (Bool-cases (result == 0)) [
  | inr fault ↦ rw fault dropped
  | inl fine ↦ rw fine (elim (Bool-cases (length received == 0)) [
    | inl closed ↦ rw closed dropped
    | inr bytes ↦ rw bytes (
        after_unpack-IsListSound p (unpack_buffer ((s.receive_context p).bytes ++ received)) s t w
          taken)
  ])
]
  where
    dropped : some (drop_connection p s) ≡ some t → IsListSound t
    dropped e =
        let equal : drop_connection p s ≡ t = cc in
        subst IsListSound equal (drop_connection-IsListSound p s w taken)
