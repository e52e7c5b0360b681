-- ===== src/Iocp/Sending.antt =====
-- About `Send`, `PackSendData`, `PostSend` and `HandSend` of IOCPCommunication/source/IOCPBase.cpp.
use my_communication.Prelude.{
  ℕ, suc, ◌+◌, ◌-◌, ◌<◌, ◌≡◌, ◌≢◌, refl, sym, ap, ◌∙◌, ◌⊎◌, inl, inr, true, false, not, ◌||◌, List,
  [], ◌∷◌, ◌++◌, some, ◌==◌, ltb, length, arith, ℕ_discrete, Bool-cases, Option-cases, concat,
  append_assoc, append-nil, count, ==_refl,
}
use my_communication.Prelude.Assoc.{lookup}
use my_communication.Wire.{max_rcv_buf_len, header_size}
use my_communication.Wire.Pack.{frame, pack_buffers-Cuts}
use my_communication.Iocp.State.{
  Iocp, IoContext, eop_send, update, set_queue, get_io, put_io, overlapped_result, next_reply,
}
use my_communication.Iocp.Send.{
  queue_buffer, queue_buffers, pack_send_data, start_send, reset_io, post_front, post_send, send,
  hand_send,
}
use my_communication.Iocp.Ownership.{get_io-GetsIo, push-IoSound, pop-IoSound, pop-InFlight}
use my_communication.Iocp.Closing.{IsSound, IsHeld, put_io-IsSound, post_disconnect_ex-IsSound}

-- The bytes that stand in buffers, one after another.
abbrev pub contents : (ℕ → IoContext) → List ℕ → List ℕ
contents f [] = []
contents f (io ∷ ios) = (f io).bytes ++ contents f ios

-- The bytes in the send queue of the context `p`.
abbrev pub queued : Iocp → ℕ → List ℕ
queued s p = contents s.io_context (s.queue_io_context p)

contents-append :
    (f : ℕ → IoContext) (xs ys : List ℕ) → contents f (xs ++ ys) ≡ contents f xs ++ contents f ys
contents-append f [] ys = refl
contents-append f (x ∷ xs) ys =
    ap (◌++◌ (f x).bytes) (contents-append f xs ys)
    ∙ sym (append_assoc (f x).bytes (contents f xs) (contents f ys))

contents-update :
    (f : ℕ → IoContext) (io : ℕ) (v : IoContext) (ios : List ℕ)
    → count io ios ≡ 0
    → contents (update f io v) ios ≡ contents f ios
contents-update f io v [] h = refl
contents-update f io v (x ∷ ios) h =
    let other : io == x ≡ false = ground arith in
    rw (other, contents-update f io v ios (omega arith))

-- One buffer: it is owned by the queue, and its bytes follow those that were there.
module _ (p io : ℕ) (chunk : List ℕ) (s : Iocp) (sound : IsSound s) (held : IsHeld s io) where
  queue_buffer-IsSound : IsSound (queue_buffer p chunk io s)
  queue_buffer-IsSound = push-IoSound s.rsc_io_context s.queue_io_context sound p io held

  queued-queue_buffer : queued (queue_buffer p chunk io s) p ≡ queued s p ++ chunk
  queued-queue_buffer =
      let q = s.queue_io_context p in
      let f = s.io_context in
      let v = record (f io) {
        socket = s.context_socket p;
        bytes = chunk;
        wsa_buf_len = length chunk;
      } in
      rw (
        ==_refl p,
        contents-append (update f io v) q (io ∷ []),
        contents-update f io v q (held.unqueued p),
        ==_refl io,
        append-nil chunk,
      )

-- All the buffers of a message.
pub queue_buffers-IsSound :
    (p : ℕ) (chunks : List (List ℕ)) (s : Iocp)
    → IsSound s
    → IsSound (queue_buffers p chunks s)
      × (queued (queue_buffers p chunks s) p ≡ queued s p ++ concat chunks)
unfolding queue_buffers
queue_buffers-IsSound p [] s sound = (sound, sym (append-nil (queued s p)))
queue_buffers-IsSound p (chunk ∷ chunks) s sound =
    let io = (get_io s).0 in
    let (t, run, fine, held, _) = get_io-GetsIo s sound in
    let s₁ = record s { rsc_io_context = t } in
    let (done, bytes) =
      queue_buffers-IsSound p chunks (queue_buffer p chunk io s₁)
        (queue_buffer-IsSound p io chunk s₁ fine held) in
    rw (run, queue_buffers)
      (
        done,
        bytes
            ∙ ap (λ b. b ++ concat chunks) (queued-queue_buffer p io chunk s₁ fine held)
            ∙ append_assoc (queued s p) chunk (concat chunks),
      )

-- `PackSendData` ends for every message that is not empty. Unless the connection has been given up
-- (flag 1), the bytes that wait in the connection's queue grow by the message's frame, at the end.
pub pack_send_data-queued :
    (p msg_type : ℕ) (body : List ℕ) (s : Iocp)
    → IsSound s
    → 0 < length body
    → (t : Iocp) × (pack_send_data p msg_type body s ≡ some t)
      × IsSound t
      × ((s.disconnect_flag p ≡ 1) × (t ≡ s)
          ⊎ (s.disconnect_flag p ≢ 1) × (queued t p ≡ queued s p ++ frame msg_type body))
unfolding pack_send_data
pack_send_data-queued p msg_type body s sound h = elim (ℕ_discrete (s.disconnect_flag p) 1) [
  | yes closed ↦ (s, rw closed, sound, inl (closed, refl))
  | no open_ ↦
      let (cs, run, cut) = pack_buffers-Cuts msg_type body h in
      let (fine, bytes) = queue_buffers-IsSound p cs s sound in
      let test : s.disconnect_flag p == 1 ≡ false = ground arith in
      (
        queue_buffers p cs s,
        rw (test, run),
        fine,
        inr (open_, bytes ∙ ap (λ b. queued s p ++ b) cut.whole),
      )
]

post_front-IsSound :
    (p : ℕ) (ios : List ℕ) (s : Iocp)
    → IsSound s
    → s.queue_io_context p ≡ ios
    → IsSound (post_front p ios s).0
unfolding post_front
post_front-IsSound p [] s sound e = sound
post_front-IsSound p (io ∷ rest) s sound e =
    let r = s.rsc_io_context in
    let q = s.queue_io_context in
    let popped = pop-IoSound r q sound p io rest e in
    let flying = pop-InFlight r q sound p io rest e in
    elim (Bool-cases (overlapped_result (next_reply s) == 0)) [
      | inl started ↦ rw started popped
      | inr refused ↦ rw refused (
          post_disconnect_ex-IsSound p io (reset_io io (start_send io (set_queue p rest s))) popped
            flying)
    ]

pub post_send-IsSound : (p : ℕ) (s : Iocp) → IsSound s → IsSound (post_send p s).0
unfolding post_send
post_send-IsSound p s sound = post_front-IsSound p (s.queue_io_context p) s sound refl

-- `PostSend` takes the oldest buffer off the queue and starts to send it, if the operating system
-- accepts that; the buffers behind it stay, in order.
pub post_send-first :
    (p io : ℕ) (rest : List ℕ) (s : Iocp)
    → s.queue_io_context p ≡ io ∷ rest
    → overlapped_result (next_reply s) ≡ 0
    → let t = (post_send p s).0 in
      ((post_send p s).1 ≡ true)
      × (t.queue_io_context p ≡ rest)
      × ((t.io_context io).operate_type ≡ eop_send)
      × ((t.io_context io).bytes ≡ (s.io_context io).bytes)
      × (t.calls ≡ s.calls + 1)
unfolding post_send
post_send-first p io rest s e started =
    rw (e, post_front) (rw started (refl, rw (==_refl p), rw (==_refl io), rw (==_refl io), refl))

-- `Send` ends on every input, whatever is sent to whom, and keeps the ownership of IO contexts.
pub send-IsSound :
    (key msg_type : ℕ) (body : List ℕ) (s : Iocp)
    → IsSound s
    → (t : Iocp) × (send key msg_type body s ≡ some t) × IsSound t
unfolding send
send-IsSound key msg_type [] s sound = (s, refl, sound)
send-IsSound key msg_type (b ∷ bs) s sound =
    let body : List ℕ = b ∷ bs in
    let full : suc (length bs) == 0 ≡ false = ground arith in
    elim (Bool-cases (ltb (max_rcv_buf_len - header_size) (length body))) [
      | inl big ↦ (s, rw (full, big), sound)
      | inr small ↦ elim (Option-cases (lookup key s.connect_list)) [
        | inl e ↦ (s, rw (full, small, e), sound)
        | inr (p, e) ↦
            let (t, run, fine, _) = pack_send_data-queued p msg_type body s sound (omega arith) in
            ((post_send p t).0, rw (full, small, e, run), post_send-IsSound p t fine)
      ]
    ]

pub hand_send-IsSound :
    (result p io transferred : ℕ) (s : Iocp)
    → IsSound s
    → IsHeld s io
    → IsSound (hand_send result p io transferred s)
unfolding hand_send
hand_send-IsSound result p io transferred s sound held =
    elim (Bool-cases (not (result == 0) || transferred == 0)) [
      | inl fault ↦ rw fault (post_disconnect_ex-IsSound p io (reset_io io s) sound held)
      | inr sent ↦ rw sent (post_send-IsSound p (put_io io s) (put_io-IsSound io s sound held))
    ]
