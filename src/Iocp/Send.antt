-- ===== src/Iocp/Send.antt =====
-- IOCPCommunication/source/IOCPBase.cpp: `Send`, `PackSendData`, `PostSend` and `HandSend`.
use my_communication.Prelude.{
  ℕ, ◌-◌, Bool, true, false, not, ◌||◌, List, [], ◌∷◌, ◌++◌, Option, none, some, ◌==◌, ltb,
  if◌then◌else◌, length,
}
use my_communication.Prelude.Assoc.{lookup}
use my_communication.Wire.{pack_buffers, max_rcv_buf_len, header_size}
use my_communication.Iocp.State.{
  Iocp, eop_unknown, eop_send, set_queue, set_io, get_io, put_io, overlapped_result, next_reply,
  call,
}
use my_communication.Iocp.Disconnect.{post_disconnect_ex}

-- The content of a fresh buffer, which `PackSendData` then pushes on the send queue.
abbrev pub queue_buffer : ℕ → List ℕ → ℕ → Iocp → Iocp
queue_buffer p chunk io s = set_queue p (s.queue_io_context p ++ io ∷ []) (
    set_io io
      (record (s.io_context io) {
        socket = s.context_socket p;
        bytes = chunk;
        wsa_buf_len = length chunk;
      })
      s)

unfoldable pub queue_buffers : ℕ → List (List ℕ) → Iocp → Iocp
queue_buffers p [] s = s
queue_buffers p (chunk ∷ chunks) s =
    queue_buffers p chunks (queue_buffer p chunk (get_io s).0 (get_io s).1)

-- `none` would mean that the loop over the message does not end.
unfoldable pub pack_send_data : ℕ → ℕ → List ℕ → Iocp → Option Iocp
pack_send_data p msg_type bytes s =
    if s.disconnect_flag p == 1 then some s else elim (pack_buffers msg_type bytes) [
      | none ↦ none
      | some chunks ↦ some (queue_buffers p chunks s)
    ]

-- `IOCPModule::Send`, the state after it.
abbrev pub start_send : ℕ → Iocp → Iocp
start_send io s = call (set_io io (record (s.io_context io) { operate_type = eop_send }) s)

-- `pIO->Reset()`
abbrev pub reset_io : ℕ → Iocp → Iocp
reset_io io s =
    set_io io
      (record {
        user_key = 0;
        socket = none;
        operate_type = eop_unknown;
        wsa_buf_len = 0;
        bytes = [];
      })
      s

unfoldable pub post_front : ℕ → List ℕ → Iocp → Iocp × Bool
post_front p [] s = (s, true)
post_front p (io ∷ rest) s =
    let s₁ = set_queue p rest s in
    if overlapped_result (next_reply s₁) == 0
    then (start_send io s₁, true)
    else (post_disconnect_ex p io (reset_io io (start_send io s₁)), false)

unfoldable pub post_send : ℕ → Iocp → Iocp × Bool
unfolding post_front
post_send p s = post_front p (s.queue_io_context p) s

abbrev pub post_packed : ℕ → Option Iocp → Option Iocp
post_packed p none = none
post_packed p (some s) = some (post_send p s).0

unfoldable pub send : ℕ → ℕ → List ℕ → Iocp → Option Iocp
send key msg_type bytes s =
    if length bytes == 0
    then some s
    else if ltb (max_rcv_buf_len - header_size) (length bytes)
    then some s
    else elim (lookup key s.connect_list) [
      | none ↦ some s
      | some p ↦ post_packed p (pack_send_data p msg_type bytes s)
    ]

unfoldable pub hand_send : ℕ → ℕ → ℕ → ℕ → Iocp → Iocp
hand_send result p io transferred s =
    if not (result == 0) || transferred == 0
    then post_disconnect_ex p io (reset_io io s)
    else (post_send p (put_io io s)).0
