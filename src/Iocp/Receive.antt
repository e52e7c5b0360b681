-- ===== src/Iocp/Receive.antt =====
-- IOCPCommunication/source/IOCPBase.cpp: `PostReceive`, `HandReceive` and `UnpackReceivedData`. The
-- receive operation of a connection uses the context `m_ReceiveContext` inside its socket context.
use my_communication.Prelude.{
  ℕ, ◌-◌, not, List, [], ◌∷◌, ◌++◌, Option, none, some, ◌==◌, ltb, if◌then◌else◌, length,
}
use my_communication.Wire.{Delivery, Outcome, waits, drops, unpack_buffer, max_rcv_buf_len}
use my_communication.Iocp.State.{
  Iocp, eop_receive, hand_data, notify, set_receive, get_io, overlapped_result, next_reply, call,
}
use my_communication.Iocp.Disconnect.{post_disconnect_ex, recycle_socket_rsc}

-- `PostDisconnectEx(pSkContext, d->rscIoContext.get())`
unfoldable pub drop_connection : ℕ → Iocp → Iocp
drop_connection p s = post_disconnect_ex p (get_io s).0 (get_io s).1

-- `IOCPModule::Receive`, the state after it.
abbrev pub start_receive : ℕ → Iocp → Iocp
start_receive p s =
    call (set_receive p (record (s.receive_context p) { operate_type = eop_receive }) s)

unfoldable pub post_receive : ℕ → Iocp → Iocp
post_receive p s =
    if ltb 0 (s.disconnect_flag p)
    then recycle_socket_rsc p none s
    else if overlapped_result (next_reply s) == 0
    then start_receive p s
    else drop_connection p (start_receive p s)

unfoldable pub hand_all : ℕ → List Delivery → Iocp → Iocp
hand_all key [] s = s
hand_all key (d ∷ ds) s = hand_all key ds (notify (hand_data key d) s)

-- The bytes left are moved to the front, and the rest of the buffer is offered for the next ones.
abbrev pub keep_bytes : ℕ → List ℕ → Iocp → Iocp
keep_bytes p rest s =
    set_receive p
      (record (s.receive_context p) { bytes = rest; wsa_buf_len = max_rcv_buf_len - length rest }) s

-- After a fault what the receive context holds is not read again before its `Reset`.
abbrev pub after_unpack : ℕ → Option Outcome → Iocp → Option Iocp
after_unpack p none s = none
after_unpack p (some (waits ds rest)) s =
    some (post_receive p (keep_bytes p rest (hand_all (s.context_key p) ds s)))
after_unpack p (some (drops ds f)) s = some (drop_connection p (hand_all (s.context_key p) ds s))

-- `received` are the `InternalHigh` bytes that have come; `none` means that the loop does not end.
unfoldable pub unpack_received_data : ℕ → List ℕ → Iocp → Option Iocp
unpack_received_data p received s =
    after_unpack p (unpack_buffer ((s.receive_context p).bytes ++ received)) s

unfoldable pub hand_receive : ℕ → ℕ → List ℕ → Iocp → Option Iocp
hand_receive result p received s =
    if not (result == 0)
    then some (drop_connection p s)
    else if length received == 0
    then some (drop_connection p s)
    else unpack_received_data p received s
