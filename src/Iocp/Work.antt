-- ===== src/Iocp/Work.antt =====
-- `WorkThread` and `HandServerOperate` of IOCPCommunication/source/IOCPBase.cpp: the loop of a thread
-- over the packets that the completion port gives it.
use my_communication.Prelude.{
  ℕ, Bool, true, false, List, [], ◌∷◌, Option, none, some, ◌==◌, if◌then◌else◌, ◌>>=◌,
}
use my_communication.Iocp.State.{
  EOperateType, eop_unknown, eop_connect, eop_accept, eop_receive, eop_send, eop_disconnect,
  eop_keep_live, IoContext, Iocp,
}
use my_communication.Iocp.Disconnect.{hand_disconnect}
use my_communication.Iocp.Send.{hand_send}
use my_communication.Iocp.Receive.{hand_receive}
use my_communication.Iocp.Connect.{hand_connect, hand_accept}

-- Where the `PER_IO_CONTEXT` around the overlapped structure lies: `m_ReceiveContext` of a socket
-- context, or the pool.
pub data IoRef : Type 0 where
  embedded pooled : ℕ → IoRef

abbrev pub at_ref : IoRef → Iocp → IoContext
at_ref (embedded p) s = s.receive_context p
at_ref (pooled io) s = s.io_context io

-- What `GetQueuedCompletionStatus` gives. `context` is 0 for the null pointer, `received` are the bytes
-- that a completed receive has put into the buffer.
pub record Packet : Type 0 where
  pub success : Bool
  pub last_error : ℕ
  pub transferred : ℕ
  pub context : ℕ
  pub overlapped : Option IoRef
  pub received : List ℕ

-- Sends and disconnects use contexts of the pool only.
abbrev pub on_pooled : IoRef → (ℕ → Iocp) → Option Iocp
on_pooled (embedded p) handle = none
on_pooled (pooled io) handle = some (handle io)

unfoldable pub dispatch_type : EOperateType → ℕ → ℕ → IoRef → Packet → Iocp → Option Iocp
dispatch_type eop_accept result p ref k s = some (hand_accept result p (at_ref ref s).user_key s)
dispatch_type eop_connect result p ref k s = some (hand_connect result p s)
dispatch_type eop_disconnect result p ref k s = on_pooled ref (λ io. hand_disconnect result p io s)
dispatch_type eop_receive result p ref k s = hand_receive result p k.received s
dispatch_type eop_send result p ref k s =
    on_pooled ref (λ io. hand_send result p io k.transferred s)
dispatch_type eop_keep_live result p ref k s = none
dispatch_type eop_unknown result p ref k s = none

-- `HandServerOperate`; `none` where a handler does not return, and where the assertion fails.
unfoldable pub hand_server_operate : ℕ → ℕ → IoRef → Packet → Iocp → Option Iocp
hand_server_operate result p ref k s = dispatch_type (at_ref ref s).operate_type result p ref k s

abbrev pub wait_timeout : ℕ
wait_timeout = 258

-- `iResult`
abbrev pub result_of : Packet → ℕ
result_of k = if k.success then 0 else k.last_error

-- Whether the thread ends with this packet.
unfoldable pub ends_thread : Packet → Bool
ends_thread k = elim k.overlapped [
  | none ↦ if result_of k == wait_timeout then false else true
  | some ref ↦ k.context == 0
]

-- What a packet that does not end the thread makes of the state.
unfoldable pub handle_packet : Packet → Iocp → Option Iocp
handle_packet k s = elim k.overlapped [
  | none ↦ some s
  | some ref ↦ hand_server_operate (result_of k) k.context ref k s
]

-- The loop: the state in which the thread ends, with the packets that it leaves to the others.
unfoldable pub work_thread : List Packet → Iocp → Option (Iocp × List Packet)
work_thread [] s = some (s, [])
work_thread (k ∷ ks) s =
    let rest = handle_packet k s >>= (λ t. work_thread ks t) in
    if ends_thread k then some (s, ks) else rest
