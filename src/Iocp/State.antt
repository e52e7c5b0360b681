-- ===== src/Iocp/State.antt =====
-- IOCPCommunication/include/IOCPDef.h and IOCPCommunication/source/IOCPModule.cpp: the contexts, the
-- shared data `IOCPBaseData`, and the calls of the operating system.
-- A field of `PER_SOCKET_CONTEXT` is a function from the context's address to its value, so that
-- writing one field leaves the others alone. What the operating system answers is a function from
-- the number of the call to a reply, over which every theorem ranges.
use my_communication.Prelude.{
  ℕ, ◌+◌, ◌-◌, ◌%◌, ◌^◌, Bool, true, List, [], ◌∷◌, ◌++◌, Option, none, some, ◌==◌, if◌then◌else◌,
}
use my_communication.Prelude.Assoc.{Assoc, insert, erase}
use my_communication.Resource.{ResourceManage, construct, get, put}
use my_communication.Wire.{Delivery}

pub data EOperateType : Type 0 where
  eop_unknown eop_connect eop_accept eop_receive eop_send eop_disconnect eop_keep_live :
      EOperateType

-- `bytes` is the part of the buffer that `m_uDataLength` covers; no socket is `INVALID_SOCKET`. Of
-- `m_wsaBuf` the length is a field. Its `buf` is not: where it is set, in `Reset` and in
-- `UnpackReceivedData`, it points behind those bytes, so that what is received comes behind them.
pub record IoContext : Type 0 where
  pub user_key : ℕ
  pub socket : Option ℕ
  pub operate_type : EOperateType
  pub wsa_buf_len : ℕ
  pub bytes : List ℕ

-- `PER_IO_CONTEXT::Reset`
abbrev pub reset_io_context : IoContext
reset_io_context = record {
  user_key = 0;
  socket = none;
  operate_type = eop_unknown;
  wsa_buf_len = 0;
  bytes = [];
}

-- What a call of the operating system gives: whether it reports failure, `WSAGetLastError`, and
-- the socket, for `WSASocket` (0 for `INVALID_SOCKET`), or the port, for `CreateIoCompletionPort`.
pub record Reply : Type 0 where
  pub failed : Bool
  pub last_error : ℕ
  pub handle : ℕ

-- A call of the interface `INetInterface` that the layer above implements.
pub data Upcall : Type 0 where
  add_user : ℕ → Upcall
  connect_notify : ℕ → Bool → Upcall
  hand_data : ℕ → Delivery → Upcall
  delete_user : ℕ → Upcall

pub record Iocp : Type 0 where
  pub user_num : ℕ
  pub connect_list : Assoc ℕ
  pub rsc_socket_context : ResourceManage
  pub rsc_io_context : ResourceManage
  pub exit_user_count : ℕ
  pub context_key : ℕ → ℕ
  pub context_socket : ℕ → Option ℕ
  pub receive_context : ℕ → IoContext
  pub disconnect_flag : ℕ → ℕ
  pub queue_io_context : ℕ → List ℕ
  pub io_context : ℕ → IoContext
  pub replies : ℕ → Reply
  pub calls : ℕ
  pub upcalls : List Upcall

-- A write to one address.
abbrev pub update {ℓ} : {A : Type ℓ} → (ℕ → A) → ℕ → A → ℕ → A
update f p v q = if p == q then v else f q

abbrev pub socket_resource_count : ℕ
socket_resource_count = 100

abbrev pub io_resource_count : ℕ
io_resource_count = 40

-- The constructor of `IOCPBaseData`, with the content of fresh contexts.
unfoldable pub new_base_data : (ℕ → Reply) → Iocp
new_base_data replies = record {
  user_num = 100;
  connect_list = [];
  rsc_socket_context = construct 1 socket_resource_count;
  rsc_io_context = construct 1 io_resource_count;
  exit_user_count = 0;
  context_key = λ _. 0;
  context_socket = λ _. none;
  receive_context = λ _. reset_io_context;
  disconnect_flag = λ _. 0;
  queue_io_context = λ _. [];
  io_context = λ _. reset_io_context;
  replies = replies;
  calls = 0;
  upcalls = [];
}

abbrev pub notify : Upcall → Iocp → Iocp
notify u s = record s { upcalls = s.upcalls ++ u ∷ [] }

abbrev pub set_flag : ℕ → ℕ → Iocp → Iocp
set_flag p v s = record s { disconnect_flag = update s.disconnect_flag p v }

abbrev pub set_queue : ℕ → List ℕ → Iocp → Iocp
set_queue p v s = record s { queue_io_context = update s.queue_io_context p v }

abbrev pub set_io : ℕ → IoContext → Iocp → Iocp
set_io io v s = record s { io_context = update s.io_context io v }

abbrev pub set_receive : ℕ → IoContext → Iocp → Iocp
set_receive p v s = record s { receive_context = update s.receive_context p v }

abbrev pub add_to_connect_list : ℕ → ℕ → Iocp → Iocp
add_to_connect_list key p s = record s { connect_list = insert key p s.connect_list }

abbrev pub erase_from_connect_list : ℕ → Iocp → Iocp
erase_from_connect_list key s = record s { connect_list = erase key s.connect_list }

-- `RELEASE_SOCKET(pSkContext->m_socket)`
abbrev pub release_socket : ℕ → Iocp → Iocp
release_socket p s = record s { context_socket = update s.context_socket p none }

-- `rscIoContext.get()`, with memory never short. The first case does not arise: the pool has a
-- positive unit.
unfoldable pub get_io : Iocp → ℕ × Iocp
get_io s = elim (get true s.rsc_io_context) [
  | none ↦ (0, s)
  | some (io, t) ↦ (io, record s { rsc_io_context = t })
]

unfoldable pub get_socket_context : Iocp → ℕ × Iocp
get_socket_context s = elim (get true s.rsc_socket_context) [
  | none ↦ (0, s)
  | some (p, t) ↦ (p, record s { rsc_socket_context = t })
]

-- `pIO->Reset(); rscIoContext.put(pIO)`
unfoldable pub put_io : ℕ → Iocp → Iocp
put_io io s = record s {
  io_context = update s.io_context io reset_io_context;
  rsc_io_context = (put io s.rsc_io_context).0;
}

unfoldable pub put_socket_context : ℕ → Iocp → Iocp
put_socket_context p s = record s { rsc_socket_context = (put p s.rsc_socket_context).0 }

-- `iExitUserCount--` on an atomic int, as a 32-bit pattern.
unfoldable pub count_exit : Iocp → Iocp
count_exit s = record s { exit_user_count = (s.exit_user_count + 2 ^ 32 - 1) % 2 ^ 32 }

abbrev pub wsa_io_pending : ℕ
wsa_io_pending = 997

-- How `AcceptEx`, `ConnectEx`, `DisconnectEx`, `Send` and `Receive` of `IOCPModule` report: 0 if the
-- operation was started, and else the error code.
unfoldable pub overlapped_result : Reply → ℕ
overlapped_result r =
    if r.failed then (if r.last_error == wsa_io_pending then 0 else r.last_error) else 0

-- How `Bind`, `Listen`, `BindIoCompletionPort` and `PostQueuedCompletionStatus` report.
unfoldable pub sync_result : Reply → ℕ
sync_result r = if r.failed then r.last_error else 0

-- The next call's reply.
abbrev pub next_reply : Iocp → Reply
next_reply s = s.replies s.calls

abbrev pub call : Iocp → Iocp
call s = record s { calls = s.calls + 1 }
