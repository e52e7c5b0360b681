-- ===== src/Iocp/Lifecycle.antt =====
-- IOCPCommunication/source/IOCPServer.cpp and IOCPClient.cpp: `StartServerListen`, `StopServer` and
-- `StopClient`, up to the threads of the completion port. The loops that stop the connections hold
-- the lock of the connection list.
use my_communication.Prelude.{
  ℕ, zero, suc, ◌+◌, ◌%◌, ◌^◌, Bool, true, false, not, [], ◌∷◌, Option, none, some, ◌==◌,
  if◌then◌else◌,
}
use my_communication.Prelude.Assoc.{Assoc}
use my_communication.Iocp.State.{
  Iocp, EOperateType, eop_unknown, eop_connect, eop_accept, eop_receive, eop_send, eop_disconnect,
  eop_keep_live, erase_from_connect_list, release_socket, get_io, put_io, get_socket_context,
  put_socket_context, overlapped_result, sync_result, next_reply, call,
}
use my_communication.Iocp.Disconnect.{recycle_socket_rsc, start_disconnect}
use my_communication.Iocp.Connect.{is_invalid, set_socket, post_accept_ex}

-- `IOCPServerData`; no listening context is the null pointer.
pub record IocpServer : Type 0 where
  pub base : Iocp
  pub start : Bool
  pub listen_socket_context : Option ℕ

-- `EOP_ACCEPT >= m_oprateType`: the connection is not open yet.
abbrev pub is_pending : EOperateType → Bool
is_pending eop_unknown = true
is_pending eop_connect = true
is_pending eop_accept = true
is_pending eop_receive = false
is_pending eop_send = false
is_pending eop_disconnect = false
is_pending eop_keep_live = false

-- An open connection is given up: `DisconnectEx` on a fresh IO context.
abbrev pub finish_stop : ℕ → ℕ → Iocp → Iocp
finish_stop p io s =
    let s₁ = start_disconnect p io s in
    if overlapped_result (next_reply s) == 0
    then record s₁ { exit_user_count = (s₁.exit_user_count + 1) % 2 ^ 32 }
    else put_io io (put_socket_context p (release_socket p s₁))

unfoldable pub stop_connection : ℕ → ℕ → Iocp → Iocp
stop_connection key p s =
    let s₁ = recycle_socket_rsc p none s in
    erase_from_connect_list key (finish_stop p (get_io s₁).0 (get_io s₁).1)

-- The loop of `StopServer` over the connection list.
unfoldable pub stop_all : Assoc ℕ → Iocp → Iocp
stop_all [] s = s
stop_all ((key, p) ∷ m) s =
    if is_invalid (s.context_socket p)
    then stop_all m s
    else if is_pending (s.receive_context p).operate_type
    then stop_all m s
    else stop_all m (stop_connection key p s)

-- The loop of `StopClient` on its iterator; `none` where the fuel runs out. On an entry without a socket
-- the iterator stays. `CancelIoEx` is called for a connection that is not open yet.
unfoldable pub stop_all_client : ℕ → Assoc ℕ → Iocp → Option Iocp
stop_all_client fuel [] s = some s
stop_all_client zero (entry ∷ m) s = none
stop_all_client (suc fuel) ((key, p) ∷ m) s =
    let again = stop_all_client fuel ((key, p) ∷ m) s in
    let passed = stop_all_client fuel m (call s) in
    let stopped = stop_all_client fuel m (stop_connection key p s) in
    if is_invalid (s.context_socket p)
    then again
    else if is_pending (s.receive_context p).operate_type
    then passed
    else stopped

abbrev pub release_listener : Option ℕ → Iocp → Iocp
release_listener none s = s
release_listener (some l) s = put_socket_context l (release_socket l s)

abbrev pub reset_exit_count : Iocp → Iocp
reset_exit_count s = record s { exit_user_count = 0 }

unfoldable pub stop_server : IocpServer → IocpServer
stop_server d =
    if not d.start
    then d
    else let s = reset_exit_count (release_listener d.listen_socket_context d.base) in
      record { base = stop_all s.connect_list s; start = false; listen_socket_context = none }

unfoldable pub stop_client : ℕ → Iocp → Option Iocp
stop_client fuel s = stop_all_client fuel s.connect_list (reset_exit_count s)

-- The loop that posts the accept operations, and `bRet` after it.
unfoldable pub post_accepts : ℕ → Bool → ℕ → Iocp → Iocp × Bool
post_accepts zero ret l s = (s, ret)
post_accepts (suc n) ret l s =
    let (s₁, posted) = post_accept_ex (s.context_socket l) s in
    let rest = post_accepts n true l s₁ in if posted then rest else (s₁, false)

-- The socket of the listening context: a fresh one where there is none.
unfoldable pub listening_socket : ℕ → Iocp → Iocp × Bool
listening_socket l s =
    if not (is_invalid (s.context_socket l))
    then (s, true)
    else if (next_reply s).handle == 0
    then (call s, false)
    else (call (set_socket l (some (next_reply s).handle) s), true)

-- `Bind`, `Listen` and `BindIoCompletionPort`, one after another.
unfoldable pub bind_listener : Iocp → Iocp × Bool
bind_listener s =
    if not (sync_result (next_reply s) == 0)
    then (call s, false)
    else if not (sync_result (next_reply (call s)) == 0)
    then (call (call s), false)
    else (call (call (call s)), sync_result (next_reply (call (call s))) == 0)

abbrev pub listen_on : ℕ → ℕ → Iocp → Iocp × Bool
listen_on n l s =
    let (s₁, ready) = listening_socket l s in
    let (s₂, bound) = bind_listener s₁ in
    if not ready then (s₁, false) else if not bound then (s₂, false) else post_accepts n false l s₂

abbrev pub settle : ℕ → Iocp × Bool → IocpServer → IocpServer × Bool
settle l (s, true) d = (record d { base = s; listen_socket_context = some l }, true)
settle l (s, false) d = (
  record d { base = put_socket_context l (release_socket l s); listen_socket_context = none },
  false,
)

abbrev pub listener : IocpServer → ℕ × Iocp
listener d = elim d.listen_socket_context [
  | none ↦ get_socket_context d.base
  | some l ↦ (l, d.base)
]

unfoldable pub start_server_listen : ℕ → IocpServer → IocpServer × Bool
start_server_listen n d = let (l, s) = listener d in settle l (listen_on n l s) d
