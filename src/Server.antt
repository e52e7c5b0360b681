-- ===== src/Server.antt =====
-- ServerFramework/Communication/TCPServer.cpp, ServerFramework/MainServer/MainServer.cpp, and the
-- threads of PbMessageHandle.cpp and MainController.cpp: how the connections, the users and the
-- message queue of the server work together.
-- `Site` is what lies above the connections. The calls that a handler of the connections makes
-- upwards are in the log of its state, and `settle` carries them out in their order: no handler
-- reads what they change.
pub mod Kept
pub mod Handling
pub mod Known
pub mod Whole
pub mod Login
pub mod Silence
use my_communication.Prelude.{
  ℕ, ◌%◌, ◌^◌, Bool, true, false, not, ◌||◌, List, [], ◌∷◌, Option, none, some, ◌==◌, if◌then◌else◌,
  ◌>>=◌,
}
use my_communication.Replies.{PbMsg}
use my_communication.Iocp.State.{Iocp, Upcall, add_user, connect_notify, hand_data, delete_user}
use my_communication.Iocp.Disconnect.{disconnect}
use my_communication.Iocp.Send.{send}
use my_communication.Users
use my_communication.Users.{UserInfoManage, get_offline_user_list}
use my_communication.Messages.{
  Parser, PbMessageHandle, add_message_data, take_message, finish_message,
}

-- What `MainServer::ReadConfigFile` fills.
pub record ServerConfig : Type 0 where
  pub listen_port : ℕ
  pub server_thread_count : ℕ
  pub message_thread_count : ℕ
  pub init_accept_count : ℕ
  pub heartbeat_time : ℕ

-- `SServerConfig::CheckValid`, which does not look at the number of message threads.
unfoldable pub check_valid : ServerConfig → Bool
check_valid c =
    if c.listen_port == 0
      || c.init_accept_count == 0
      || c.server_thread_count == 0
      || c.heartbeat_time == 0
    then false
    else true

-- The entries of the section `Server` of the file; `GetValueInt` gives 0 for a missing one.
pub record ConfigFile : Type 0 where
  pub listen_port : Option ℕ
  pub server_thread_count : Option ℕ
  pub message_thread_count : Option ℕ
  pub init_accept_count : Option ℕ
  pub heartbeat_time : Option ℕ

-- A value as a 32-bit pattern; the port is an `unsigned short`.
unfoldable pub read_config_file : ConfigFile → ServerConfig × Bool
read_config_file f =
    let c : ServerConfig = record {
      listen_port = Users.or_zero f.listen_port % 2 ^ 16;
      server_thread_count = Users.or_zero f.server_thread_count % 2 ^ 32;
      message_thread_count = Users.or_zero f.message_thread_count % 2 ^ 32;
      init_accept_count = Users.or_zero f.init_accept_count % 2 ^ 32;
      heartbeat_time = Users.or_zero f.heartbeat_time % 2 ^ 32;
    } in
    (c, if not (check_valid c) then false else true)

-- `linked` tells whether `m_pUserMng` and `m_pPbMsgHandle` of `TCPServer` are set, which
-- `Initialize` and `Uninitialize` do for both.
pub record Site : Type 0 where
  pub linked : Bool
  pub users : UserInfoManage
  pub messages : PbMessageHandle

-- `TCPServer::AddUser`, `HandData` and `DeleteUser`. `ConnectNotify` is the empty one of
-- `INetInterface`. Of a message the bytes that lie in the buffer are passed on.
unfoldable pub on_upcall : Parser → Upcall → Site → Site
on_upcall parser (add_user key) s =
    if s.linked then record s { users = Users.add_user key s.users } else s
on_upcall parser (connect_notify key success) s = s
on_upcall parser (hand_data key d) s =
    if s.linked
    then record s { messages = add_message_data parser key d.msg_type d.body s.messages }
    else s
on_upcall parser (delete_user key) s =
    if s.linked then record s { users = Users.delete_user key s.users } else s

unfoldable pub on_upcalls : Parser → List Upcall → Site → Site
on_upcalls parser [] s = s
on_upcalls parser (u ∷ us) s = on_upcalls parser us (on_upcall parser u s)

-- One round of `PbMessageHandle::MessageHandleThread` with its handler: the user of the message,
-- and the replies to it. `none` where the thread waits or ends.
abbrev pub finish_taken : ℕ → PbMessageHandle → Site → (ℕ × List PbMsg) × Site
finish_taken p t s =
    let (messages, (users, replies)) = finish_message p t s.users in
    (((t.messages p).user_key, replies), record s { users = users; messages = messages })

unfoldable pub handle_next : Site → Option ((ℕ × List PbMsg) × Site)
handle_next s = elim (take_message s.messages) [
  | none ↦ none
  | some (p, t) ↦ some (finish_taken p t s)
]

-- The first part of a round of `HeartbeatHandle`: the users, and the keys to disconnect.
abbrev pub beat_site : Site → Site × List ℕ
beat_site s =
    let (users, list) = get_offline_user_list s.users in (record s { users = users }, list)

pub record Server : Type 0 where
  pub iocp : Iocp
  pub site : Site

-- The calls in the log are carried out.
unfoldable pub settle : Parser → Server → Server
settle parser s = record {
  iocp = record (s.iocp) { upcalls = [] };
  site = on_upcalls parser s.iocp.upcalls s.site;
}

-- `TCPServer::SendData` of an `SPbMsg`; `none` would mean that it does not return.
unfoldable pub send_data : ℕ → PbMsg → Iocp → Option Iocp
send_data key m s = send key m.msg_type m.msg s

unfoldable pub send_all : ℕ → List PbMsg → Iocp → Option Iocp
send_all key [] s = some s
send_all key (m ∷ ms) s = do t ← send_data key m s; send_all key ms t

-- A message thread handles the next message, and its replies are sent.
unfoldable pub handle_message : Server → Option Server
handle_message s = do
  r ← handle_next s.site
  iocp ← send_all r.0.0 r.0.1 s.iocp
  some (record { iocp = iocp; site = r.1 })

-- `for (unsigned uUserKey : userList) m_pTcpSrv->Disconnect(uUserKey);`
unfoldable pub disconnect_all : List ℕ → Iocp → Iocp
disconnect_all [] s = s
disconnect_all (key ∷ keys) s = disconnect_all keys (disconnect key s)

-- What `WaitForSingleObject` in `HeartbeatHandle` answers.
pub data Wait : Type 0 where
  signalled wait_failed timed_out : Wait

-- A round of the loop of `HeartbeatHandle`: `none` where the thread ends.
unfoldable pub heartbeat_round : Wait → Server → Option Server
heartbeat_round signalled s = none
heartbeat_round wait_failed s = none
heartbeat_round timed_out s =
    let (site, list) = beat_site s.site in
    some (record { iocp = disconnect_all list s.iocp; site = site })
