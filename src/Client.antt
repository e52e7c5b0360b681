-- ===== src/Client.antt =====
-- QClientFramework: Model/ModelManage/MainModel.cpp, Controller/ControllerManage/MainController.cpp,
-- CommonFile/TypeDefine.cpp, MainClient/MainClient.cpp, Component/MessageHandle/PbMessageFactory.cpp, and
-- the sending of Component/Communication/ServerConnect.cpp: how the client connects and logs in. Its
-- signals to its windows are left out.
-- How protobuf reads and writes messages is a parameter.
pub mod Connecting
pub mod Answers
use my_communication.Prelude.{
  ℕ, zero, suc, ◌+◌, ◌%◌, ◌/◌, ◌^◌, Bool, true, false, not, ◌||◌, List, [], ◌∷◌, ◌++◌, Option, none,
  some, ◌==◌, if◌then◌else◌, ◌>>=◌,
}
use my_communication.Prelude.Assoc.{Assoc, lookup, insert, erase}
use my_communication.Replies.{PbMsg, pack_pb_msg, RespondMsg, login_rs_type}
use my_communication.Iocp.State.{Iocp}
use my_communication.Iocp.Send.{send}
use my_communication.Users.{LoginRq}
use my_communication.ServerConnect.{ServerConnect, add_server, on_connect_notify, on_delete_user}

pub record ClientConfig : Type 0 where
  pub server_ip : List ℕ
  pub server_port : ℕ
  pub iocp_thread_count : ℕ
  pub message_thread_count : ℕ
  pub heartbeat_time : ℕ

abbrev pub is_empty : List ℕ → Bool
is_empty [] = true
is_empty (b ∷ bs) = false

-- `ClientConfig::CheckValid`
unfoldable pub check_valid : ClientConfig → Bool
check_valid c =
    if is_empty c.server_ip
      || c.server_port == 0
      || c.iocp_thread_count == 0
      || c.heartbeat_time == 0
    then false
    else true

abbrev pub est_cmd_server : ℕ
est_cmd_server = 1

abbrev pub est_server_count : ℕ
est_server_count = 60000

-- The loop of `ConnectTcpServer` from the server `i` on, with `left` servers to go.
unfoldable pub connect_from : ℕ → ℕ → List ℕ → ℕ → ServerConnect → ServerConnect × Bool
connect_from zero i ip port s = (s, true)
connect_from (suc left) i ip port s =
    let (t, started) = add_server i ip port 1 s in
    let rest = connect_from left (i + 1) ip port t in if started then rest else (t, false)

-- `MainModel::ConnectTcpServer`
unfoldable pub connect_tcp_server : ClientConfig → ServerConnect → ServerConnect × Bool
connect_tcp_server cfg s = connect_from 59999 est_cmd_server cfg.server_ip cfg.server_port s

-- `ServerConnect::Send`; `none` would mean that it does not return.
unfoldable pub send_to_server : ℕ → PbMsg → ServerConnect → Option ServerConnect
send_to_server key m s = elim (lookup key s.map_srv_info) [
  | none ↦ some s
  | some _ ↦ send key m.msg_type m.msg s.client >>= (λ c. some (record s { client = c }))
]

-- The messages of the client that protobuf writes, and the reply that it reads.
pub record Codec : Type 0 where
  pub serialize_login_rq : LoginRq → List ℕ
  pub parse_respond : List ℕ → Option (ℕ × List ℕ)

abbrev pub login_rq_type : ℕ
login_rq_type = 10001

-- `std::to_string` of an unsigned: its digits in front of those behind them. A number below 2 ^ 32 has
-- at most ten.
unfoldable pub digits : ℕ → ℕ → List ℕ → List ℕ
digits zero n behind = behind
digits (suc fuel) n behind =
    let rest = digits fuel (n / 10) ((48 + n % 10) ∷ behind) in
    if n / 10 == 0 then (48 + n % 10) ∷ behind else rest

unfoldable pub to_string : ℕ → List ℕ
to_string n = digits 10 n []

unfoldable pub login_request : List ℕ → List ℕ → ℕ → LoginRq
login_request name password key = record {
  user_id = key;
  user_name = name ++ to_string key;
  password = password;
}

-- `srv_user` is the set `m_setSrvUser`.
pub record Client : Type 0 where
  pub connect : ServerConnect
  pub srv_user : ℕ → Bool
  pub user_name : List ℕ
  pub password : List ℕ

-- `LoginTcpServer`
unfoldable pub login_tcp_server : Codec → ℕ → Client → Option Client
login_tcp_server codec key c =
    let rq = login_request c.user_name c.password key in
    send_to_server key (pack_pb_msg login_rq_type (codec.serialize_login_rq rq)) c.connect
    >>= (λ s. some (record c { connect = s }))

-- `slotTcpConnectNotify` with `HandleTcpConnectNotify`
unfoldable pub on_tcp_connect : Codec → ℕ → Bool → Client → Option Client
on_tcp_connect codec key success c = if success then login_tcp_server codec key c else some c

-- `DeleteUser` and `slotTcpDisconnectNotify`, which it signals.
unfoldable pub on_tcp_disconnect : ℕ → Client → Client
on_tcp_disconnect key c = record c {
  connect = record (c.connect) { map_srv_info = on_delete_user key c.connect.map_srv_info };
  srv_user = λ j. if key == j then false else c.srv_user j;
}

abbrev pub as_respond : Option (ℕ × List ℕ) → Option RespondMsg
as_respond none = none
as_respond (some (result, msg)) = some (record { rs_msg_type = 0; result = result; msg = msg })

-- `PbMessageFactory::GetMsgStruct` of the client, with `SRespondMsg::ParseFromPb`.
unfoldable pub get_msg_struct : Codec → ℕ → List ℕ → Option RespondMsg
get_msg_struct codec msg_type bytes =
    if msg_type == login_rs_type then as_respond (codec.parse_respond bytes) else none

-- `OnLoginRs`
unfoldable pub on_login_rs : ℕ → RespondMsg → Client → Client
on_login_rs key m c =
    if m.result == 0
    then record c { srv_user = λ j. if key == j then true else c.srv_user j }
    else c

-- A message that comes in on a connection and is handled; what does not parse is dropped.
abbrev pub on_parsed : ℕ → Option RespondMsg → Client → Client
on_parsed key none c = c
on_parsed key (some m) c = on_login_rs key m c

unfoldable pub on_message : Codec → ℕ → PbMsg → Client → Client
on_message codec key m c = on_parsed key (get_msg_struct codec m.msg_type m.msg) c
