-- ===== src/Messages.antt =====
-- ServerFramework/Component/MessageHandle/PbMessageHandle.cpp and PbMessageFactory.cpp, and the
-- message structures of CommonFile/TypeDefine.cpp: received messages are parsed, queued, and given
-- to the handler of their type by a pool of threads.
-- A message lies at an address of the pool `m_rscMessage`. A thread takes a message off the queue in
-- one step and handles it in a later one, so that several threads can hold messages. The parsers
-- that protobuf generates are parameters.
pub mod Queue
pub mod Handlers
pub mod Threads
pub mod Waking
use my_communication.Prelude.{
  ℕ, Bool, true, false, not, List, [], ◌∷◌, ◌++◌, Option, none, some, ◌==◌, if◌then◌else◌,
}
use my_communication.Prelude.Assoc.{Assoc, lookup, insert, erase}
use my_communication.Resource.{ResourceManage, construct, get, put}
use my_communication.Replies.{PbMsg, Serializer, login_reply}
use my_communication.Users.{
  UserInfoManage, LoginRq, handle_login_rq, handle_heartbeat_nt, add_user, delete_user,
}

abbrev pub login_rq_type : ℕ
login_rq_type = 10001

abbrev pub heartbeat_nt_type : ℕ
heartbeat_nt_type = 20001

-- The structures derived from `SDataExchange` that the factory makes.
pub data DataExchange : Type 0 where
  heart_beat_nt : ℕ → DataExchange
  login_rq : LoginRq → DataExchange

-- What protobuf makes of a message's bytes: `HeartbeatNt` with its user id, and `LoginRq`.
pub record Parser : Type 0 where
  pub parse_heartbeat_nt : List ℕ → Option ℕ
  pub parse_login_rq : List ℕ → Option LoginRq

abbrev pub as_heart_beat : Option ℕ → Option DataExchange
as_heart_beat none = none
as_heart_beat (some id) = some (heart_beat_nt id)

abbrev pub as_login : Option LoginRq → Option DataExchange
as_login none = none
as_login (some rq) = some (login_rq rq)

-- `PbMessageFactory::GetMsgStruct`; no structure is the null pointer.
unfoldable pub get_msg_struct : Parser → ℕ → List ℕ → Option DataExchange
get_msg_struct parser msg_type bytes =
    if msg_type == heartbeat_nt_type
    then as_heart_beat (parser.parse_heartbeat_nt bytes)
    else if msg_type == login_rq_type
    then as_login (parser.parse_login_rq bytes)
    else none

pub record MessageData : Type 0 where
  pub user_key : ℕ
  pub msg_type : ℕ
  pub data_exg : Option DataExchange

-- A handler works on the users of the server, and sends replies to the user of the message.
abbrev pub Handler : Type 0
Handler = ℕ → Option DataExchange → UserInfoManage → UserInfoManage × List PbMsg

pub record PbMessageHandle : Type 0 where
  pub start : Bool
  pub rsc_message : ResourceManage
  pub messages : ℕ → MessageData
  pub msg_list : List ℕ
  pub map_msg_handle : Assoc Handler

abbrev pub message_resource_count : ℕ
message_resource_count = 10

unfoldable pub new_pb_message_handle : (ℕ → MessageData) → PbMessageHandle
new_pb_message_handle messages = record {
  start = false;
  rsc_message = construct 1 message_resource_count;
  messages = messages;
  msg_list = [];
  map_msg_handle = [];
}

unfoldable pub register_message_function : ℕ → Option Handler → PbMessageHandle → PbMessageHandle
register_message_function msg_type none s = record s {
  map_msg_handle = erase msg_type s.map_msg_handle;
}
register_message_function msg_type (some handle) s = record s {
  map_msg_handle = insert msg_type handle s.map_msg_handle;
}

-- `Initialize`, but for the threads.
abbrev pub initialize : PbMessageHandle → PbMessageHandle
initialize s = record s { start = true }

-- `Uninitialize`: the messages that wait stay in the queue.
unfoldable pub uninitialize : PbMessageHandle → PbMessageHandle
uninitialize s = if not s.start then s else record s { start = false; map_msg_handle = [] }

unfoldable pub take_resource : PbMessageHandle → ℕ × PbMessageHandle
take_resource s = elim (get true s.rsc_message) [
  | none ↦ (0, s)
  | some (p, t) ↦ (p, record s { rsc_message = t })
]

abbrev pub write_message : ℕ → MessageData → PbMessageHandle → PbMessageHandle
write_message p d s = record s { messages = λ q. if p == q then d else s.messages q }

-- What is done with the message at `p` after the parsing.
abbrev pub enqueue : ℕ → Option DataExchange → PbMessageHandle → PbMessageHandle
enqueue p none s = record s { rsc_message = (put p s.rsc_message).0 }
enqueue p (some _) s = record s { msg_list = s.msg_list ++ p ∷ [] }

unfoldable pub add_message_data : Parser → ℕ → ℕ → List ℕ → PbMessageHandle → PbMessageHandle
add_message_data parser key msg_type bytes s =
    if not s.start
    then s
    else let parsed = get_msg_struct parser msg_type bytes in
      let (p, s₁) = take_resource s in
      enqueue p parsed
        (write_message p (record { user_key = key; msg_type = msg_type; data_exg = parsed }) s₁)

-- A thread takes a message: `none` where it waits, or where it ends.
unfoldable pub take_message : PbMessageHandle → Option (ℕ × PbMessageHandle)
take_message s = elim s.msg_list [
  | [] ↦ none
  | p ∷ rest ↦ if not s.start then none else some (p, record s { msg_list = rest })
]

-- The call of the handler. A message without a handler is only reported.
unfoldable pub dispatch : MessageData → Assoc Handler → UserInfoManage → UserInfoManage × List PbMsg
dispatch d handlers users = elim (lookup d.msg_type handlers) [
  | none ↦ (users, [])
  | some handle ↦ handle d.user_key d.data_exg users
]

-- The thread handles the message that it has taken, and gives its memory back.
unfoldable pub finish_message :
    ℕ → PbMessageHandle → UserInfoManage → PbMessageHandle × (UserInfoManage × List PbMsg)
finish_message p s users = (
  record s { rsc_message = (put p s.rsc_message).0 },
  dispatch (s.messages p) s.map_msg_handle users,
)

-- The handlers of `MainController`.
abbrev pub on_login : Serializer → Handler
on_login serialize key (some (login_rq rq)) users =
    let (after, answered) = handle_login_rq key rq users in
    (after, if answered then login_reply serialize ∷ [] else [])
on_login serialize key _ users = (users, [])

abbrev pub on_heartbeat : Handler
on_heartbeat key d users = (handle_heartbeat_nt key users, [])

-- The constructor of `MainController` registers them.
unfoldable pub register_handlers : Serializer → PbMessageHandle → PbMessageHandle
register_handlers serialize s =
    register_message_function heartbeat_nt_type (some on_heartbeat)
      (register_message_function login_rq_type (some (on_login serialize)) s)
