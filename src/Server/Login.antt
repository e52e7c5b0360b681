-- ===== src/Server/Login.antt =====
-- A login, from the bytes that come in on a connection (IOCPBase.cpp) through TCPServer.cpp and
-- PbMessageHandle.cpp to `HandleLoginRq` of MainController.cpp and the reply.
use my_communication.Prelude.{ℕ, ◌≡◌, [], some, true}
use my_communication.Prelude.Assoc.{lookup}
use my_communication.Replies.{Serializer}
use my_communication.Wire.{Delivery}
use my_communication.Iocp.State.{Iocp}
use my_communication.Users.{LoginRq}
use my_communication.Messages.{
  Parser, login_rq, login_rq_type, MessageData, add_message_data, on_login,
}
use my_communication.Messages.Queue.{incoming}
use my_communication.Server.{Site, Server}
use my_communication.Server.Kept.{IsSite}

-- What a login request makes of the site, from the call of `HandData` to the end of its handler.
module _ (parser : Parser) (serialize : Serializer) (key q : ℕ) (d : Delivery) (rq : LoginRq)
    (s : Site) (sound : IsSite s) (on : s.messages.start ≡ true)
    (none_waits : s.messages.msg_list ≡ [])
    (registered : lookup login_rq_type s.messages.map_msg_handle ≡ some (on_login serialize))
    (typed : d.msg_type ≡ login_rq_type) (parses : parser.parse_login_rq d.body ≡ some rq)
    (there : lookup key s.users.map_user_list ≡ some q) where
  abbrev handed_on : Site
  handed_on = record s { messages = add_message_data parser key d.msg_type d.body s.messages }

  abbrev request : MessageData
  request = incoming key login_rq_type (some (login_rq rq))

abbrev pub settled : Iocp → Iocp
settled t = record t { upcalls = [] }
