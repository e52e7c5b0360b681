-- ===== src/Messages/Handlers.antt =====
-- From a message's type to the handler of the main controller.
use my_communication.Prelude.{ℕ, ◌≡◌, refl, ap, ◌∙◌, List, [], ◌∷◌, some, if◌then◌else◌}
use my_communication.Prelude.Assoc.{Assoc, lookup, insert, lookup-insert}
use my_communication.Replies.{Serializer, login_reply}
use my_communication.Users.{UserInfoManage, LoginRq, handle_login_rq, handle_heartbeat_nt}
use my_communication.Messages.{
  Parser, get_msg_struct, as_login, as_heart_beat, login_rq_type, heartbeat_nt_type, MessageData,
  Handler, PbMessageHandle, dispatch, on_login, on_heartbeat, register_message_function,
  register_handlers,
}
use my_communication.Messages.Queue.{incoming}

pub dispatch-some :
    (d : MessageData) (handlers : Assoc Handler) (handle : Handler) (users : UserInfoManage)
    → lookup d.msg_type handlers ≡ some handle
    → dispatch d handlers users ≡ handle d.user_key d.data_exg users
unfolding dispatch
dispatch-some d handlers handle users e = rw (e, dispatch) refl

pub login_registered :
    (serialize : Serializer) (s : PbMessageHandle)
    → lookup login_rq_type (register_handlers serialize s).map_msg_handle
      ≡ some (on_login serialize)
unfolding register_handlers register_message_function
login_registered serialize s =
    lookup-insert heartbeat_nt_type login_rq_type on_heartbeat
      (insert login_rq_type (on_login serialize) s.map_msg_handle)
    ∙ lookup-insert login_rq_type login_rq_type (on_login serialize) s.map_msg_handle

heartbeat_registered :
    (serialize : Serializer) (s : PbMessageHandle)
    → lookup heartbeat_nt_type (register_handlers serialize s).map_msg_handle ≡ some on_heartbeat
unfolding register_handlers register_message_function
heartbeat_registered serialize s =
    lookup-insert heartbeat_nt_type heartbeat_nt_type on_heartbeat
      (insert login_rq_type (on_login serialize) s.map_msg_handle)

-- After the main controller has registered, the bytes of a login request that parses, under its
-- type, become a login of that user with that request, and a reply if the user is known; those of a
-- heartbeat that parses clear the user's count of beats, and nothing is sent.
pub register_handlers-dispatch :
    (parser : Parser) (serialize : Serializer) (key id : ℕ) (login_bytes beat_bytes : List ℕ)
    (rq : LoginRq) (s : PbMessageHandle) (users : UserInfoManage)
    → parser.parse_login_rq login_bytes ≡ some rq
    → parser.parse_heartbeat_nt beat_bytes ≡ some id
    → let handlers = (register_handlers serialize s).map_msg_handle in
      let login = get_msg_struct parser login_rq_type login_bytes in
      let heartbeat = get_msg_struct parser heartbeat_nt_type beat_bytes in
      let (after, answered) = handle_login_rq key rq users in
      (dispatch (incoming key login_rq_type login) handlers users
        ≡ (after, if answered then login_reply serialize ∷ [] else []))
      × (dispatch (incoming key heartbeat_nt_type heartbeat) handlers users
          ≡ (handle_heartbeat_nt key users, []))
unfolding get_msg_struct
register_handlers-dispatch parser serialize key id login_bytes beat_bytes rq s users logs_in beats =
    let handlers = (register_handlers serialize s).map_msg_handle in
    (
      dispatch-some (incoming key login_rq_type (as_login (parser.parse_login_rq login_bytes)))
            handlers (on_login serialize) users (login_registered serialize s)
          ∙ ap (λ o. on_login serialize key (as_login o) users) logs_in,
      dispatch-some
          (incoming key heartbeat_nt_type (as_heart_beat (parser.parse_heartbeat_nt beat_bytes)))
          handlers on_heartbeat users (heartbeat_registered serialize s),
    )
