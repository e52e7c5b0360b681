-- ===== src/Tests/Messages.antt =====
-- Examples for the queue of messages.
use my_communication.Prelude.{if◌then◌else◌, ℕ, ◌≡◌, refl, true, List, [], ◌∷◌, Option, none, some}
use my_communication.Resource.{construct, block_pointers, get}
use my_communication.Replies.{Serializer, login_reply}
use my_communication.Users.{
  UserInfoManage, LoginRq, new_user_info_manage, handle_login_rq, handle_heartbeat_nt,
}
use my_communication.Messages.{
  Parser, get_msg_struct, PbMessageHandle, login_rq_type, heartbeat_nt_type, new_pb_message_handle,
  initialize, take_resource, add_message_data, take_message, dispatch, finish_message,
  register_handlers,
}
use my_communication.Messages.Queue.{
  IsQueue, content, incoming, Queues, add_message_data_lem, GivesBack, take_message_lem,
  new_pb_message_handle-IsQueue,
}
use my_communication.Messages.Handlers.{register_handlers-dispatch}

-- A parser that reads the first byte as the user id.
abbrev pub request : ℕ → LoginRq
request id = record { user_id = id; user_name = []; password = [] }

abbrev first_byte : List ℕ → Option ℕ
first_byte [] = none
first_byte (b ∷ bs) = some b

abbrev first_request : List ℕ → Option LoginRq
first_request [] = none
first_request (b ∷ bs) = some (request b)

abbrev pub parser : Parser
parser = record { parse_heartbeat_nt = first_byte; parse_login_rq = first_request }

abbrev pub no_users : UserInfoManage
no_users = new_user_info_manage (λ _. record {
  user_key = 0;
  user_id = 0;
  login_name = [];
  password = [];
  name = [];
  sex = [];
  age = 0;
  heart_count = 0;
})

abbrev stopped : PbMessageHandle
stopped = new_pb_message_handle (λ _. record { user_key = 0; msg_type = 0; data_exg = none })

abbrev pub running : PbMessageHandle
running = initialize stopped

pub running-IsQueue : IsQueue running
running-IsQueue =
    let q =
      new_pb_message_handle-IsQueue (λ _. record { user_key = 0; msg_type = 0; data_exg = none }) in
    record { valid = q.valid; unlimited = q.unlimited; live = q.live; once = q.once }

abbrev waiting : PbMessageHandle
waiting = add_message_data parser 100 login_rq_type (42 ∷ []) running

add_message_data_lem_example :
    Queues 100 login_rq_type (get_msg_struct parser login_rq_type (42 ∷ [])) running waiting
    × IsQueue waiting
add_message_data_lem_example =
    add_message_data_lem parser 100 login_rq_type (42 ∷ []) running running-IsQueue refl

waiting-IsQueue : IsQueue waiting
waiting-IsQueue =
    (add_message_data_lem parser 100 login_rq_type (42 ∷ []) running running-IsQueue refl).1

waiting_start : waiting.start ≡ true
unfolding add_message_data take_resource get construct new_pb_message_handle block_pointers
    get_msg_struct
waiting_start = refl

waiting_list : waiting.msg_list ≡ 1 ∷ []
unfolding add_message_data take_resource get construct new_pb_message_handle block_pointers
    get_msg_struct
waiting_list = refl

take_message_lem_example :
    (t : PbMessageHandle) × (take_message waiting ≡ some (1, t))
    × (content waiting ≡ waiting.messages 1 ∷ content t)
    × IsQueue (finish_message 1 t no_users).0
    × (content (finish_message 1 t no_users).0 ≡ content t)
    × ((finish_message 1 t no_users).1
        ≡ dispatch (waiting.messages 1) waiting.map_msg_handle no_users)
    × GivesBack 1 waiting.rsc_message (finish_message 1 t no_users).0.rsc_message
take_message_lem_example =
    take_message_lem 1 [] waiting no_users waiting-IsQueue waiting_start waiting_list

abbrev pub serialize : Serializer
serialize result msg = result ∷ msg

register_handlers-dispatch_example :
    let handlers = (register_handlers serialize running).map_msg_handle in
    (dispatch
        (incoming 100 login_rq_type (get_msg_struct parser login_rq_type (42 ∷ [])))
        handlers
        no_users
      ≡ (
        (handle_login_rq 100 (request 42) no_users).0,
        if (handle_login_rq 100 (request 42) no_users).1 then login_reply serialize ∷ [] else [],
      ))
    × (dispatch
          (incoming 100 heartbeat_nt_type (get_msg_struct parser heartbeat_nt_type (43 ∷ [])))
          handlers
          no_users
        ≡ (handle_heartbeat_nt 100 no_users, []))
register_handlers-dispatch_example =
    register_handlers-dispatch parser serialize 100 43 (42 ∷ []) (43 ∷ []) (request 42) running
      no_users refl refl
