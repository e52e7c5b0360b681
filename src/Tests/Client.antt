-- ===== src/Tests/Client.antt =====
-- Examples for the client.
use my_communication.Prelude.{
  ℕ, ◌≡◌, refl, true, false, List, [], ◌∷◌, Option, none, some, ◌==◌, if◌then◌else◌,
}
use my_communication.Replies.{RespondMsg, serialize_login_rs}
use my_communication.Users.{LoginRq}
use my_communication.ServerConnect.{ServerConnect}
use my_communication.Client.{
  ClientConfig, Codec, Client, connect_tcp_server, est_cmd_server, digits, to_string, login_request,
  on_message, on_tcp_disconnect,
}
use my_communication.Client.Connecting.{Connects, connect_tcp_server_lem}
use my_communication.Client.Answers.{login_reply-accepted}
use my_communication.Tests.Iocp.{start, start-IsIntact}
use my_communication.Tests.Messages.{serialize}

abbrev nobody : ServerConnect
nobody = record { map_srv_info = []; client = start }

abbrev cfg : ClientConfig
cfg = record {
  server_ip = 49 ∷ [];
  server_port = 6666;
  iocp_thread_count = 4;
  message_thread_count = 4;
  heartbeat_time = 6000;
}

connect_tcp_server_lem_example :
    Connects 59999 est_cmd_server (49 ∷ []) 6666 nobody (connect_tcp_server cfg nobody)
connect_tcp_server_lem_example = connect_tcp_server_lem cfg nobody start-IsIntact

-- The user name that goes to the server 205.
name_with_number : (login_request (109 ∷ []) [] 205).user_name ≡ 109 ∷ 50 ∷ 48 ∷ 53 ∷ []
unfolding login_request to_string digits
name_with_number = refl

-- A codec for the serializer of the other examples.
abbrev read_respond : List ℕ → Option (ℕ × List ℕ)
read_respond [] = none
read_respond (result ∷ msg) = some (result, msg)

abbrev codec : Codec
codec = record { serialize_login_rq = λ (rq : LoginRq). rq.user_name; parse_respond = read_respond }

abbrev client : Client
client = record { connect = nobody; srv_user = λ _. false; user_name = 109 ∷ []; password = [] }

-- A reply that is meant to report an error.
abbrev refusal : RespondMsg
refusal = record { rs_msg_type = 0; result = 5; msg = 110 ∷ 111 ∷ [] }

login_reply-accepted_example :
    let after = on_message codec 1 (serialize_login_rs serialize refusal) client in
    (after.srv_user 1 ≡ true)
    × ((on_tcp_disconnect 1 after).srv_user 1 ≡ false)
    × ((j : ℕ)
        → (on_tcp_disconnect 1 after).srv_user j ≡ (if 1 == j then false else client.srv_user j))
login_reply-accepted_example = login_reply-accepted serialize codec 1 refusal client refl
