-- ===== src/Client/Answers.antt =====
-- About the reply to a login, from `SerializeAsPbMsg` of the server's TypeDefine.cpp to `OnLoginRs` of
-- the client's MainModel.cpp.
use my_communication.Prelude.{ℕ, ◌≡◌, refl, true, false, some, ◌==◌, if◌then◌else◌, arith, ==_refl}
use my_communication.Replies.{Serializer, RespondMsg, serialize_login_rs}
use my_communication.Client.{
  Codec, Client, get_msg_struct, on_login_rs, on_message, on_tcp_disconnect,
}

-- What the server sends in answer to a login makes the client count it as logged in there until the
-- connection is lost, whatever result the server has put into its reply, provided that protobuf reads
-- what it has written.
pub login_reply-accepted :
    (serialize : Serializer) (codec : Codec) (key : ℕ) (m : RespondMsg) (c : Client)
    → codec.parse_respond (serialize 0 m.msg) ≡ some (0, m.msg)
    → let after = on_message codec key (serialize_login_rs serialize m) c in
      (after.srv_user key ≡ true)
      × ((on_tcp_disconnect key after).srv_user key ≡ false)
      × ((j : ℕ)
          → (on_tcp_disconnect key after).srv_user j ≡ (if key == j then false else c.srv_user j))
unfolding on_message get_msg_struct on_login_rs on_tcp_disconnect
login_reply-accepted serialize codec key m c reads =
    rw reads (rw (==_refl key) refl, rw (==_refl key) refl, λ j. ground arith)
