-- ===== src/Replies.antt =====
-- `SRespondMsg` and `SLoginRs` of ServerFramework/CommonFile/TypeDefine.cpp: what the server answers.
-- How protobuf writes a `RespondMsg` is a parameter.
use my_communication.Prelude.{ℕ, List, [], ◌∷◌}

pub record PbMsg : Type 0 where
  pub msg_type : ℕ
  pub msg : List ℕ

abbrev pub pack_pb_msg : ℕ → List ℕ → PbMsg
pack_pb_msg msg_type msg = record { msg_type = msg_type; msg = msg }

pub record RespondMsg : Type 0 where
  pub rs_msg_type : ℕ
  pub result : ℕ
  pub msg : List ℕ

-- `SerializeAsString` of a `RespondMsg` with this result and this text.
abbrev pub Serializer : Type 0
Serializer = ℕ → List ℕ → List ℕ

-- `SRespondMsg::SerializeAsPbMsg` writes the result 0, whatever `uResult` is.
abbrev pub serialize_respond : Serializer → RespondMsg → PbMsg
serialize_respond serialize m = pack_pb_msg m.rs_msg_type (serialize 0 m.msg)

abbrev pub login_rs_type : ℕ
login_rs_type = 10002

abbrev pub serialize_login_rs : Serializer → RespondMsg → PbMsg
serialize_login_rs serialize m =
    serialize_respond serialize (record m { rs_msg_type = login_rs_type })

-- The text of the reply to a login, as the source file has it.
abbrev pub login_succeeded : List ℕ
login_succeeded =
    211 ∷ 195 ∷ 187 ∷ 167 ∷ 181 ∷ 199 ∷ 194 ∷ 188 ∷ 179 ∷ 201 ∷ 185 ∷ 166 ∷ 161 ∷ 163 ∷ []

abbrev pub login_reply : Serializer → PbMsg
login_reply serialize =
    serialize_login_rs serialize (record { rs_msg_type = 0; result = 0; msg = login_succeeded })
