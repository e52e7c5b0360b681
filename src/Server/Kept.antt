-- ===== src/Server/Kept.antt =====
-- About the handlers of MainController.cpp that the message threads call: what they do with the table
-- of users.
use my_communication.Prelude.{
  ℕ, ◌≡◌, refl, sym, ap, subst, ◌∙◌, inl, inr, Bool, true, not, Option, none, some, ◌==◌,
  if◌then◌else◌, Bool-cases,
}
use my_communication.Prelude.Assoc.{Assoc, lookup, insert, lookup-insert}
use my_communication.Replies.{Serializer}
use my_communication.Users.{
  UserInfoManage, LoginRq, get_client_user_info, handle_login_rq, handle_heartbeat_nt, update_user,
  log_in,
}
use my_communication.Users.Tables.{
  IsUserTable, handle_login_rq-IsUserTable, handle_heartbeat_nt-IsUserTable,
}
use my_communication.Users.Ids.{mapped}
use my_communication.Messages.{
  DataExchange, heart_beat_nt, login_rq, Handler, PbMessageHandle, on_login, on_heartbeat,
  register_message_function, register_handlers,
}
use my_communication.Messages.Queue.{IsQueue}
use my_communication.Server.{Site}

-- A user is known if his key leads to a record.
abbrev pub known : UserInfoManage → ℕ → Bool
known users key = not (get_client_user_info key users == 0)

-- Handling a message keeps the table.
abbrev pub KeepsTable : Handler → Type 0
KeepsTable handle =
    (key : ℕ) (d : Option DataExchange) (users : UserInfoManage)
    → IsUserTable users
    → IsUserTable (handle key d users).0
      × ((handle key d users).0.map_user_list ≡ users.map_user_list)

abbrev pub AllKeep : Assoc Handler → Type 0
AllKeep handlers =
    (msg_type : ℕ) (handle : Handler) → lookup msg_type handlers ≡ some handle → KeepsTable handle

pub record IsSite (s : Site) : Type 0 where
  pub linked : s.linked ≡ true
  pub table : IsUserTable s.users
  pub queue : IsQueue s.messages
  pub handlers : AllKeep s.messages.map_msg_handle

handle_login_rq-list :
    (key : ℕ) (rq : LoginRq) (s : UserInfoManage)
    → (handle_login_rq key rq s).0.map_user_list ≡ s.map_user_list
unfolding handle_login_rq
handle_login_rq-list key rq s = elim (Bool-cases (get_client_user_info key s == 0)) [
  | inl e ↦ rw e refl
  | inr e ↦
      let p = get_client_user_info key s in
      rw e
        (mapped rq.user_id key
          (record s { users = update_user p (log_in rq (s.users p)) s.users })).1
]

handle_heartbeat_nt-list :
    (key : ℕ) (s : UserInfoManage) → (handle_heartbeat_nt key s).map_user_list ≡ s.map_user_list
unfolding handle_heartbeat_nt
handle_heartbeat_nt-list key s = elim (Bool-cases (get_client_user_info key s == 0)) [
  | inl e ↦ rw e refl
  | inr e ↦ rw e refl
]

on_login-KeepsTable : (serialize : Serializer) → KeepsTable (on_login serialize)
on_login-KeepsTable serialize key none users sound = (sound, refl)
on_login-KeepsTable serialize key (some (heart_beat_nt id)) users sound = (sound, refl)
on_login-KeepsTable serialize key (some (login_rq rq)) users sound =
    (handle_login_rq-IsUserTable key rq users sound, handle_login_rq-list key rq users)

on_heartbeat-KeepsTable : KeepsTable on_heartbeat
on_heartbeat-KeepsTable key d users sound =
    (handle_heartbeat_nt-IsUserTable key users sound, handle_heartbeat_nt-list key users)

AllKeep-insert :
    (new : ℕ) (handle : Handler) (handlers : Assoc Handler)
    → AllKeep handlers
    → KeepsTable handle
    → AllKeep (insert new handle handlers)
AllKeep-insert new handle handlers old keeps msg_type found e =
    let there = sym (lookup-insert new msg_type handle handlers) ∙ e in
    elim (Bool-cases (new == msg_type)) [
      | inl same ↦
          let given : some handle ≡ some found =
            sym (ap (λ (b : Bool). if b then some handle else lookup msg_type handlers) same)
            ∙ there in
          let equal : handle ≡ found = cc in subst KeepsTable equal keeps
      | inr other ↦ old msg_type found (
          sym (ap (λ (b : Bool). if b then some handle else lookup msg_type handlers) other)
          ∙ there)
    ]

pub register_handlers-AllKeep :
    (serialize : Serializer) (s : PbMessageHandle)
    → AllKeep s.map_msg_handle
    → AllKeep (register_handlers serialize s).map_msg_handle
unfolding register_handlers register_message_function
register_handlers-AllKeep serialize s old =
    AllKeep-insert _ on_heartbeat _
      (AllKeep-insert _ (on_login serialize) s.map_msg_handle old (on_login-KeepsTable serialize))
      on_heartbeat-KeepsTable
