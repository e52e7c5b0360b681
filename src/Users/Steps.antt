-- ===== src/Users/Steps.antt =====
-- The operations on the users of UserInfoManage.cpp and MainController.cpp as steps.
use my_communication.Prelude.{ℕ}
use my_communication.Users.{
  UserInfo, UserInfoManage, LoginRq, new_user_info_manage, add_user, delete_user,
  get_offline_user_list, handle_login_rq, handle_heartbeat_nt,
}
use my_communication.Users.Tables.{
  IsUserTable, new_user_info_manage-IsUserTable, add_user-IsUserTable, delete_user-IsUserTable,
  handle_login_rq-IsUserTable, handle_heartbeat_nt-IsUserTable,
}
use my_communication.Users.Heartbeat.{get_offline_user_list-IsUserTable}

pub data Step (s : UserInfoManage) : UserInfoManage → Type 0 where
  adds : (key : ℕ) → Step s (add_user key s)
  deletes : (key : ℕ) → Step s (delete_user key s)
  logs_in : (key : ℕ) (rq : LoginRq) → Step s (handle_login_rq key rq s).0
  hears : (key : ℕ) → Step s (handle_heartbeat_nt key s)
  beats : Step s (get_offline_user_list s).0

pub data Reach (start : UserInfoManage) : UserInfoManage → Type 0 where
  here : Reach start start
  next : {s t : UserInfoManage} → Reach start s → Step s t → Reach start t

Step-IsUserTable : {s t : UserInfoManage} → Step s t → IsUserTable s → IsUserTable t
Step-IsUserTable {s} (adds key) sound = add_user-IsUserTable key s sound
Step-IsUserTable {s} (deletes key) sound = delete_user-IsUserTable key s sound
Step-IsUserTable {s} (logs_in key rq) sound = handle_login_rq-IsUserTable key rq s sound
Step-IsUserTable {s} (hears key) sound = handle_heartbeat_nt-IsUserTable key s sound
Step-IsUserTable {s} beats sound = get_offline_user_list-IsUserTable s sound

-- After any sequence of new connections, closed connections, logins, heartbeats and beats, from the
-- empty table: the pool is valid, each key stands once in the table, with a record that is in use
-- and carries the key.
pub Reach-IsUserTable :
    (users : ℕ → UserInfo) (s : UserInfoManage)
    → Reach (new_user_info_manage users) s
    → IsUserTable s
Reach-IsUserTable users _ here = new_user_info_manage-IsUserTable users
Reach-IsUserTable users _ (next r st) = Step-IsUserTable st (Reach-IsUserTable users _ r)
