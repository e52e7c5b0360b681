-- ===== src/Users.antt =====
-- ServerFramework/Model/ModelManage/UserInfoManage.cpp, `SUserInfo` of CommonFile/TypeDefine.cpp, and
-- the handlers of Controller/ControllerManage/MainController.cpp: the users that the server knows,
-- by connection key and by user id, and how long each has been silent.
-- A user record lies at an address of the pool `m_rscUser`. Each operation holds its locks over the
-- part that reads and writes the maps, and is one step here.
pub mod Tables
pub mod Heartbeat
pub mod Ids
pub mod Steps
use my_communication.Prelude.{
  ℕ, ◌+◌, ◌%◌, ◌^◌, Bool, true, false, List, [], ◌∷◌, Option, none, some, leb, ◌==◌, if◌then◌else◌,
}
use my_communication.Prelude.Assoc.{Assoc, lookup, insert, erase}
use my_communication.Resource.{ResourceManage, construct, get, put}

pub record UserInfo : Type 0 where
  pub user_key : ℕ
  pub user_id : ℕ
  pub login_name : List ℕ
  pub password : List ℕ
  pub name : List ℕ
  pub sex : List ℕ
  pub age : ℕ
  pub heart_count : ℕ

-- `SUserInfo::Reset`, which leaves the login name as it is.
abbrev pub reset_user_info : UserInfo → UserInfo
reset_user_info u = record u {
  user_key = 0;
  user_id = 0;
  password = [];
  name = [];
  sex = [];
  age = 0;
  heart_count = 0;
}

pub record UserInfoManage : Type 0 where
  pub rsc_user : ResourceManage
  pub users : ℕ → UserInfo
  pub map_id_key : Assoc ℕ
  pub map_user_list : Assoc ℕ

abbrev pub user_resource_count : ℕ
user_resource_count = 100

unfoldable pub new_user_info_manage : (ℕ → UserInfo) → UserInfoManage
new_user_info_manage users = record {
  rsc_user = construct 1 user_resource_count;
  users = users;
  map_id_key = [];
  map_user_list = [];
}

abbrev pub update_user : ℕ → UserInfo → (ℕ → UserInfo) → ℕ → UserInfo
update_user p u users q = if p == q then u else users q

-- `m_rscUser.get()`, with memory never short. The first case does not arise: the pool has a
-- positive unit.
unfoldable pub take_user : UserInfoManage → ℕ × UserInfoManage
take_user s = elim (get true s.rsc_user) [
  | none ↦ (0, s)
  | some (p, t) ↦ (p, record s { rsc_user = t })
]

abbrev pub register : ℕ → ℕ → UserInfoManage → UserInfoManage
register key p s = record s {
  users = update_user p (record (reset_user_info (s.users p)) { user_key = key }) s.users;
  map_user_list = insert key p s.map_user_list;
}

unfoldable pub add_user : ℕ → UserInfoManage → UserInfoManage
add_user key s = elim (lookup key s.map_user_list) [
  | none ↦ register key (take_user s).0 (take_user s).1
  | some p ↦ if p == 0 then register key (take_user s).0 (take_user s).1 else s
]

unfoldable pub delete_user : ℕ → UserInfoManage → UserInfoManage
delete_user key s = elim (lookup key s.map_user_list) [
  | none ↦ s
  | some p ↦
      let s₁ = record s { map_user_list = erase key s.map_user_list } in
      if p == 0 then s₁ else record s₁ {
        map_id_key = erase (s.users p).user_id s.map_id_key;
        rsc_user = (put p s.rsc_user).0;
      }
]

-- What a map holds at a key, and 0 (`nullptr`) if it holds nothing.
abbrev pub or_zero : Option ℕ → ℕ
or_zero none = 0
or_zero (some v) = v

unfoldable pub get_client_user_info : ℕ → UserInfoManage → ℕ
get_client_user_info key s = or_zero (lookup key s.map_user_list)

unfoldable pub get_user_key_by_id : ℕ → UserInfoManage → ℕ
get_user_key_by_id id s = or_zero (lookup id s.map_id_key)

unfoldable pub get_client_user_info_by_id : ℕ → UserInfoManage → ℕ
get_client_user_info_by_id id s =
    let key = or_zero (lookup id s.map_id_key) in
    if key == 0 then 0 else or_zero (lookup key s.map_user_list)

unfoldable pub add_user_id_user_key_map : ℕ → ℕ → UserInfoManage → UserInfoManage
add_user_id_user_key_map id key s =
    if or_zero (lookup id s.map_id_key) == 0
    then record s { map_id_key = insert id key s.map_id_key }
    else s

abbrev pub clear_heart_count : ℕ → UserInfoManage → UserInfoManage
clear_heart_count p s = record s {
  users = update_user p (record (s.users p) { heart_count = 0 }) s.users;
}

unfoldable pub clear_user_heartbeat_count : ℕ → UserInfoManage → UserInfoManage
clear_user_heartbeat_count key s = elim (lookup key s.map_user_list) [
  | none ↦ s
  | some p ↦ clear_heart_count p s
]

-- `++pInfo->uHeartCount`, an unsigned.
abbrev pub beat : UserInfo → UserInfo
beat u = record u { heart_count = (u.heart_count + 1) % 2 ^ 32 }

-- The loop of `GetOfflineUserList` over the map: the records after it, and the keys it lists.
unfoldable pub count_beats : Assoc ℕ → (ℕ → UserInfo) → (ℕ → UserInfo) × List ℕ
count_beats [] users = (users, [])
count_beats ((_, p) ∷ m) users =
    let u = beat (users p) in
    let (after, list) = count_beats m (update_user p u users) in
    (after, if leb 12 u.heart_count then u.user_key ∷ list else list)

unfoldable pub get_offline_user_list : UserInfoManage → UserInfoManage × List ℕ
get_offline_user_list s =
    let (after, list) = count_beats s.map_user_list s.users in (record s { users = after }, list)

pub record LoginRq : Type 0 where
  pub user_id : ℕ
  pub user_name : List ℕ
  pub password : List ℕ

-- The user record after `HandleLoginRq`.
abbrev pub log_in : LoginRq → UserInfo → UserInfo
log_in rq u = record u {
  heart_count = 0;
  user_id = rq.user_id;
  login_name = rq.user_name;
  password = rq.password;
}

-- `HandleLoginRq`; the flag tells whether the reply is sent.
unfoldable pub handle_login_rq : ℕ → LoginRq → UserInfoManage → UserInfoManage × Bool
handle_login_rq key rq s =
    let p = get_client_user_info key s in
    if p == 0 then (s, false) else (
      add_user_id_user_key_map rq.user_id key
          (record s { users = update_user p (log_in rq (s.users p)) s.users }),
      true,
    )

unfoldable pub handle_heartbeat_nt : ℕ → UserInfoManage → UserInfoManage
handle_heartbeat_nt key s =
    let p = get_client_user_info key s in if p == 0 then s else clear_heart_count p s
