-- ===== src/Tests/Users.antt =====
-- Examples for the users of the server.
use my_communication.Prelude.{◌+◌, ◌≡◌, refl, [], ◌∷◌, none, some, leb, if◌then◌else◌, count, arith}
use my_communication.Prelude.Assoc.{lookup, insert}
use my_communication.Resource.{construct, block_pointers, get}
use my_communication.Users.{
  UserInfo, UserInfoManage, LoginRq, new_user_info_manage, take_user, add_user, delete_user,
  get_offline_user_list, get_client_user_info, get_user_key_by_id, add_user_id_user_key_map,
  handle_login_rq, handle_heartbeat_nt,
}
use my_communication.Users.Tables.{IsUserTable}
use my_communication.Users.Heartbeat.{beats, silent_user}
use my_communication.Users.Ids.{delete_user-duplicate}
use my_communication.Users.Steps.{adds, logs_in, Reach, here, next, Reach-IsUserTable}

abbrev blank : UserInfo
blank = record {
  user_key = 0;
  user_id = 0;
  login_name = [];
  password = [];
  name = [];
  sex = [];
  age = 0;
  heart_count = 0;
}

abbrev empty : UserInfoManage
empty = new_user_info_manage (λ _. blank)

abbrev a_request : LoginRq
a_request = record { user_id = 42; user_name = 109 ∷ []; password = 1 ∷ [] }

-- Two connections, the keys 100 and 101, that both log in under the id 42.
abbrev one : UserInfoManage
one = add_user 100 empty

abbrev two : UserInfoManage
two = add_user 101 one

abbrev both : UserInfoManage
both = (handle_login_rq 101 a_request (handle_login_rq 100 a_request two).0).0

Reach-one : Reach empty one
Reach-one = next here (adds 100)

Reach-two : Reach empty two
Reach-two = next Reach-one (adds 101)

Reach-both : Reach empty both
Reach-both = next (next Reach-two (logs_in 100 a_request)) (logs_in 101 a_request)

Reach-IsUserTable_example : IsUserTable both
Reach-IsUserTable_example = Reach-IsUserTable (λ _. blank) both Reach-both

one-IsUserTable : IsUserTable one
one-IsUserTable = Reach-IsUserTable (λ _. blank) one Reach-one

two-IsUserTable : IsUserTable two
two-IsUserTable = Reach-IsUserTable (λ _. blank) two Reach-two

both-IsUserTable : IsUserTable both
both-IsUserTable = Reach-IsUserTable (λ _. blank) both Reach-both

one_second : lookup 101 one.map_user_list ≡ none
unfolding add_user take_user get construct new_user_info_manage lookup insert block_pointers
one_second = refl

two_first : lookup 100 two.map_user_list ≡ some 1
unfolding add_user take_user get construct new_user_info_manage lookup insert block_pointers
two_first = refl

silent_user_example :
    count 100 (get_offline_user_list (beats 11 (handle_heartbeat_nt 100 two))).1
    ≡ (if leb 12 (11 + 1) then 1 else 0)
silent_user_example = silent_user 11 100 1 two two-IsUserTable two_first (omega arith)

both_first : lookup 100 both.map_user_list ≡ some 1
unfolding add_user take_user get construct new_user_info_manage lookup insert block_pointers
    handle_login_rq get_client_user_info add_user_id_user_key_map
both_first = refl

both_second : lookup 101 both.map_user_list ≡ some 2
unfolding add_user take_user get construct new_user_info_manage lookup insert block_pointers
    handle_login_rq get_client_user_info add_user_id_user_key_map
both_second = refl

both_named : (both.users 2).user_id ≡ 42
unfolding add_user take_user get construct new_user_info_manage lookup insert block_pointers
    handle_login_rq get_client_user_info add_user_id_user_key_map
both_named = refl

both_leads : get_user_key_by_id 42 both ≡ 100
unfolding add_user take_user get construct new_user_info_manage lookup insert block_pointers
    handle_login_rq get_client_user_info add_user_id_user_key_map get_user_key_by_id
both_leads = refl

delete_user-duplicate_example :
    (get_user_key_by_id 42 (delete_user 101 both) ≡ 0)
    × (get_client_user_info 100 (delete_user 101 both) ≡ 1)
delete_user-duplicate_example =
    delete_user-duplicate 42 100 101 1 2 both both-IsUserTable (omega arith) both_first both_second
      both_named both_leads
