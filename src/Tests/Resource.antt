-- ===== src/Tests/Resource.antt =====
-- Examples for the resource pool.
use my_communication.Prelude.{
  ◌≤◌, ◌<◌, ◌≡◌, refl, true, false, [], ◌∷◌, none, some, length, count, arith,
}
use my_communication.Prelude.Assoc.{lookup, insert}
use my_communication.Resource.{
  ResourceManage, block_pointers, construct, get, put, reset, reinitialize,
}
use my_communication.Resource.Invariant.{IsValid, IsLive, construct-IsValid}
use my_communication.Resource.Steps.{Gets, get_lem}
use my_communication.Resource.Calls.{Reach, here, next, gets, reinitializes, Counts, Reach-Counts}
use my_communication.Resource.Misuse.{put_foreign-reset}

-- A pool of two resources, at the addresses 5 and 6, and the pool after the first `get`.
abbrev pool : ResourceManage
pool = construct 5 2

pool-IsValid : IsValid pool
pool-IsValid = construct-IsValid 5 2 (omega arith) (omega arith)

abbrev pool_after_get : ResourceManage
pool_after_get = record pool { unused_list = 6 ∷ []; using_list = insert 5 5 pool.using_list }

get_first : get true pool ≡ some (5, pool_after_get)
unfolding get construct block_pointers
get_first = refl

get_lem_example : Gets true pool
get_lem_example = get_lem true pool pool-IsValid

-- Three pointers are asked for without memory, then four with it.
Reach-again : Reach pool false (reinitialize true 4 (reinitialize false 3 pool_after_get).0).0
Reach-again =
    next (next (next here (gets true 5 pool_after_get get_first)) (reinitializes false 2))
      (reinitializes true 3)

Reach-Counts_example : Counts false (reinitialize true 4 (reinitialize false 3 pool_after_get).0).0
Reach-Counts_example = Reach-Counts pool-IsValid Reach-again

pool_after_get-IsLive : IsLive pool_after_get 5
unfolding lookup insert construct
pool_after_get-IsLive = refl

no_user : lookup 6 pool.using_list ≡ none
unfolding lookup construct
no_user = refl

put_foreign-reset_example :
    ((put 6 pool).1 ≡ false) × (count 0 (reset (put 6 pool).0).unused_list ≡ 1)
put_foreign-reset_example = put_foreign-reset pool 6 pool-IsValid no_user

abbrev limited_pool : ResourceManage
limited_pool = record pool_after_get { unused_list = []; is_limited = true; count_times = 1 }

get_limited : get true limited_pool ≡ some (0, limited_pool)
unfolding get construct
get_limited = refl

limited_size : length limited_pool.resource_block_ptr ≤ 1
unfolding construct
limited_size = omega arith

has_block : 0 < length pool.resource_block_ptr
unfolding construct
has_block = omega arith
