-- ===== src/Resource/Misuse.antt =====
-- About single operations of ResourceManage.h, and `put` of a pointer that is not in use.
use my_communication.Prelude.{
  ℕ, ◌≤◌, ◌<◌, ◌≡◌, refl, ap, Bool, true, false, [], ◌∷◌, ◌++◌, none, some, arith, length,
  length-append, count, count-append,
}
use my_communication.Prelude.Assoc.{lookup, insert, lookup-erase, count-values-insert}
use my_communication.Resource.{
  ResourceManage, block_pointers, construct, reset, get, put, available, unused_size, max_size,
}
use my_communication.Resource.Invariant.{
  IsValid, IsLive, put-live, returned, count-values, length-values,
}

put-foreign :
    (s : ResourceManage) (p : ℕ)
    → lookup p s.using_list ≡ none
    → put p s ≡ (record s { using_list = insert p 0 s.using_list }, false)
unfolding put
put-foreign s p h = ground arith

-- A pointer goes back once: the first `put` reports success, adds it at the end of the unused list
-- and takes it out of use; a second one reports failure.
pub put_once :
    (s : ResourceManage) (p : ℕ)
    → IsValid s
    → IsLive s p
    → let t = (put p s).0 in
      ((put p s).1 ≡ true)
      × (t.unused_list ≡ s.unused_list ++ p ∷ [])
      × (lookup p t.using_list ≡ none)
      × ((put p t).1 ≡ false)
put_once s p v live = rw (put-live s p v live) (refl, refl, gone, twice)
  where
    gone : lookup p (returned p s).using_list ≡ none
    gone = ground (arith, lookup-erase p p s.using_list)

    twice : (put p (returned p s)).1 ≡ false
    twice = ap (λ r. r.1) (put-foreign (returned p s) p gone)

-- A `put` of a pointer that is not in use reports failure, but leaves a null entry in the table,
-- so that the next `reset` puts `nullptr` among the pointers to hand out.
pub put_foreign-reset :
    (s : ResourceManage) (p : ℕ)
    → IsValid s
    → lookup p s.using_list ≡ none
    → ((put p s).1 ≡ false) × (count 0 (reset (put p s).0).unused_list ≡ 1)
unfolding reset
put_foreign-reset s p v h =
    rw (put-foreign s p h, count-append)
      (
        refl,
        omega (
          arith,
          count-values-insert p 0 0 s.using_list h,
          v.owned 0,
          v.no_null,
          count-values 0 s.using_list v.own_value (λ k. omega (arith, v.owned k, v.disjoint k)),
        ),
      )

-- Under a limit a pool within its number of blocks stays within it.
pub get-limit :
    (alloc : Bool) (s : ResourceManage) (p : ℕ) (t : ResourceManage)
    → s.is_limited ≡ true
    → length s.resource_block_ptr ≤ s.count_times
    → get alloc s ≡ some (p, t)
    → length t.resource_block_ptr ≤ t.count_times
unfolding get
get-limit alloc s p t lim h e =
    ground (arith, length-append s.resource_block_ptr (s.heap_next ∷ []))

-- `reset` makes every resource unused again, and the sizes it reports agree.
pub reset_all :
    (s : ResourceManage)
    → IsValid s
    → (unused_size (reset s) ≡ max_size s)
      × (max_size (reset s) ≡ max_size s)
      × ((reset s).using_list ≡ [])
unfolding reset unused_size max_size
reset_all s v = (rw length-append (omega (arith, v.sizes, length-values s.using_list)), refl, refl)

-- A valid pool is available as soon as it has a block.
pub available_lem :
    (s : ResourceManage) → IsValid s → 0 < length s.resource_block_ptr → available s ≡ true
unfolding available
available_lem s v h =
    let pos : 0 < s.count_all = grind (arith, v.total, v.unit_pos) in ground (arith, v.total)

-- A pool that was constructed without resources reads the front of an empty list at its first `get`.
pub construct_zero-get : (heap : ℕ) → get true (construct heap 0) ≡ none
unfolding construct get block_pointers
construct_zero-get heap = refl
