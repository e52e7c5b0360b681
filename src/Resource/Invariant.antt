-- ===== src/Resource/Invariant.antt =====
-- The invariant of the pool of ResourceManage.h.
use my_communication.Prelude.{
  ℕ, zero, suc, ◌+◌, ◌*◌, ◌≤◌, ◌≡◌, ◌≢◌, refl, ap, true, ◌&&◌, List, [], ◌∷◌, ◌++◌, none, some,
  arith, ltb, leb, if◌then◌else◌, length, length-append, count, count-append, ==_refl,
}
use my_communication.Prelude.Assoc.{
  Assoc, lookup, insert, erase, keys, values, lookup-insert, lookup-erase, count-keys-insert,
  count-keys-erase, count-keys_pos, lookup-none, length-keys-insert, length-erase,
}
use my_communication.Resource.{
  ResourceManage, block_pointers, add_block, construct, reset, take_front, grow, put,
}

-- In how many of the blocks an address lies.
abbrev pub covers : ℕ → List ℕ → ℕ → ℕ
covers unit [] a = 0
covers unit (b ∷ bs) a = (if leb b a && ltb a (b + unit) then 1 else 0) + covers unit bs a

pub record IsValid (s : ResourceManage) : Type 0 where
  pub owned :
      (a : ℕ)
      → count a s.unused_list + count a (keys s.using_list)
        ≡ covers s.count_per_unit s.resource_block_ptr a
  pub own_value : (a v : ℕ) → lookup a s.using_list ≡ some v → v ≡ a
  pub disjoint : (a : ℕ) → covers s.count_per_unit s.resource_block_ptr a ≤ 1
  pub fresh : (a : ℕ) → s.heap_next ≤ a → covers s.count_per_unit s.resource_block_ptr a ≡ 0
  pub no_null : covers s.count_per_unit s.resource_block_ptr 0 ≡ 0
  pub heap_pos : 1 ≤ s.heap_next
  pub unit_pos : 1 ≤ s.count_per_unit
  pub total : s.count_all ≡ length s.resource_block_ptr * s.count_per_unit
  pub sizes : length s.unused_list + length s.using_list ≡ s.count_all

-- A pointer that the pool has handed out and not got back.
abbrev pub IsLive : ResourceManage → ℕ → Type 0
IsLive s p = lookup p s.using_list ≡ some p

count-block_pointers :
    (a b n : ℕ) → count a (block_pointers b n) ≡ (if leb b a && ltb a (b + n) then 1 else 0)
unfolding block_pointers
count-block_pointers a b zero = ground arith
count-block_pointers a b (suc n) = ground (arith, count-block_pointers a (suc b) n)

pub length-block_pointers : (b n : ℕ) → length (block_pointers b n) ≡ n
unfolding block_pointers
length-block_pointers b zero = refl
length-block_pointers b (suc n) = ap suc (length-block_pointers (suc b) n)

covers-append :
    (unit : ℕ) (bs cs : List ℕ) (a : ℕ)
    → covers unit (bs ++ cs) a ≡ covers unit bs a + covers unit cs a
covers-append unit [] cs a = omega arith
covers-append unit (b ∷ bs) cs a = omega (arith, covers-append unit bs cs a)

pub grow-IsValid : (s : ResourceManage) → IsValid s → IsValid (grow s)
unfolding grow
grow-IsValid s v = record {
  owned = λ a. rw (count-append, covers-append, count-block_pointers) (omega (arith, v.owned a));
  own_value = v.own_value;
  disjoint = λ a. rw covers-append (ground (arith, v.disjoint a, v.fresh a));
  fresh = λ a h. rw covers-append (ground (arith, v.fresh a));
  no_null = rw covers-append (ground (arith, v.no_null, v.heap_pos));
  heap_pos = omega (arith, v.heap_pos);
  unit_pos = v.unit_pos;
  total = rw length-append (grind (arith, v.total));
  sizes = rw (length-append, length-block_pointers) (omega (arith, v.sizes));
}

pub construct-IsValid :
    (heap init_count : ℕ) → 1 ≤ heap → 1 ≤ init_count → IsValid (construct heap init_count)
unfolding construct lookup
construct-IsValid heap init_count h n = record {
  owned = λ a. ground (arith, count-block_pointers a heap init_count);
  own_value = λ a v e. ground arith;
  disjoint = λ a. ground arith;
  fresh = λ a b. ground arith;
  no_null = ground arith;
  heap_pos = ground arith;
  unit_pos = ground arith;
  total = ground arith;
  sizes = ground (arith, length-block_pointers heap init_count);
}

-- What `get` gives where no `nullptr` is returned.
pub record Handed (s : ResourceManage) (p : ℕ) (t : ResourceManage) : Type 0 where
  pub valid : IsValid t
  pub was_free : lookup p s.using_list ≡ none
  pub live : IsLive t p
  pub nonnull : p ≢ 0
  pub others : (q : ℕ) → q ≢ p → lookup q t.using_list ≡ lookup q s.using_list

pub take_front-Handed :
    (s : ResourceManage) (p : ℕ) (rest : List ℕ)
    → IsValid s
    → s.unused_list ≡ p ∷ rest
    → (t : ResourceManage) × (take_front s.unused_list s ≡ some (p, t)) × Handed s p t
unfolding take_front
take_front-Handed s p rest v e =
    let free : count p (keys s.using_list) ≡ 0 = ground (arith, v.owned p, v.disjoint p) in
    let unused : lookup p s.using_list ≡ none = lookup-none p s.using_list free in
    (
      record s { unused_list = rest; using_list = insert p p s.using_list },
      rw (e, take_front),
      record {
        valid = record {
          owned = λ a. ground (arith, v.owned a, count-keys-insert p a p s.using_list);
          own_value = λ a w h. ground (arith, v.own_value a w, lookup-insert p a p s.using_list);
          disjoint = v.disjoint;
          fresh = v.fresh;
          no_null = v.no_null;
          heap_pos = v.heap_pos;
          unit_pos = v.unit_pos;
          total = v.total;
          sizes = ground (arith, v.sizes, length-keys-insert p p s.using_list);
        };
        was_free = unused;
        live = ground (arith, lookup-insert p p p s.using_list);
        nonnull = λ z. ground (arith, v.owned p, v.no_null);
        others = λ q h. ground (arith, lookup-insert p q p s.using_list);
      },
    )

-- The pool after `put` takes a live pointer back: it waits at the end of the unused list.
abbrev pub returned : ℕ → ResourceManage → ResourceManage
returned p s = record s { using_list = erase p s.using_list; unused_list = s.unused_list ++ p ∷ [] }

pub live-nonnull : (s : ResourceManage) (p : ℕ) → IsValid s → IsLive s p → p ≢ 0
live-nonnull s p v live z =
    let held = count-keys_pos p p s.using_list live in ground (arith, v.owned p, v.no_null, held)

pub put-live :
    (s : ResourceManage) (p : ℕ) → IsValid s → IsLive s p → put p s ≡ (returned p s, true)
unfolding put
put-live s p v live = let nonnull = live-nonnull s p v live in ground arith

pub returned-IsValid :
    (s : ResourceManage) (p : ℕ) → IsValid s → IsLive s p → IsValid (returned p s)
returned-IsValid s p v live =
    let held = count-keys_pos p p s.using_list live in
    let one : count p (keys s.using_list) ≡ 1 = omega (arith, held, v.owned p, v.disjoint p) in
    record {
      owned = λ a. rw count-append (
          ground
            (arith, v.owned a, v.owned p, v.disjoint p, one, count-keys-erase p a s.using_list));
      own_value = λ a w h. ground (arith, v.own_value a w, lookup-erase p a s.using_list);
      disjoint = v.disjoint;
      fresh = v.fresh;
      no_null = v.no_null;
      heap_pos = v.heap_pos;
      unit_pos = v.unit_pos;
      total = v.total;
      sizes = rw length-append (omega (arith, v.sizes, length-erase p s.using_list one));
    }

pub count-values :
    (a : ℕ) (m : Assoc ℕ)
    → ((k : ℕ) (w : ℕ) → lookup k m ≡ some w → w ≡ k)
    → ((k : ℕ) → count k (keys m) ≤ 1)
    → count a (values m) ≡ count a (keys m)
unfolding lookup
count-values a [] own once = refl
count-values a ((k, w) ∷ m) own once =
    let same : w ≡ k = own k w (ground (arith, ==_refl k)) in
    let rest =
      count-values a m (λ j x h. own j x (ground (arith, once j, count-keys_pos j x m h, h)))
        (λ j. omega (arith, once j)) in
    ground (arith, rest)

pub length-values : (m : Assoc ℕ) → length (values m) ≡ length m
length-values [] = refl
length-values ((k, w) ∷ m) = ap suc (length-values m)

pub reset-IsValid : (s : ResourceManage) → IsValid s → IsValid (reset s)
unfolding reset lookup
reset-IsValid s v = record {
  owned = λ a. rw count-append (
      omega (
        arith,
        v.owned a,
        count-values a s.using_list v.own_value (λ k. omega (arith, v.owned k, v.disjoint k)),
      ));
  own_value = λ a w h. absurd (ground arith);
  disjoint = v.disjoint;
  fresh = v.fresh;
  no_null = v.no_null;
  heap_pos = v.heap_pos;
  unit_pos = v.unit_pos;
  total = v.total;
  sizes = rw length-append (omega (arith, v.sizes, length-values s.using_list));
}

-- Emptied and given a unit, the pool is ready for its first block.
pub add_block-IsValid :
    (s : ResourceManage)
    → s.using_list ≡ []
    → s.unused_list ≡ []
    → s.resource_block_ptr ≡ []
    → 1 ≤ s.heap_next
    → 1 ≤ s.count_per_unit
    → s.count_all ≡ s.count_per_unit
    → IsValid (add_block s)
unfolding add_block lookup
add_block-IsValid s no_using no_unused no_block h n all = record {
  owned = λ a. ground (arith, count-block_pointers a s.heap_next s.count_per_unit);
  own_value = λ a v e. ground arith;
  disjoint = λ a. ground arith;
  fresh = λ a b. ground arith;
  no_null = ground arith;
  heap_pos = ground arith;
  unit_pos = ground arith;
  total = ground arith;
  sizes = ground (arith, length-block_pointers s.heap_next s.count_per_unit);
}
