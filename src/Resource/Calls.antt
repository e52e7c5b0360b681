-- ===== src/Resource/Calls.antt =====
-- About the operations of ResourceManage.h in any order, with and without memory.
use my_communication.Prelude.{
  ℕ, suc, ◌+◌, ◌≡◌, refl, sym, ap, subst, ◌∙◌, Bool, true, false, not, List, [], ◌∷◌, some, arith,
  length, ltb, Bool-cases, Option, ◌&&◌, leb, inl, inr, ◌==◌,
}
use my_communication.Prelude.Assoc.{lookup, insert}
use my_communication.Resource.{
  ResourceManage, clear, reinitialize, set_limit, reset, get, take_front, grow, put,
}
use my_communication.Resource.Invariant.{IsValid, IsLive, put-live, returned-IsValid, reset-IsValid}
use my_communication.Resource.Steps.{
  List-cases, get-IsValid, set_limit-IsValid, no_block-empty, reinitialize-IsValid,
}

-- One call of the pool in which `put` gets a pointer in use, with or without memory for a block.
-- `failed` says whether memory was missing in the last `reInitialize` of some pointers.
pub data Step (failed : Bool) (s : ResourceManage) : Bool → ResourceManage → Type 0 where
  gets :
      (alloc : Bool) (p : ℕ) (t : ResourceManage)
      → get alloc s ≡ some (p, t)
      → Step failed s failed t
  puts : (p : ℕ) → IsLive s p → Step failed s failed (put p s).0
  resets : Step failed s failed (reset s)
  limits : (is_limit : Bool) (times : ℕ) → Step failed s failed (set_limit is_limit times s)
  refuses : (alloc : Bool) → Step failed s failed (reinitialize alloc 0 s).0
  reinitializes :
      (alloc : Bool) (n : ℕ) → Step failed s (not alloc) (reinitialize alloc (suc n) s).0

pub data Reach (s : ResourceManage) : Bool → ResourceManage → Type 0 where
  here : Reach s false s
  next :
      {failed fails : Bool} {t u : ResourceManage}
      → Reach s failed t
      → Step failed t fails u
      → Reach s fails u

-- A block is counted that is not there.
abbrev pub over : ResourceManage → ResourceManage
over u = record u { count_all = u.count_all + u.count_per_unit }

-- The pool is valid, or would be with a block less in its count.
abbrev pub Counts : Bool → ResourceManage → Type 0
Counts false s = IsValid s
Counts true s = (u : ResourceManage) × IsValid u × (s ≡ over u)

inner : (a b : ℕ × ResourceManage) → some a ≡ some b → a ≡ b
inner a b e = cc

take_front-over :
    (l : List ℕ) (u : ResourceManage) (p : ℕ) (t : ResourceManage)
    → take_front l (over u) ≡ some (p, t)
    → (v : ResourceManage) × (take_front l u ≡ some (p, v)) × (t ≡ over v)
unfolding take_front
take_front-over [] u p t e = absurd (cc)
take_front-over (q ∷ l) u p t e =
    let v : ResourceManage = record u { unused_list = l; using_list = insert q q u.using_list } in
    let same = inner (q, over v) (p, t) e in
    (v, ap (λ r. some (r.0, v)) same, sym (ap (λ r. r.1) same))

-- How `get` of a pool with one block too many in its count compares with that of the pool.
abbrev Alike : ResourceManage → ℕ → ResourceManage → Option (ℕ × ResourceManage) → Type 0
Alike u p t o = (v : ResourceManage) × (o ≡ some (p, v)) × (t ≡ over v)

none_taken :
    (u : ResourceManage) (p : ℕ) (t : ResourceManage)
    → ◌≡◌ {A = Option (ℕ × ResourceManage)} (some (0, over u)) (some (p, t))
    → Alike u p t (some (0, u))
none_taken u p t e =
    let same = inner (0, over u) (p, t) e in
    (u, ap (λ r. some (r.0, u)) same, sym (ap (λ r. r.1) same))

get-over :
    (alloc : Bool) (u : ResourceManage) (p : ℕ) (t : ResourceManage)
    → get alloc (over u) ≡ some (p, t)
    → Alike u p t (get alloc u)
unfolding get grow
get-over alloc u p t e = elim (Bool-cases (length u.unused_list == 0)) [
  | inr rest ↦
      let mine : get alloc u ≡ take_front u.unused_list u = rw rest refl in
      let other : get alloc (over u) ≡ take_front u.unused_list (over u) = rw rest refl in
      subst (Alike u p t) (sym mine) (take_front-over u.unused_list u p t (sym other ∙ e))
  | inl empty ↦
      elim (Bool-cases (u.is_limited && leb u.count_times (length u.resource_block_ptr))) [
        | inl full ↦
            let mine : get alloc u ≡ some (0, u) = rw (empty, full) refl in
            let other : get alloc (over u) ≡ some (0, over u) = rw (empty, full) refl in
            subst (Alike u p t) (sym mine) (none_taken u p t (sym other ∙ e))
        | inr open_ ↦ elim (Bool-cases alloc) [
          | inr refused ↦
              let mine : get alloc u ≡ some (0, u) = rw (empty, open_, refused) refl in
              let other : get alloc (over u) ≡ some (0, over u) = rw (empty, open_, refused) refl in
              subst (Alike u p t) (sym mine) (none_taken u p t (sym other ∙ e))
          | inl granted ↦
              let l = (grow u).unused_list in
              let mine : get alloc u ≡ take_front l (grow u) = rw (empty, open_, granted) refl in
              let other : get alloc (over u) ≡ take_front l (over (grow u)) =
                rw (empty, open_, granted) refl in
              subst (Alike u p t) (sym mine) (take_front-over l (grow u) p t (sym other ∙ e))
        ]
      ]
]

put-over :
    (p : ℕ) (u : ResourceManage) → IsValid u → IsLive u p → (put p (over u)).0 ≡ over (put p u).0
unfolding put
put-over p u v live = ground (arith, live)

reinitialize-over :
    (alloc : Bool) (n : ℕ) (u : ResourceManage)
    → reinitialize alloc (suc n) (over u) ≡ reinitialize alloc (suc n) u
unfolding reinitialize
reinitialize-over alloc n u =
    let some_of : suc n == 0 ≡ false = ground arith in
    elim (Bool-cases (ltb 0 (length u.resource_block_ptr))) [
      | inl some_ ↦ rw (some_of, some_) refl
      | inr none_ ↦ rw (some_of, none_) refl
    ]

-- Without memory no block is left.
abbrev emptied : ℕ → ResourceManage → ResourceManage
emptied n s = record (clear s) { count_all = 0; count_per_unit = suc n }

nothing : (a w : ℕ) → lookup {V = ℕ} a [] ≡ some w → ⊥
unfolding lookup
nothing a w e = cc

emptied-IsValid : (n : ℕ) (s : ResourceManage) → IsValid s → IsValid (emptied n s)
unfolding clear
emptied-IsValid n s v = record {
  owned = λ a. refl;
  own_value = λ a w e. absurd (nothing a w e);
  disjoint = λ a. omega arith;
  fresh = λ a h. refl;
  no_null = refl;
  heap_pos = v.heap_pos;
  unit_pos = omega arith;
  total = omega arith;
  sizes = refl;
}

reinitialize-emptied :
    (n : ℕ) (s : ResourceManage) → IsValid s → (reinitialize false (suc n) s).0 ≡ over (emptied n s)
unfolding reinitialize clear
reinitialize-emptied n s v = elim (List-cases s.resource_block_ptr) [
  | inl e ↦ let (unused, using) = no_block-empty s v e in ground (arith, e, unused, using)
  | inr (b, bs, e) ↦ ground (arith, e)
]

keep-Counts :
    (failed : Bool) (f : ResourceManage → ResourceManage) (s : ResourceManage)
    → ((u : ResourceManage) → IsValid u → IsValid (f u))
    → ((u : ResourceManage) → f (over u) ≡ over (f u))
    → Counts failed s
    → Counts failed (f s)
keep-Counts false f s keeps same v = keeps s v
keep-Counts true f s keeps same (u, v, e) = (f u, keeps u v, ap f e ∙ same u)

reinitialize-Counts :
    (alloc : Bool) (n : ℕ) (u : ResourceManage)
    → IsValid u
    → Counts (not alloc) (reinitialize alloc (suc n) u).0
reinitialize-Counts true n u v = reinitialize-IsValid (suc n) u v
reinitialize-Counts false n u v = (emptied n u, emptied-IsValid n u v, reinitialize-emptied n u v)

gets-Counts :
    (failed alloc : Bool) (p : ℕ) (s t : ResourceManage)
    → Counts failed s
    → get alloc s ≡ some (p, t)
    → Counts failed t
gets-Counts false alloc p s t v e = get-IsValid alloc s p t v e
gets-Counts true alloc p s t (u, v, same) e =
    let (w, run, short) = get-over alloc u p t (ap (get alloc) (sym same) ∙ e) in
    (w, get-IsValid alloc u p w v run, short)

puts-Counts :
    (failed : Bool) (p : ℕ) (s : ResourceManage)
    → Counts failed s
    → IsLive s p
    → Counts failed (put p s).0
puts-Counts false p s v live = rw (put-live s p v live) (returned-IsValid s p v live)
puts-Counts true p s (u, v, same) live =
    let held : IsLive u p = subst (λ r. IsLive r p) same live in
    (
      (put p u).0,
      rw (put-live u p v held) (returned-IsValid u p v held),
      ap (λ r. (put p r).0) same ∙ put-over p u v held,
    )

again-Counts :
    (failed alloc : Bool) (n : ℕ) (s : ResourceManage)
    → Counts failed s
    → Counts (not alloc) (reinitialize alloc (suc n) s).0
again-Counts false alloc n s v = reinitialize-Counts alloc n s v
again-Counts true alloc n s (u, v, same) =
    subst (λ r. Counts (not alloc) (r.0))
      (sym (ap (reinitialize alloc (suc n)) same ∙ reinitialize-over alloc n u))
      (reinitialize-Counts alloc n u v)

Step-Counts :
    {failed fails : Bool} {s t : ResourceManage}
    → Counts failed s
    → Step failed s fails t
    → Counts fails t
unfolding reset set_limit reinitialize
Step-Counts {failed} {s} h (gets alloc p t e) = gets-Counts failed alloc p s t h e
Step-Counts {failed} {s} h (puts p live) = puts-Counts failed p s h live
Step-Counts {failed} {s} h resets = keep-Counts failed reset s reset-IsValid (λ u. refl) h
Step-Counts {failed} {s} h (limits is_limit times) =
    keep-Counts failed (set_limit is_limit times) s (set_limit-IsValid is_limit times) (λ u. refl) h
Step-Counts {failed} {s} h (refuses alloc) = h
Step-Counts {failed} {s} h (reinitializes alloc n) = again-Counts failed alloc n s h

-- From a valid pool, after any sequence of `get`, `put` of pointers in use, `reset`, `setLimit` and
-- `reInitialize`, with or without memory for their blocks: if the last `reInitialize` of some pointers
-- had its memory, or there was none, the pool is valid, that is, no address is in two places and the
-- sizes agree; if it had not, the pool counts one block that it does not have, and is valid but for
-- that.
pub Reach-Counts :
    {s t : ResourceManage} {failed : Bool} → IsValid s → Reach s failed t → Counts failed t
Reach-Counts v here = v
Reach-Counts v (next r st) = Step-Counts (Reach-Counts v r) st
