-- ===== src/Resource/Steps.antt =====
-- About `get`, `setLimit` and `reInitialize` of ResourceManage.h.
use my_communication.Prelude.{
  ℕ, zero, suc, ◌*◌, ◌≡◌, ◌≢◌, refl, sym, ap, subst, ◌∙◌, ◌⊎◌, inl, inr, Bool, true, false, ◌&&◌,
  List, [], ◌∷◌, some, arith, leb, length, length-append, Bool-cases,
}
use my_communication.Resource.{
  ResourceManage, block_pointers, add_block, clear, reinitialize, set_limit, take_front, grow, get,
}
use my_communication.Resource.Invariant.{
  IsValid, Handed, grow-IsValid, take_front-Handed, add_block-IsValid, length-block_pointers,
}

-- No pointer is left, and none can be made.
pub record Exhausted (alloc : Bool) (s : ResourceManage) : Type 0 where
  pub none_left : s.unused_list ≡ []
  pub barred :
      (s.is_limited && leb s.count_times (length s.resource_block_ptr) ≡ true) ⊎ (alloc ≡ false)

abbrev pub Gets : Bool → ResourceManage → Type 0
Gets alloc s =
    (p : ℕ) × (t : ResourceManage) × (get alloc s ≡ some (p, t))
    × ((p ≡ 0) × (t ≡ s) × Exhausted alloc s ⊎ Handed s p t)

get-some :
    (alloc : Bool) (s : ResourceManage) (p : ℕ) (rest : List ℕ)
    → s.unused_list ≡ p ∷ rest
    → get alloc s ≡ take_front s.unused_list s
unfolding get
get-some alloc s p rest e = ground arith

get-grow :
    (s : ResourceManage)
    → s.unused_list ≡ []
    → s.is_limited && leb s.count_times (length s.resource_block_ptr) ≡ false
    → get true s ≡ take_front (grow s).unused_list (grow s)
unfolding get
get-grow s e b = ground arith

get-barred : (alloc : Bool) (s : ResourceManage) → Exhausted alloc s → get alloc s ≡ some (0, s)
unfolding get
get-barred alloc s x = ground arith

pub List-cases {ℓ} :
    {A : Type ℓ} (xs : List A) → (xs ≡ []) ⊎ ((x : A) × (rest : List A) × (xs ≡ x ∷ rest))
List-cases [] = inl refl
List-cases (x ∷ rest) = inr (x, rest, refl)

grow-nonempty : (s : ResourceManage) → IsValid s → (grow s).unused_list ≢ []
unfolding grow
grow-nonempty s v e =
    let n = ap length e in
    omega (
      arith,
      v.unit_pos,
      n,
      length-append s.unused_list (block_pointers s.heap_next s.count_per_unit),
      length-block_pointers s.heap_next s.count_per_unit,
    )

grow-Handed : (s : ResourceManage) (p : ℕ) (t : ResourceManage) → Handed (grow s) p t → Handed s p t
unfolding grow
grow-Handed s p t h = record {
  valid = h.valid;
  was_free = h.was_free;
  live = h.live;
  nonnull = h.nonnull;
  others = h.others;
}

get_fresh :
    (s : ResourceManage)
    → IsValid s
    → s.unused_list ≡ []
    → s.is_limited && leb s.count_times (length s.resource_block_ptr) ≡ false
    → (p : ℕ) × (t : ResourceManage) × (get true s ≡ some (p, t)) × Handed s p t
get_fresh s v e b = elim (List-cases (grow s).unused_list) [
  | inl none_left ↦ absurd (grow-nonempty s v none_left)
  | inr (p, rest, q) ↦
      let (t, run, h) = take_front-Handed (grow s) p rest (grow-IsValid s v) q in
      (p, t, get-grow s e b ∙ run, grow-Handed s p t h)
]

-- `get` on a valid pool never reads the front of an empty list. It returns `nullptr`, changing
-- nothing, if no pointer is left and the limit or the allocator bars a new block; else a pointer
-- that was not in use and now is, with every other pointer's state and the invariant kept.
pub get_lem : (alloc : Bool) (s : ResourceManage) → IsValid s → Gets alloc s
get_lem alloc s v = elim (List-cases s.unused_list) [
  | inr (p, rest, e) ↦
      let (t, run, h) = take_front-Handed s p rest v e in
      (p, t, get-some alloc s p rest e ∙ run, inr h)
  | inl e ↦ elim (Bool-cases (s.is_limited && leb s.count_times (length s.resource_block_ptr))) [
    | inl full ↦
        let x : Exhausted alloc s = record { none_left = e; barred = inl full } in
        (0, s, get-barred alloc s x, inl (refl, refl, x))
    | inr open_ ↦ without_limit alloc e open_
  ]
]
  where
    without_limit :
        (alloc : Bool)
        → s.unused_list ≡ []
        → s.is_limited && leb s.count_times (length s.resource_block_ptr) ≡ false
        → Gets alloc s
    without_limit true e b = let (p, t, run, h) = get_fresh s v e b in (p, t, run, inr h)
    without_limit false e b =
        let x : Exhausted false s = record { none_left = e; barred = inr refl } in
        (0, s, get-barred false s x, inl (refl, refl, x))

pub get-IsValid :
    (alloc : Bool) (s : ResourceManage) (p : ℕ) (t : ResourceManage)
    → IsValid s
    → get alloc s ≡ some (p, t)
    → IsValid t
get-IsValid alloc s p t v e =
    let (q, u, run, out) = get_lem alloc s v in
    let same : u ≡ t = cc in
    subst IsValid same
      (elim out [ inl (_, kept, _) ↦ subst IsValid (sym kept) v | inr h ↦ h.valid ])

pub set_limit-IsValid :
    (is_limit : Bool) (times : ℕ) (s : ResourceManage)
    → IsValid s
    → IsValid (set_limit is_limit times s)
unfolding set_limit
set_limit-IsValid is_limit times s v = record {
  owned = v.owned;
  own_value = v.own_value;
  disjoint = v.disjoint;
  fresh = v.fresh;
  no_null = v.no_null;
  heap_pos = v.heap_pos;
  unit_pos = v.unit_pos;
  total = v.total;
  sizes = v.sizes;
}

-- Without a block nothing is unused or in use.
pub no_block-empty :
    (s : ResourceManage)
    → IsValid s
    → s.resource_block_ptr ≡ []
    → (s.unused_list ≡ []) × (s.using_list ≡ [])
no_block-empty s v e =
    let none : s.count_all ≡ 0 =
      v.total ∙ ap (λ bs. length bs * s.count_per_unit) e ∙ omega arith in
    (grind (arith, v.sizes, none), grind (arith, v.sizes, none))

abbrev sized : ℕ → ResourceManage → ResourceManage
sized n s = record s { count_all = n; count_per_unit = n }

reinitialize-no_block :
    (n : ℕ) (s : ResourceManage)
    → s.resource_block_ptr ≡ []
    → reinitialize true (suc n) s ≡ (add_block (sized (suc n) s), true)
unfolding reinitialize
reinitialize-no_block n s e = ground arith

reinitialize-clear :
    (n : ℕ) (s : ResourceManage) (b : ℕ) (bs : List ℕ)
    → s.resource_block_ptr ≡ b ∷ bs
    → reinitialize true (suc n) s ≡ (add_block (sized (suc n) (clear s)), true)
unfolding reinitialize
reinitialize-clear n s b bs e = ground arith

pub reinitialize-IsValid :
    (n : ℕ) (s : ResourceManage) → IsValid s → IsValid (reinitialize true n s).0
unfolding reinitialize
reinitialize-IsValid zero s v = v
reinitialize-IsValid (suc n) s v = elim (List-cases s.resource_block_ptr) [
  | inl e ↦
      let (unused, using) = no_block-empty s v e in
      subst IsValid (ap (λ r. r.0) (sym (reinitialize-no_block n s e)))
        (add_block-IsValid (sized (suc n) s) using unused e v.heap_pos (omega arith) refl)
  | inr (b, bs, e) ↦
      subst IsValid (ap (λ r. r.0) (sym (reinitialize-clear n s b bs e)))
        (add_block-IsValid (sized (suc n) (clear s)) refl refl refl v.heap_pos (omega arith) refl)
]

pub get-is_limited :
    (alloc : Bool) (s : ResourceManage) (p : ℕ) (t : ResourceManage)
    → get alloc s ≡ some (p, t)
    → t.is_limited ≡ s.is_limited
unfolding get
get-is_limited alloc s p t e = ground arith

-- Without a limit, and with memory, there is always a pointer to hand out.
pub get_unlimited :
    (s : ResourceManage)
    → IsValid s
    → s.is_limited ≡ false
    → (p : ℕ) × (t : ResourceManage) × (get true s ≡ some (p, t))
      × Handed s p t
      × (t.is_limited ≡ false)
get_unlimited s v free =
    let (p, t, run, out) = get_lem true s v in
    (
      p,
      t,
      run,
      elim out [ inl (_, _, x) ↦ absurd (ground (arith, x.barred)) | inr h ↦ h ],
      get-is_limited true s p t run ∙ free,
    )
