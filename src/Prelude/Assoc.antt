-- ===== src/Prelude/Assoc.antt =====
-- `std::map` with an unsigned key: an association list in the order of the keys, which is the
-- order in which the code iterates.
pub mod Order
use Prim.Native.Nat.{ℕ, ◌+◌, ◌≤◌}
use mathlib.Core.Path.{◌≡◌, refl}
use mathlib.Core.List.{List, [], ◌∷◌}
use mathlib.Core.Option.{Option, none, some}
use native.Mathlib.Omega.{arith}
use my_communication.Prelude.Tests.{◌==◌, ltb, if◌then◌else◌}
use my_communication.Prelude.Lists.{length, count}

abbrev pub Assoc {ℓ} : Type ℓ → Type ℓ
Assoc V = List (ℕ × V)

module _ {ℓ} {V : Type ℓ} where
  -- `find`, and `at` where the key is there
  unfoldable pub lookup : ℕ → Assoc V → Option V
  lookup k [] = none
  lookup k ((j, v) ∷ m) = if j == k then some v else lookup k m

  -- `m[k] = v`
  unfoldable pub insert : ℕ → V → Assoc V → Assoc V
  insert k v [] = (k, v) ∷ []
  insert k v ((j, w) ∷ m) =
      let rest = insert k v m in
      if j == k then (k, v) ∷ m else if ltb k j then (k, v) ∷ (j, w) ∷ m else (j, w) ∷ rest

  unfoldable pub erase : ℕ → Assoc V → Assoc V
  erase k [] = []
  erase k ((j, v) ∷ m) = let rest = erase k m in if j == k then rest else (j, v) ∷ rest

  abbrev pub keys : Assoc V → List ℕ
  keys [] = []
  keys ((j, v) ∷ m) = j ∷ keys m

  abbrev pub values : Assoc V → List V
  values [] = []
  values ((j, v) ∷ m) = v ∷ values m

  pub lookup-insert :
      (new key : ℕ) (value : V) (table : Assoc V)
      → lookup key (insert new value table) ≡ (if new == key then some value else lookup key table)
  unfolding lookup insert
  lookup-insert new key value ((old, kept) ∷ table) =
      ground (arith, lookup-insert new key value table)
  lookup-insert new key value [] = refl

  pub lookup-erase :
      (k j : ℕ) (m : Assoc V) → lookup j (erase k m) ≡ (if k == j then none else lookup j m)
  unfolding lookup erase
  lookup-erase k j [] = ground arith
  lookup-erase k j ((i, w) ∷ m) = ground (arith, lookup-erase k j m)

  pub count-keys-insert :
      (k a : ℕ) (v : V) (m : Assoc V)
      → lookup k m ≡ none
      → count a (keys (insert k v m)) ≡ (if k == a then 1 else 0) + count a (keys m)
  unfolding lookup insert
  count-keys-insert k a v [] h = refl
  count-keys-insert k a v ((i, w) ∷ m) h = ground (arith, count-keys-insert k a v m)

  pub count-keys-erase :
      (k a : ℕ) (m : Assoc V)
      → count a (keys (erase k m)) ≡ (if k == a then 0 else count a (keys m))
  unfolding erase
  count-keys-erase k a [] = ground arith
  count-keys-erase k a ((i, w) ∷ m) = ground (arith, count-keys-erase k a m)

  pub count-keys_pos : (k : ℕ) (v : V) (m : Assoc V) → lookup k m ≡ some v → 1 ≤ count k (keys m)
  unfolding lookup
  count-keys_pos k v [] h = absurd (ground arith)
  count-keys_pos k v ((i, w) ∷ m) h = ground (arith, count-keys_pos k v m)

  pub lookup-none : (k : ℕ) (m : Assoc V) → count k (keys m) ≡ 0 → lookup k m ≡ none
  unfolding lookup
  lookup-none k [] h = refl
  lookup-none k ((i, w) ∷ m) h = ground (arith, lookup-none k m)

  pub count-keys-none : (k : ℕ) (m : Assoc V) → lookup k m ≡ none → count k (keys m) ≡ 0
  unfolding lookup
  count-keys-none k [] h = refl
  count-keys-none k ((i, w) ∷ m) h = ground (arith, count-keys-none k m)

  pub length-keys-insert :
      (k : ℕ) (v : V) (m : Assoc V) → lookup k m ≡ none → length (insert k v m) ≡ length m + 1
  unfolding lookup insert
  length-keys-insert k v [] h = omega arith
  length-keys-insert k v ((i, w) ∷ m) h = ground (arith, length-keys-insert k v m)

  -- With one entry for the key, erasing it shortens the map by one.
  pub length-erase_absent : (k : ℕ) (m : Assoc V) → count k (keys m) ≡ 0 → erase k m ≡ m
  unfolding erase
  length-erase_absent k [] h = refl
  length-erase_absent k ((i, w) ∷ m) h = ground (arith, length-erase_absent k m)

  pub length-erase :
      (k : ℕ) (m : Assoc V) → count k (keys m) ≡ 1 → length (erase k m) + 1 ≡ length m
  unfolding erase
  length-erase k [] h = absurd (omega arith)
  length-erase k ((i, w) ∷ m) h = ground (arith, length-erase k m, length-erase_absent k m)

pub count-values-insert :
    (k a v : ℕ) (m : Assoc ℕ)
    → lookup k m ≡ none
    → count a (values (insert k v m)) ≡ (if v == a then 1 else 0) + count a (values m)
unfolding lookup insert
count-values-insert k a v [] h = refl
count-values-insert k a v ((i, w) ∷ m) h = ground (arith, count-values-insert k a v m)
