-- ===== src/Prelude/Assoc/Order.antt =====
-- The keys of a `std::map` ascend.
use Prim.Native.Nat.{ℕ, ◌≤◌, ◌<◌}
use mathlib.Core.Path.{◌≡◌}
use mathlib.Core.List.{[], ◌∷◌}
use native.Mathlib.Omega.{arith}
use my_communication.Prelude.Lists.{count}
use my_communication.Prelude.Assoc.{Assoc, lookup, insert, erase, keys, values, lookup-erase}
use mathlib.Core.Option.{some}
use mathlib.Core.Logic.{◌≢◌}
use native.Mathlib.Decide.{ℕ_discrete}

module _ {ℓ} {V : Type ℓ} where
  abbrev pub Above : ℕ → Assoc V → Type 0
  Above k [] = Unit
  Above k ((j, v) ∷ m) = (k < j) × Above k m

  abbrev pub Ascends : Assoc V → Type 0
  Ascends [] = Unit
  Ascends ((j, v) ∷ m) = Above j m × Ascends m

  Above-weaken : (i k : ℕ) (m : Assoc V) → i < k → Above k m → Above i m
  Above-weaken i k [] h above = tt
  Above-weaken i k ((j, v) ∷ m) h (first, above) = (omega arith, Above-weaken i k m h above)

  Above-insert : (k key : ℕ) (v : V) (m : Assoc V) → k < key → Above k m → Above k (insert key v m)
  unfolding insert
  Above-insert k key v [] h above = (h, tt)
  Above-insert k key v ((j, w) ∷ m) h (first, above) =
      ground (arith, Above-insert k key v m h above)

  pub Ascends-insert : (key : ℕ) (v : V) (m : Assoc V) → Ascends m → Ascends (insert key v m)
  unfolding insert
  Ascends-insert key v [] h = (tt, tt)
  Ascends-insert key v ((j, w) ∷ m) (above, h) =
      ground (arith, Ascends-insert key v m h, Above-insert j key v m, Above-weaken key j m)

  Above-erase : (k key : ℕ) (m : Assoc V) → Above k m → Above k (erase key m)
  unfolding erase
  Above-erase k key [] above = tt
  Above-erase k key ((j, w) ∷ m) (first, above) = ground (arith, Above-erase k key m above)

  pub Ascends-erase : (key : ℕ) (m : Assoc V) → Ascends m → Ascends (erase key m)
  unfolding erase
  Ascends-erase key [] h = tt
  Ascends-erase key ((j, w) ∷ m) (above, h) =
      ground (arith, Ascends-erase key m h, Above-erase j key m)

  count-keys-Above : (k a : ℕ) (m : Assoc V) → a ≤ k → Above k m → count a (keys m) ≡ 0
  count-keys-Above k a [] h above = omega arith
  count-keys-Above k a ((j, w) ∷ m) h (first, above) =
      ground (arith, count-keys-Above k a m h above)

  -- Each key stands once.
  pub count-keys-le_one : (a : ℕ) (m : Assoc V) → Ascends m → count a (keys m) ≤ 1
  count-keys-le_one a [] h = omega arith
  count-keys-le_one a ((j, w) ∷ m) (above, h) =
      ground (arith, count-keys-le_one a m h, count-keys-Above j a m)

  lookup-Above : (j key : ℕ) (v : V) (m : Assoc V) → Above j m → lookup key m ≡ some v → j < key
  unfolding lookup
  lookup-Above j key v [] above e = absurd (cc)
  lookup-Above j key v ((i, w) ∷ m) (first, above) e = ground (arith, lookup-Above j key v m above)

  -- What stands behind the first entry is found in the whole map.
  lookup-behind :
      (j key : ℕ) (w v : V) (m : Assoc V)
      → Above j m
      → lookup key m ≡ some v
      → lookup key ((j, w) ∷ m) ≡ some v
  unfolding lookup
  lookup-behind j key w v m above e = ground (arith, lookup-Above j key v m above e)

  lookup-front : (j : ℕ) (w : V) (m : Assoc V) → lookup j ((j, w) ∷ m) ≡ some w
  unfolding lookup
  lookup-front j w m = ground arith

count-values_none :
    (p : ℕ) (m : Assoc ℕ) → Ascends m → ((key : ℕ) → lookup key m ≢ some p) → count p (values m) ≡ 0
count-values_none p [] h off = omega arith
count-values_none p ((j, w) ∷ m) (above, h) off = ground (
  arith,
  off j,
  lookup-front j w m,
  count-values_none p m h (λ key e. off key (lookup-behind j key w p m above e)),
)

-- A value that is found under one key at most stands once.
pub count-values-le_one :
    (p k : ℕ) (m : Assoc ℕ)
    → Ascends m
    → ((key : ℕ) → lookup key m ≡ some p → k ≡ key)
    → count p (values m) ≤ 1
count-values-le_one p k [] h only = omega arith
count-values-le_one p k ((j, w) ∷ m) (above, h) only = elim (ℕ_discrete w p) [
  | yes here ↦
      let at_front : k ≡ j = only j (ground (arith, lookup-front j w m, here)) in
      let behind = count-values_none p m h (λ key e. absurd (
        ground (
          arith,
          lookup-Above j key p m above e,
          only key (lookup-behind j key w p m above e),
          at_front,
        ))) in
      ground (arith, behind)
  | no other ↦ ground (
    arith,
    other,
    count-values-le_one p k m h (λ key e. only key (lookup-behind j key w p m above e)),
  )
]

module _ {ℓ} {V : Type ℓ} where
  -- Each entry of the first map is one of the second.
  abbrev pub AllIn : Assoc V → Assoc V → Type ℓ
  AllIn [] n = Unit
  AllIn ((k, v) ∷ m) n = (lookup k n ≡ some v) × AllIn m n

  pub AllIn-erase : (key : ℕ) (m n : Assoc V) → Above key m → AllIn m n → AllIn m (erase key n)
  AllIn-erase key [] n above there = tt
  AllIn-erase key ((k, v) ∷ m) n (first, above) (here, there) =
      (ground (arith, lookup-erase key k n, here, first), AllIn-erase key m n above there)

  AllIn-behind : (j : ℕ) (w : V) (m n : Assoc V) → Above j m → AllIn m n → AllIn m ((j, w) ∷ n)
  unfolding lookup
  AllIn-behind j w [] n above there = tt
  AllIn-behind j w ((k, v) ∷ m) n (first, above) (here, there) =
      (ground (arith, here, first), AllIn-behind j w m n above there)

  pub AllIn-self : (m : Assoc V) → Ascends m → AllIn m m
  AllIn-self [] h = tt
  AllIn-self ((k, v) ∷ m) (above, h) =
      (lookup-front k v m, AllIn-behind k v m m above (AllIn-self m h))
