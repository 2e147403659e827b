-- ===== src/Base/Maps.antt =====
-- Go's maps as association lists. The order of the list is one order in which Go may range over
-- the map.
use Prim.Native.Nat.{◌≤◌, ◌+◌}
use mathlib.Core.Path.{◌≡◌, refl, subst₂}
use mathlib.Core.Logic.{inl, inr}
use mathlib.Core.Bool.{Bool}
use mathlib.Core.Option.{Option, none, some}
use mathlib.Core.List.{List, [], ◌∷◌}
use native.Mathlib.Omega.{arith}
use pilothouse.Base.Tests.{if◌then◌else◌, is_some, Bool-cases}
use pilothouse.Base.Lists.{length, keep_if, All}
use pilothouse.Base.Equality.{Eq, ◌==◌, eq_refl}

abbrev pub Map {ℓ κ} : Type ℓ → Type κ → Type (ℓ ⊔ κ)
Map K V = List (K × V)

abbrev pub pass_if {κ} : {V : Type κ} → (V → Bool) → Option V → Option V
pass_if p none = none
pass_if p (some v) = if p v then some v else none

module _ {ℓ κ} {K : Type ℓ} {V : Type κ} ⦃e : Eq K⦄ where
  -- `v, ok := m[k]`
  unfoldable pub lookup : K → Map K V → Option V
  lookup k [] = none
  lookup k ((j, v) ∷ m) = if j == k then some v else lookup k m

  -- `delete(m, k)`
  unfoldable pub erase : K → Map K V → Map K V
  erase k [] = []
  erase k ((j, v) ∷ m) = let rest = erase k m in if j == k then rest else (j, v) ∷ rest

  -- `m[k] = v`
  unfoldable pub insert : K → V → Map K V → Map K V
  insert k v [] = (k, v) ∷ []
  insert k v ((j, w) ∷ m) = let rest = insert k v m in if j == k then (k, v) ∷ m else (j, w) ∷ rest

  -- What is left when the entries that fail the test are deleted during a range over the map.
  unfoldable pub retain : (V → Bool) → Map K V → Map K V
  retain p m = keep_if (λ kv. p kv.1) m

  -- No key occurs twice, as in every Go map.
  abbrev pub HasDistinctKeys : Map K V → Type κ
  HasDistinctKeys [] = Unit
  HasDistinctKeys ((k, v) ∷ m) = (lookup k m ≡ none) × HasDistinctKeys m

  pub lookup-erase :
      (k j : K) (m : Map K V) → lookup j (erase k m) ≡ (if k == j then none else lookup j m)
  unfolding lookup erase
  lookup-erase k j [] = ground arith
  lookup-erase k j ((i, v) ∷ m) =
      ground (arith, lookup-erase k j m, e.beq_iff k j, e.beq_iff i j, e.beq_iff i k)

  pub lookup-insert :
      (put asked : K) (new : V) (m : Map K V)
      → lookup asked (insert put new m) ≡ (if put == asked then some new else lookup asked m)
  unfolding lookup insert
  lookup-insert put asked new [] = refl
  lookup-insert put asked new ((i, old) ∷ m) = ground (
    arith,
    lookup-insert put asked new m,
    e.beq_iff put asked,
    e.beq_iff i asked,
    e.beq_iff i put,
  )

  pub lookup-insert_self : (k : K) (v : V) (m : Map K V) → lookup k (insert k v m) ≡ some v
  lookup-insert_self k v m = rw (lookup-insert k k v m, eq_refl k)

  pub lookup-erase_self : (k : K) (m : Map K V) → lookup k (erase k m) ≡ none
  lookup-erase_self k m = rw (lookup-erase k k m, eq_refl k)

  pub erase-HasDistinctKeys :
      (k : K) (m : Map K V) → HasDistinctKeys m → HasDistinctKeys (erase k m)
  unfolding erase
  erase-HasDistinctKeys k [] h = tt
  erase-HasDistinctKeys k ((j, v) ∷ m) h =
      ground (arith, erase-HasDistinctKeys k m, lookup-erase k j m)

  pub insert-HasDistinctKeys :
      (k : K) (v : V) (m : Map K V) → HasDistinctKeys m → HasDistinctKeys (insert k v m)
  unfolding insert lookup
  insert-HasDistinctKeys k v [] h = (refl, tt)
  insert-HasDistinctKeys k v ((j, w) ∷ m) h =
      ground
        (arith, insert-HasDistinctKeys k v m, lookup-insert k j v m, e.beq_iff k j, e.beq_iff j k)

  pub lookup-retain-none :
      (p : V → Bool) (k : K) (m : Map K V) → lookup k m ≡ none → lookup k (retain p m) ≡ none
  unfolding lookup retain
  lookup-retain-none p k [] h = refl
  lookup-retain-none p k ((j, v) ∷ m) h = ground (arith, lookup-retain-none p k m)

  pub retain-HasDistinctKeys :
      (p : V → Bool) (m : Map K V) → HasDistinctKeys m → HasDistinctKeys (retain p m)
  unfolding retain
  retain-HasDistinctKeys p [] h = tt
  retain-HasDistinctKeys p ((j, v) ∷ m) h =
      ground (arith, retain-HasDistinctKeys p m, lookup-retain-none p j m)

  pub lookup-retain :
      (p : V → Bool) (k : K) (m : Map K V)
      → HasDistinctKeys m
      → lookup k (retain p m) ≡ pass_if p (lookup k m)
  unfolding lookup retain
  lookup-retain p k [] h = refl
  lookup-retain p k ((j, v) ∷ m) h =
      ground (arith, lookup-retain p k m h.1, lookup-retain-none p k m, e.beq_iff j k)

  -- How many keys `erase` and `insert` leave.
  pub length-erase :
      (k : K) (m : Map K V)
      → HasDistinctKeys m
      → length (erase k m) + (if is_some (lookup k m) then 1 else 0) ≡ length m
  unfolding erase lookup
  length-erase k [] h = omega arith
  length-erase k ((j, v) ∷ m) h = ground (arith, length-erase k m h.1, e.beq_iff j k)

  pub length-insert :
      (k : K) (v : V) (m : Map K V)
      → length (insert k v m) ≡ length m + (if is_some (lookup k m) then 0 else 1)
  unfolding insert lookup
  length-insert k v [] = omega arith
  length-insert k v ((j, w) ∷ m) = ground (arith, length-insert k v m)

  pub length-retain : (p : V → Bool) (m : Map K V) → length (retain p m) ≤ length m
  unfolding retain
  length-retain p [] = omega arith
  length-retain p ((j, v) ∷ m) = ground (arith, length-retain p m)

module _ {ℓ κ τ} {K : Type ℓ} {V : Type κ} ⦃e : Eq K⦄ (P : K × V → Type τ) where
  pub insert-All : (k : K) (v : V) (m : Map K V) → P (k, v) → All P m → All P (insert k v m)
  unfolding insert
  insert-All k v [] new old = (new, tt)
  insert-All k v ((j, w) ∷ m) new old = elim (Bool-cases (j == k)) [
    | inl same ↦ rw same (new, old.1)
    | inr other ↦ rw other (old.0, insert-All k v m new old.1)
  ]

  pub lookup-All : (k : K) (v : V) (m : Map K V) → All P m → lookup k m ≡ some v → P (k, v)
  unfolding lookup
  lookup-All k v [] all h = absurd (cc)
  lookup-All k v ((j, w) ∷ m) all h = elim (Bool-cases (j == k)) [
    | inl same ↦
        let at : j ≡ k = (e.beq_iff j k).0 same in
        let here : w ≡ v = ground arith in subst₂ (λ key value. P (key, value)) at here all.0
    | inr other ↦ lookup-All k v m all.1 (ground arith)
  ]
