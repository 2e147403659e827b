-- ===== src/Base/Sorting.antt =====
-- Go's `sort.Slice` on a test of order. The order of elements that the test does not tell apart,
-- which Go leaves open, is that of the list.
use mathlib.Core.Path.{◌≡◌, refl}
use Prim.Native.Nat.{suc}
use mathlib.Core.Bool.{Bool, true}
use mathlib.Core.Logic.{inl, inr}
use mathlib.Core.List.{List, [], ◌∷◌}
use native.Mathlib.Omega.{arith}
use pilothouse.Base.Tests.{if◌then◌else◌, Bool-cases}
use pilothouse.Base.Lists.{length, any, All}

module _ {ℓ} {A : Type ℓ} (less : A → A → Bool) where
  unfoldable pub insert_by : A → List A → List A
  insert_by x [] = x ∷ []
  insert_by x (y ∷ ys) = let rest = insert_by x ys in if less y x then y ∷ rest else x ∷ y ∷ ys

  unfoldable pub sort_by : List A → List A
  sort_by [] = []
  sort_by (x ∷ xs) = insert_by x (sort_by xs)

  length-insert_by : (x : A) (xs : List A) → length (insert_by x xs) ≡ suc (length xs)
  unfolding insert_by
  length-insert_by x [] = refl
  length-insert_by x (y ∷ ys) = ground (arith, length-insert_by x ys)

  pub length-sort_by : (xs : List A) → length (sort_by xs) ≡ length xs
  unfolding sort_by
  length-sort_by [] = refl
  length-sort_by (x ∷ xs) = omega (arith, length-insert_by x (sort_by xs), length-sort_by xs)

  any-insert_by :
      (p : A → Bool) (x : A) (xs : List A)
      → any p (insert_by x xs) ≡ (if p x then true else any p xs)
  unfolding insert_by
  any-insert_by p x [] = refl
  any-insert_by p x (y ∷ ys) = ground (arith, any-insert_by p x ys)

  pub any-sort_by : (p : A → Bool) (xs : List A) → any p (sort_by xs) ≡ any p xs
  unfolding sort_by
  any-sort_by p [] = refl
  any-sort_by p (x ∷ xs) = ground (arith, any-insert_by p x (sort_by xs), any-sort_by p xs)

  insert_by-All {κ} :
      (P : A → Type κ) (x : A) (xs : List A) → P x → All P xs → All P (insert_by x xs)
  unfolding insert_by
  insert_by-All P x [] here rest = (here, tt)
  insert_by-All P x (y ∷ ys) here rest = elim (Bool-cases (less y x)) [
    | inl later ↦ rw later (rest.0, insert_by-All P x ys here rest.1)
    | inr first ↦ rw first (here, rest)
  ]

  pub sort_by-All {κ} : (P : A → Type κ) (xs : List A) → All P xs → All P (sort_by xs)
  unfolding sort_by
  sort_by-All P [] all = tt
  sort_by-All P (x ∷ xs) all = insert_by-All P x (sort_by xs) all.0 (sort_by-All P xs all.1)
