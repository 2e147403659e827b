-- ===== src/Base/Texts/Sorting.antt =====
-- What Go's `slices.Sort` and `slices.Compact` do to a list of texts.
use Prim.Native.Nat.{◌+◌, ◌≤◌}
use Prim.Native.String.{String}
use mathlib.Core.Path.{◌≡◌, refl, ◌∙◌}
use mathlib.Core.Bool.{true, false}
use mathlib.Core.Logic.{inl, inr}
use mathlib.Core.List.{List, [], ◌∷◌}
use native.Mathlib.Omega.{arith}
use pilothouse.Base.Tests.{Bool-cases}
use pilothouse.Base.Lists.{length, All}
use pilothouse.Base.Equality.{◌==◌, string_eq}
use pilothouse.Base.Texts.{
  precedes, precedes_total, precedes_trans, precedes_antisym, insert_sorted, sort, contains,
  compact, distinct,
}

-- In order.
abbrev pub IsOrdered : List String → Type 0
IsOrdered [] = Unit
IsOrdered (x ∷ xs) = All (λ y. precedes x y ≡ true) xs × IsOrdered xs

All-precedes :
    (x y : String) (zs : List String)
    → precedes x y ≡ true
    → All (λ z. precedes y z ≡ true) zs
    → All (λ z. precedes x z ≡ true) zs
All-precedes x y [] h k = tt
All-precedes x y (z ∷ zs) h k = (precedes_trans x y z h k.0, All-precedes x y zs h k.1)

insert_sorted-All :
    (x y : String) (zs : List String)
    → precedes x y ≡ true
    → All (λ z. precedes x z ≡ true) zs
    → All (λ z. precedes x z ≡ true) (insert_sorted y zs)
unfolding insert_sorted
insert_sorted-All x y [] h k = (h, tt)
insert_sorted-All x y (z ∷ zs) h k = elim (Bool-cases (precedes y z)) [
  | inl before ↦ rw before (h, k)
  | inr after ↦ rw after (k.0, insert_sorted-All x y zs h k.1)
]

insert_sorted-IsOrdered :
    (x : String) (ys : List String) → IsOrdered ys → IsOrdered (insert_sorted x ys)
unfolding insert_sorted
insert_sorted-IsOrdered x [] h = (tt, tt)
insert_sorted-IsOrdered x (y ∷ ys) h = elim (Bool-cases (precedes x y)) [
  | inl before ↦ rw before ((before, All-precedes x y ys before h.0), h)
  | inr after ↦
      rw after
        (insert_sorted-All y x ys (precedes_total x y after) h.0, insert_sorted-IsOrdered x ys h.1)
]

pub sort-IsOrdered : (xs : List String) → IsOrdered (sort xs)
unfolding sort
sort-IsOrdered [] = tt
sort-IsOrdered (x ∷ xs) = insert_sorted-IsOrdered x (sort xs) (sort-IsOrdered xs)

length-insert_sorted : (x : String) (ys : List String) → length (insert_sorted x ys) ≡ length ys + 1
unfolding insert_sorted
length-insert_sorted x [] = omega arith
length-insert_sorted x (y ∷ ys) = ground (arith, length-insert_sorted x ys)

pub length-sort : (xs : List String) → length (sort xs) ≡ length xs
unfolding sort
length-sort [] = refl
length-sort (x ∷ xs) = omega (arith, length-insert_sorted x (sort xs), length-sort xs)

contains-insert_sorted :
    (name x : String) (xs : List String)
    → contains (insert_sorted x xs) name ≡ contains (x ∷ xs) name
unfolding insert_sorted
contains-insert_sorted name x [] = refl
contains-insert_sorted name x (y ∷ ys) = elim (Bool-cases (precedes x y)) [
  | inl before ↦ rw before
  | inr after ↦ rw after (ground (arith, contains-insert_sorted name x ys))
]

pub contains-sort : (name : String) (xs : List String) → contains (sort xs) name ≡ contains xs name
unfolding sort
contains-sort name [] = refl
contains-sort name (x ∷ xs) =
    contains-insert_sorted name x (sort xs) ∙ ground (arith, contains-sort name xs)

distinct-insert_sorted :
    (x : String) (ys : List String) → distinct (insert_sorted x ys) ≡ distinct (x ∷ ys)
unfolding insert_sorted
distinct-insert_sorted x [] = refl
distinct-insert_sorted x (y ∷ ys) = elim (Bool-cases (precedes x y)) [
  | inl before ↦ rw before
  | inr after ↦ rw after (
      ground (
        arith,
        distinct-insert_sorted x ys,
        contains-insert_sorted y x ys,
        string_eq.beq_iff x y,
        string_eq.beq_iff y x,
      ))
]

pub distinct-sort : (xs : List String) → distinct (sort xs) ≡ distinct xs
unfolding sort
distinct-sort [] = refl
distinct-sort (x ∷ xs) =
    distinct-insert_sorted x (sort xs) ∙ ground (arith, distinct-sort xs, contains-sort x xs)

pub compact-distinct : (xs : List String) → distinct xs ≡ true → compact xs ≡ xs
unfolding compact
compact-distinct [] h = refl
compact-distinct (x ∷ []) h = refl
compact-distinct (x ∷ y ∷ ys) h =
    ground (arith, compact-distinct (y ∷ ys), string_eq.beq_iff x y, string_eq.beq_iff y x)

length-compact : (xs : List String) → length (compact xs) ≤ length xs
unfolding compact
length-compact [] = omega arith
length-compact (x ∷ []) = omega arith
length-compact (x ∷ y ∷ ys) = ground (arith, length-compact (y ∷ ys))

-- A text before the first of an ordered list does not stand in it.
contains_before :
    (x y : String) (ys : List String)
    → precedes x y ≡ true
    → (x == y) ≡ false
    → All (λ z. precedes y z ≡ true) ys
    → contains ys x ≡ false
contains_before x y [] h d k = refl
contains_before x y (z ∷ zs) h d k = elim (Bool-cases (z == x)) [
  | inr other ↦ rw other (contains_before x y zs h d k.1)
  | inl same ↦
      let eq : z ≡ x = (string_eq.beq_iff z x).0 same in
      absurd (ground (arith, precedes_antisym x y h (rw eq at k.0), string_eq.beq_iff x y))
]

pub distinct_of_compact :
    (xs : List String) → IsOrdered xs → length (compact xs) ≡ length xs → distinct xs ≡ true
unfolding compact
distinct_of_compact [] o h = refl
distinct_of_compact (x ∷ []) o h = refl
distinct_of_compact (x ∷ y ∷ ys) o h = elim (Bool-cases (x == y)) [
  | inl same ↦ absurd (ground (arith, length-compact (y ∷ ys)))
  | inr other ↦ ground (
    arith,
    distinct_of_compact (y ∷ ys) o.1,
    contains_before x y ys o.0.0 other o.1.0,
    string_eq.beq_iff x y,
    string_eq.beq_iff y x,
  )
]

module _ {κ} (P : String → Type κ) where
  insert_sorted-holds :
      (x : String) (xs : List String) → P x → All P xs → All P (insert_sorted x xs)
  unfolding insert_sorted
  insert_sorted-holds x [] here rest = (here, tt)
  insert_sorted-holds x (y ∷ ys) here rest = elim (Bool-cases (precedes x y)) [
    | inl first ↦ rw first (here, rest)
    | inr later ↦ rw later (rest.0, insert_sorted-holds x ys here rest.1)
  ]

  pub sort-All : (xs : List String) → All P xs → All P (sort xs)
  unfolding sort
  sort-All [] all = tt
  sort-All (x ∷ xs) all = insert_sorted-holds x (sort xs) all.0 (sort-All xs all.1)
