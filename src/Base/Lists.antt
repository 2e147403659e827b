-- ===== src/Base/Lists.antt =====
-- Lists measured and indexed by native numbers, and predicates by recursion on a list.
use Prim.Native.Nat.{ℕ, zero, suc, ◌+◌, ◌-◌, ◌≤◌, ◌<◌}
use mathlib.Core.Path.{◌≡◌, refl, ap, subst}
use mathlib.Core.Logic.{◌≢◌, inl, inr}
use mathlib.Core.Bool.{Bool, true, false, not}
use mathlib.Core.List.{List, [], ◌∷◌, ◌++◌, map}
use mathlib.Core.Option.{Option, none, some}
use native.Mathlib.Omega.{arith}
use pilothouse.Base.Tests.{if◌then◌else◌, bit, Bool-cases}

module _ {ℓ} {A : Type ℓ} where
  abbrev pub length : List A → ℕ
  length [] = 0
  length (x ∷ xs) = suc (length xs)

  abbrev pub get_elem? : List A → ℕ → Option A
  get_elem? [] i = none
  get_elem? (x ∷ xs) zero = some x
  get_elem? (x ∷ xs) (suc i) = get_elem? xs i

  -- A write out of bounds changes nothing.
  abbrev pub set : List A → ℕ → A → List A
  set [] i v = []
  set (x ∷ xs) zero v = v ∷ xs
  set (x ∷ xs) (suc i) v = x ∷ set xs i v

  -- How many elements pass the test.
  abbrev pub count : (A → Bool) → List A → ℕ
  count p [] = 0
  count p (x ∷ xs) = bit (p x) + count p xs

  -- The elements that pass the test, in order.
  abbrev pub keep_if : (A → Bool) → List A → List A
  keep_if p [] = []
  keep_if p (x ∷ xs) = let rest = keep_if p xs in if p x then x ∷ rest else rest

  abbrev pub take : ℕ → List A → List A
  take zero xs = []
  take (suc n) [] = []
  take (suc n) (x ∷ xs) = x ∷ take n xs

  abbrev pub any : (A → Bool) → List A → Bool
  any p [] = false
  any p (x ∷ xs) = let rest = any p xs in if p x then true else rest

  abbrev pub drop : ℕ → List A → List A
  drop zero xs = xs
  drop (suc n) [] = []
  drop (suc n) (x ∷ xs) = drop n xs

  abbrev pub replicate : ℕ → A → List A
  replicate zero a = []
  replicate (suc n) a = a ∷ replicate n a

  pub length-drop : (n : ℕ) (xs : List A) → length (drop n xs) ≡ length xs - n
  length-drop zero xs = omega arith
  length-drop (suc n) [] = omega arith
  length-drop (suc n) (x ∷ xs) = omega (arith, length-drop n xs)

  pub eq-nil_of_length : (xs : List A) → length xs ≡ 0 → xs ≡ []
  eq-nil_of_length [] h = refl
  eq-nil_of_length (x ∷ xs) h = absurd (omega arith)

  pub length-append : (xs ys : List A) → length (xs ++ ys) ≡ length xs + length ys
  length-append [] ys = omega arith
  length-append (x ∷ xs) ys = omega (arith, length-append xs ys)

abbrev pub All {ℓ κ} : {A : Type ℓ} → (A → Type κ) → List A → Type κ
All P [] = Unit
All P (x ∷ xs) = P x × All P xs

module _ {ℓ κ} {A : Type ℓ} (P : A → Type κ) where
  pub All-append : (xs ys : List A) → All P xs → All P ys → All P (xs ++ ys)
  All-append [] ys hx hy = hy
  All-append (x ∷ xs) ys hx hy = (hx.0, All-append xs ys hx.1 hy)

  pub All-implies {τ} : (Q : A → Type τ) (xs : List A) → ((x : A) → P x → Q x) → All P xs → All Q xs
  All-implies Q [] f h = tt
  All-implies Q (x ∷ xs) f h = (f x h.0, All-implies Q xs f h.1)

module _ {ℓ} {A : Type ℓ} (p : A → Bool) where
  pub count-set :
      (xs : List A) (i : ℕ) (old new : A)
      → get_elem? xs i ≡ some old
      → count p (set xs i new) + bit (p old) ≡ count p xs + bit (p new)
  count-set [] i old new h = ground arith
  count-set (x ∷ xs) zero old new h = ground arith
  count-set (x ∷ xs) (suc i) old new h = omega (arith, count-set xs i old new h)

  pub count_pos :
      (xs : List A) (i : ℕ) (x : A) → get_elem? xs i ≡ some x → p x ≡ true → 0 < count p xs
  count_pos [] i x h t = ground arith
  count_pos (y ∷ xs) zero x h t = ground arith
  count_pos (y ∷ xs) (suc i) x h t = omega (arith, count_pos xs i x h t)

  pub count_two :
      (xs : List A) (i j : ℕ) (x y : A)
      → get_elem? xs i ≡ some x
      → get_elem? xs j ≡ some y
      → p x ≡ true
      → p y ≡ true
      → i ≢ j
      → 2 ≤ count p xs
  count_two [] i j x y hi hj px py d = ground arith
  count_two (z ∷ xs) zero zero x y hi hj px py d = absurd (d refl)
  count_two (z ∷ xs) zero (suc j) x y hi hj px py d = ground (arith, count_pos xs j y hj py)
  count_two (z ∷ xs) (suc i) zero x y hi hj px py d = ground (arith, count_pos xs i x hi px)
  count_two (z ∷ xs) (suc i) (suc j) x y hi hj px py d =
      omega (arith, count_two xs i j x y hi hj px py (λ e. d (ap suc e)))

  pub get_elem?_of_count :
      (xs : List A) → 0 < count p xs → (i : ℕ) × (x : A) × (get_elem? xs i ≡ some x) × (p x ≡ true)
  get_elem?_of_count [] h = elim h [ ]
  get_elem?_of_count (x ∷ xs) h = elim (Bool-cases (p x)) [
    | inl here ↦ (0, x, refl, here)
    | inr miss ↦
        let (i, y, at, found) = get_elem?_of_count xs (ground arith) in (suc i, y, at, found)
  ]

  pub count_none : (xs : List A) → All (λ x. p x ≡ false) xs → count p xs ≡ 0
  count_none [] h = refl
  count_none (x ∷ xs) h = ground (arith, count_none xs h.1)

  pub All-of_count_zero : (xs : List A) → count p xs ≡ 0 → All (λ x. p x ≡ false) xs
  All-of_count_zero [] h = tt
  All-of_count_zero (x ∷ xs) h = (ground arith, All-of_count_zero xs (omega arith))

module _ {ℓ κ} {A : Type ℓ} (P : A → Type κ) where
  pub All-set : (xs : List A) (i : ℕ) (v : A) → All P xs → P v → All P (set xs i v)
  All-set [] i v h q = tt
  All-set (x ∷ xs) zero v h q = (q, h.1)
  All-set (x ∷ xs) (suc i) v h q = (h.0, All-set xs i v h.1 q)

  pub All-get_elem? : (xs : List A) (i : ℕ) (x : A) → All P xs → get_elem? xs i ≡ some x → P x
  All-get_elem? [] i x h e = cc
  All-get_elem? (y ∷ xs) zero x h e = subst P (cc) h.0
  All-get_elem? (y ∷ xs) (suc i) x h e = All-get_elem? xs i x h.1 e

  pub All-of_get_elem? :
      (xs : List A) → ((i : ℕ) (x : A) → get_elem? xs i ≡ some x → P x) → All P xs
  All-of_get_elem? [] f = tt
  All-of_get_elem? (x ∷ xs) f = (f 0 x refl, All-of_get_elem? xs (λ i. f (suc i)))

  pub All-implies₂ {τ υ} :
      (Q : A → Type τ) (R : A → Type υ) (xs : List A)
      → ((x : A) → P x → Q x → R x)
      → All P xs
      → All Q xs
      → All R xs
  All-implies₂ Q R [] f h k = tt
  All-implies₂ Q R (x ∷ xs) f h k = (f x h.0 k.0, All-implies₂ Q R xs f h.1 k.1)

module _ {ℓ} {A : Type ℓ} (p q : A → Bool) (fewer : (x : A) → q x ≡ true → p x ≡ true) where
  pub count_mono : (xs : List A) → count q xs ≤ count p xs
  count_mono [] = omega arith
  count_mono (x ∷ xs) = ground (arith, count_mono xs, fewer x)

  pub count_strict :
      (xs : List A) (i : ℕ) (x : A)
      → get_elem? xs i ≡ some x
      → p x ≡ true
      → q x ≡ false
      → count q xs < count p xs
  count_strict [] i x at here gone = ground arith
  count_strict (y ∷ xs) zero x at here gone = ground (arith, count_mono xs)
  count_strict (y ∷ xs) (suc i) x at here gone =
      ground (arith, count_strict xs i x at here gone, fewer y)

pub count-le-length {ℓ} : {A : Type ℓ} (p : A → Bool) (xs : List A) → count p xs ≤ length xs
count-le-length p [] = omega arith
count-le-length p (x ∷ xs) = ground (arith, count-le-length p xs)

module _ {ℓ} {A : Type ℓ} where
  pub length-take : (n : ℕ) (xs : List A) → length (take n xs) ≤ n
  length-take zero xs = omega arith
  length-take (suc n) [] = omega arith
  length-take (suc n) (x ∷ xs) = omega (arith, length-take n xs)

  pub length-take-le : (n : ℕ) (xs : List A) → length (take n xs) ≤ length xs
  length-take-le zero xs = omega arith
  length-take-le (suc n) [] = omega arith
  length-take-le (suc n) (x ∷ xs) = omega (arith, length-take-le n xs)

  pub any-take-drop :
      (p : A → Bool) (n : ℕ) (xs : List A)
      → any p xs ≡ (if any p (take n xs) then true else any p (drop n xs))
  any-take-drop p zero xs = refl
  any-take-drop p (suc n) [] = refl
  any-take-drop p (suc n) (x ∷ xs) = ground (arith, any-take-drop p n xs)

  pub any-keep_if-not : (p : A → Bool) (xs : List A) → any p (keep_if (λ x. not (p x)) xs) ≡ false
  any-keep_if-not p [] = refl
  any-keep_if-not p (x ∷ xs) = ground (arith, any-keep_if-not p xs)

  pub length-keep_if : (p : A → Bool) (xs : List A) → length (keep_if p xs) ≤ length xs
  length-keep_if p [] = omega arith
  length-keep_if p (x ∷ xs) = ground (arith, length-keep_if p xs)

  pub All-keep_if {κ τ} :
      (P : A → Type κ) (Q : A → Type τ) (p : A → Bool) (xs : List A)
      → ((x : A) → P x → p x ≡ true → Q x)
      → All P xs
      → All Q (keep_if p xs)
  All-keep_if P Q p [] f all = tt
  All-keep_if P Q p (x ∷ xs) f all = elim (Bool-cases (p x)) [
    | inl kept ↦ rw kept (f x all.0 kept, All-keep_if P Q p xs f all.1)
    | inr gone ↦ rw gone (All-keep_if P Q p xs f all.1)
  ]

  pub All-take {κ} : (P : A → Type κ) (n : ℕ) (xs : List A) → All P xs → All P (take n xs)
  All-take P zero xs all = tt
  All-take P (suc n) [] all = tt
  All-take P (suc n) (x ∷ xs) all = (all.0, All-take P n xs all.1)

pub length-map {ℓ κ} :
    {A : Type ℓ} {B : Type κ} (f : A → B) (xs : List A) → length (map f xs) ≡ length xs
length-map f [] = refl
length-map f (x ∷ xs) = ap suc (length-map f xs)
