-- ===== src/Base/Texts.antt =====
-- Lists of texts: Go's `slices.Sort`, `slices.Compact` and `slices.Contains`. Texts stand in the
-- order of their bytes.
pub mod Sorting
use Prim.Native.Nat.{Ordering, ◌+◌, ◌≤◌, ◌<◌, suc}
use Prim.Native.Char.{Char, code}
use Prim.Native.String.{String, compare}
use Prim.Native.String.compare as clauses
use mathlib.Core.Path.{◌≡◌, refl, sym, ap, ap₂, ◌∙◌}
use mathlib.Core.Bool.{Bool, true, false, ◌||◌, not}
use mathlib.Core.Logic.{inl, inr}
use mathlib.Core.List.{List, [], ◌∷◌}
use text.Mathlib.TextEquality.{Char-path}
use native.Mathlib.Omega.{arith}
use pilothouse.Base.Tests.{if◌then◌else◌, Bool-cases, ltb, nat_beq}
use pilothouse.Base.Lists.{length, any, All}
use pilothouse.Base.Equality.{Eq, ◌==◌, string_eq, eq_refl, nat_eq}

abbrev not_gt : Ordering → Bool
not_gt Ordering.gt = false
not_gt Ordering.lt = true
not_gt Ordering.eq = true

unfoldable pub precedes : String → String → Bool
precedes a b = not_gt (compare a b)

unfoldable pub insert_sorted : String → List String → List String
insert_sorted x [] = x ∷ []
insert_sorted x (y ∷ ys) =
    let rest = insert_sorted x ys in if precedes x y then x ∷ y ∷ ys else y ∷ rest

-- `slices.Sort`
unfoldable pub sort : List String → List String
sort [] = []
sort (x ∷ xs) = insert_sorted x (sort xs)

-- `slices.Contains`
abbrev pub contains : List String → String → Bool
contains xs name = any (λ x. x == name) xs

-- `slices.Compact`: of a run of equal elements the first stays.
unfoldable pub compact : List String → List String
compact [] = []
compact (x ∷ []) = x ∷ []
compact (x ∷ y ∷ ys) = let rest = compact (y ∷ ys) in if x == y then rest else x ∷ rest

-- No text stands twice.
abbrev pub distinct : List String → Bool
distinct [] = true
distinct (x ∷ xs) = let rest = distinct xs in if contains xs x then false else rest

precedes-cons :
    (c d : Char) (s t : String)
    → precedes (String.◌∷◌ c s) (String.◌∷◌ d t) ≡ (
        if ltb (code c) (code d)
        then true
        else if nat_beq (code c) (code d)
        then precedes s t
        else false)
unfolding precedes
precedes-cons c d s t = ap not_gt (clauses.cons-cons c d s t) ∙ ground arith

precedes_least : (s : String) → precedes String.[] s ≡ true
unfolding precedes
precedes_least String.[] = refl
precedes_least (String.◌∷◌ d t) = ap not_gt (clauses.nil-cons d t)

precedes_nil : (c : Char) (s : String) → precedes (String.◌∷◌ c s) String.[] ≡ false
unfolding precedes
precedes_nil c s = ap not_gt (clauses.cons-nil c s)

pub precedes_total : (a b : String) → precedes a b ≡ false → precedes b a ≡ true
precedes_total String.[] b h = ground (arith, precedes_least b)
precedes_total (String.◌∷◌ c s) String.[] h = precedes_least _
precedes_total (String.◌∷◌ c s) (String.◌∷◌ d t) h =
    ground (arith, precedes_total s t, precedes-cons c d s t, precedes-cons d c t s)

pub precedes_trans :
    (a b c : String) → precedes a b ≡ true → precedes b c ≡ true → precedes a c ≡ true
precedes_trans String.[] b c h k = precedes_least c
precedes_trans (String.◌∷◌ x a) String.[] c h k = ground (arith, precedes_nil x a)
precedes_trans (String.◌∷◌ x a) (String.◌∷◌ y b) String.[] h k = ground (arith, precedes_nil y b)
precedes_trans (String.◌∷◌ x a) (String.◌∷◌ y b) (String.◌∷◌ z c) h k = ground (
  arith,
  precedes_trans a b c,
  precedes-cons x y a b,
  precedes-cons y z b c,
  precedes-cons x z a c,
)

pub precedes_antisym : (a b : String) → precedes a b ≡ true → precedes b a ≡ true → a ≡ b
precedes_antisym String.[] String.[] h k = refl
precedes_antisym String.[] (String.◌∷◌ y b) h k = absurd (ground (arith, precedes_nil y b))
precedes_antisym (String.◌∷◌ x a) String.[] h k = absurd (ground (arith, precedes_nil x a))
precedes_antisym (String.◌∷◌ x a) (String.◌∷◌ y b) h k =
    let same : code x ≡ code y = ground (arith, precedes-cons x y a b, precedes-cons y x b a) in
    let rest : a ≡ b =
      precedes_antisym a b (ground (arith, precedes-cons x y a b))
        (ground (arith, precedes-cons y x b a)) in
    ap₂ String.◌∷◌ (Char-path x y same) rest
