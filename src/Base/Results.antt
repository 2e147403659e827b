-- ===== src/Base/Results.antt =====
-- A value or an error, Go's pair of results.
use mathlib.Core.Path.{◌≡◌, refl}
use mathlib.Core.Logic.{◌⊎◌, inl, inr}

pub data Result {ℓ κ} (E : Type ℓ) (A : Type κ) : Type (ℓ ⊔ κ) where
  ok : A → Result E A
  err : E → Result E A

infixl 5 ◌>>=◌
abbrev pub ◌>>=◌ {ℓ κ τ} :
    {E : Type ℓ} {A : Type κ} {B : Type τ} → Result E A → (A → Result E B) → Result E B
ok a >>= f = f a
err e >>= f = err e

pub Result-cases {ℓ κ} :
    {E : Type ℓ} {A : Type κ} (r : Result E A) → ((a : A) × (r ≡ ok a)) ⊎ ((e : E) × (r ≡ err e))
Result-cases (ok a) = inl (a, refl)
Result-cases (err e) = inr (e, refl)

pub >>=-eq-ok {ℓ κ τ} :
    {E : Type ℓ} {A : Type κ} {B : Type τ} (r : Result E A) (next : A → Result E B) {result : B}
    → (r >>= next) ≡ ok result
    → (x : A) × (r ≡ ok x) × (next x ≡ ok result)
>>=-eq-ok (err failure) next h = cc
>>=-eq-ok (ok x) next h = (x, refl, h)

pub >>=-eq-err {ℓ κ τ} :
    {E : Type ℓ} {A : Type κ} {B : Type τ} (r : Result E A) (next : A → Result E B) {failure : E}
    → (r >>= next) ≡ err failure
    → (r ≡ err failure) ⊎ ((x : A) × (r ≡ ok x) × (next x ≡ err failure))
>>=-eq-err (err found) next h = inl (cc)
>>=-eq-err (ok x) next h = inr (x, refl, h)
