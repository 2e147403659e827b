-- ===== src/Base/Equality.antt =====
-- Decidable equality as an interface, so that one operator serves every type of key.
use Prim.Native.Nat.{ℕ}
use Prim.Native.String.{String}
use mathlib.Core.Path.{◌≡◌, refl}
use mathlib.Core.Logic.{◌↔◌}
use mathlib.Core.Bool.{Bool, true}
use text.Mathlib.Text.{◌==◌ as str_eq}
use text.Mathlib.TextEquality.{eq_iff}
use pilothouse.Base.Tests.{nat_beq, nat_beq_iff}

pub record Eq {κ} (T : Type κ) : Type κ where
  pub beq : T → T → Bool
  pub beq_iff : (x y : T) → (beq x y ≡ true) ↔ (x ≡ y)

instance abbrev pub string_eq : Eq String
string_eq = record { beq = str_eq; beq_iff = eq_iff }

instance abbrev pub nat_eq : Eq ℕ
nat_eq = record { beq = nat_beq; beq_iff = nat_beq_iff }

module _ {κ} {T : Type κ} ⦃e : Eq T⦄ where
  infix 50 ◌==◌
  abbrev pub ◌==◌ : T → T → Bool
  ◌==◌ x y = e.beq x y

  pub eq_refl : (x : T) → (x == x) ≡ true
  eq_refl x = (e.beq_iff x x).1 refl
