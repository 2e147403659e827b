-- ===== src/Base/Integers.antt =====
-- Go's signed integers, where only their sign matters.
use Prim.Native.Nat.{ℕ}

-- `negsuc n` is -(n + 1).
pub data ℤ : Type 0 where
  pos : ℕ → ℤ
  negsuc : ℕ → ℤ
