-- ===== src/Prelude/Int.antt =====
-- Python's signed integers, as far as the program tells them apart.
use Prim.Native.Nat.{ℕ}

-- `negsuc n` is -(n + 1).
pub data ℤ : Type 0 where
  pos : ℕ → ℤ
  negsuc : ℕ → ℤ
