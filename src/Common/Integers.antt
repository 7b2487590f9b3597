-- ===== src/Common/Integers.antt =====
-- Integers: `n` for `pos n`, and `- n - 1` for `negsuc n`.
use Prim.Native.Nat.{ℕ}

pub data ℤ : Type 0 where
  pos : ℕ → ℤ
  negsuc : ℕ → ℤ
