-- ===== src/Base/Int.antt =====
-- Signed 64-bit integers, where the code tests for a negative one. `negsuc n` is -(n + 1).
use Prim.Native.Nat.{ℕ}

pub data ℤ : Type 0 where
  pos : ℕ → ℤ
  negsuc : ℕ → ℤ
