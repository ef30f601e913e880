-- ===== src/Common/Integers.antt =====
-- Whole numbers with a sign over the native natural numbers, under the library's names.
use Prim.Native.Nat.{ℕ}

pub data ℤ : Type 0 where
  pos negsuc : ℕ → ℤ
