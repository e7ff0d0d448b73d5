-- ===== src/Base/Int.antt =====
-- C's `int` where a negative argument or result has to be told apart.
use Prim.Native.Nat.{ℕ}

-- `negsuc n` is -(n + 1).
pub data ℤ : Type 0 where
  pos : ℕ → ℤ
  negsuc : ℕ → ℤ

-- The usual error result.
abbrev pub minus_one : ℤ
minus_one = negsuc 0
