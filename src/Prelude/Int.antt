-- ===== src/Prelude/Int.antt =====
-- Python's unbounded integers, as far as the program compares them.
use Prim.Native.Nat.{ℕ}
use mathlib.Core.Bool.{Bool, true}
use mcpgate.Prelude.Tests.{ltb, leb}

-- `negsuc n` is -(n + 1).
pub data ℤ : Type 0 where
  pos : ℕ → ℤ
  negsuc : ℕ → ℤ

-- The bounds of SQLite's INTEGER: 2 ^ 63 - 1 above, -(2 ^ 63) below.
abbrev pub int64_max : ℕ
int64_max = 9_223_372_036_854_775_807

-- Whether an integer can be bound as a parameter of a statement.
abbrev pub fits_int64 : ℤ → Bool
fits_int64 (pos n) = leb n int64_max
fits_int64 (negsuc n) = leb n int64_max

-- `value < 1`
abbrev pub below_one : ℤ → Bool
below_one (pos n) = ltb n 1
below_one (negsuc n) = true
