-- ===== src/Base/Int.antt =====
-- Go's `int`, of which the documents hold some that a reader compares.
use Prim.Native.Nat.{ℕ}
use mathlib.Core.Bool.{Bool, false}
use pmux.Base.Tests.{◌==◌, ltb}

-- `negsuc n` is -(n + 1).
pub data ℤ : Type 0 where
  pos : ℕ → ℤ
  negsuc : ℕ → ℤ

-- The tests against a number that is not negative.
abbrev pub is_nat : ℤ → ℕ → Bool
is_nat (pos m) n = m == n
is_nat (negsuc m) n = false

abbrev pub exceeds : ℤ → ℕ → Bool
exceeds (pos m) n = ltb n m
exceeds (negsuc m) n = false
