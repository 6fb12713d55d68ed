-- ===== src/Common/Int.antt =====
-- Signed integers over the native numbers, as far as the program uses them: Go's `int`, and
-- durations in nanoseconds, within their range.
use Prim.Native.Nat.{ℕ}
use mathlib.Core.Bool.{Bool, true, false}
use agent_community.Common.Tests.{ltb, eqb}

-- `negsuc n` is -(n + 1).
pub data ℤ : Type 0 where
  pos : ℕ → ℤ
  negsuc : ℕ → ℤ

-- x < 0
abbrev pub is_negative : ℤ → Bool
is_negative (pos n) = false
is_negative (negsuc n) = true

-- The number that a non-negative integer is.
abbrev pub to_nat : ℤ → ℕ
to_nat (pos n) = n
to_nat (negsuc n) = 0

-- b < x, for a natural bound b
abbrev pub exceeds : ℤ → ℕ → Bool
exceeds (pos n) b = ltb b n
exceeds (negsuc n) b = false

-- x = 0
abbrev pub is_zero : ℤ → Bool
is_zero (pos n) = eqb n 0
is_zero (negsuc n) = false
