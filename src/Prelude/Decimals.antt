-- ===== src/Prelude/Decimals.antt =====
-- The order of `decimal.Decimal`, which compares the values exactly.
use Prim.Native.Nat.{ℕ, suc, ◌+◌, ◌-◌, ◌*◌, ◌^◌}
use mathlib.Core.Bool.{Bool, true, false}
use fmms.Prelude.Tests.{ltb, if◌then◌else◌}
use fmms.Prelude.Values.{ℤ, pos, negsuc, Decimal}

abbrev pub pos_part : ℤ → ℕ
pos_part (pos n) = n
pos_part (negsuc n) = 0

abbrev pub neg_part : ℤ → ℕ
neg_part (pos n) = 0
neg_part (negsuc n) = suc n

-- By how much one exponent exceeds another, or 0.
abbrev pub excess : ℤ → ℤ → ℕ
excess a b = (pos_part a + neg_part b) - (pos_part b + neg_part a)

-- The digits of a number at the smaller one of its exponent and another.
unfoldable pub scaled : Decimal → ℤ → ℕ
scaled a e = a.digits * 10 ^ excess a.exponent e

-- `a < b` on magnitudes with signs; a zero has no sign there.
unfoldable pub signed_ltb : Bool → ℕ → Bool → ℕ → Bool
signed_ltb false m false n = ltb m n
signed_ltb true m true n = ltb n m
signed_ltb true m false n = ltb 0 (m + n)
signed_ltb false m true n = false

-- `a < b`
unfoldable pub decimal_ltb : Decimal → Decimal → Bool
unfolding scaled signed_ltb
decimal_ltb a b = signed_ltb a.negative (scaled a b.exponent) b.negative (scaled b a.exponent)

-- `a > 0`
unfoldable pub decimal_pos : Decimal → Bool
decimal_pos a = if a.negative then false else ltb 0 a.digits
