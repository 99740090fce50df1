-- ===== src/Float64.antt =====
-- Go's float64, as the 64 bits that `math.Float64bits` gives: a sign bit, 11 bits of exponent and
-- 52 of fraction. Part of the language, used by internal/keys/keys.go and internal/number.
-- The numeric meaning of the bits, `signed`, is an integer multiple of 2^-1074, the smallest
-- float64 above zero.
pub mod Exact
pub mod Order
use sapedb.Base.{ℕ, zero, suc, ◌+◌, ◌-◌, ◌*◌, ◌/◌, ◌%◌, ◌^◌, ◌<◌, Bool, ltb, leb, ◌==◌}
use sapedb.Base.{if◌then◌else◌}
use sapedb.Base.Int.{ℤ, pos, negsuc, pos_part, neg_part}

abbrev pub IsFloat : ℕ → Type 0
IsFloat b = b < 2 ^ 64

-- The sign bit, and the 63 bits below it.
abbrev pub is_negative : ℕ → Bool
is_negative b = leb (2 ^ 63) b

abbrev pub magnitude : ℕ → ℕ
magnitude b = b % 2 ^ 63

-- `math.IsNaN`: the exponent is all ones and the fraction is not zero.
unfoldable pub is_nan : ℕ → Bool
is_nan b = ltb (2047 * 2 ^ 52) (magnitude b)

-- `value == 0`, which holds of both zeros.
unfoldable pub is_zero : ℕ → Bool
is_zero b = magnitude b == 0

-- What a magnitude is worth, in units of 2^-1074. Infinity is worth more than all below it.
unfoldable pub units : ℕ → ℕ
units m = if m / 2 ^ 52 == 0 then m else (2 ^ 52 + m % 2 ^ 52) * 2 ^ (m / 2 ^ 52 - 1)

-- The integer -n.
unfoldable pub minus : ℕ → ℤ
minus zero = pos 0
minus (suc n) = negsuc n

-- The number that the bits stand for, in units of 2^-1074.
unfoldable pub signed : ℕ → ℤ
signed b = if is_negative b then minus (units (magnitude b)) else pos (units (magnitude b))

-- `float64(n)` for 0 < n ≤ 2^53: the number is doubled, and the exponent counted down, until its
-- top bit is bit 52. A number up to 2^53 reaches that in 52 rounds.
unfoldable pub normalize : ℕ → ℕ → ℕ → ℕ
normalize zero n e = (e - 1) * 2 ^ 52 + n
normalize (suc k) n e =
    let rest = normalize k (n * 2) (e - 1) in if leb (2 ^ 52) n then (e - 1) * 2 ^ 52 + n else rest

unfoldable pub of_nat : ℕ → ℕ
of_nat zero = 0
of_nat (suc n) = normalize 52 (suc n) 1075

-- `float64(value)` of an int64 whose magnitude is at most 2^53.
unfoldable pub of_int : ℤ → ℕ
of_int (pos n) = of_nat n
of_int (negsuc n) = 2 ^ 63 + of_nat (suc n)
