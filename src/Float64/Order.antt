-- ===== src/Float64/Order.antt =====
-- The worth of a magnitude grows with its bits, so bits compare as numbers do.
use sapedb.Base.{ℕ, zero, suc, ◌+◌, ◌-◌, ◌*◌, ◌/◌, ◌%◌, ◌^◌, ◌≤◌, ◌<◌, ◌≡◌, arith}
use sapedb.Float64.{units}
use native.Mathlib.Nat.{
  le_trans, mul-le-mul_left, mul-le-mul_right, pow-le-pow_right, one-le-pow, pow-suc,
}
use native.Mathlib.Decide.{dec_lt}

abbrev fraction : ℕ → ℕ
fraction m = m % 2 ^ 52

abbrev exponent : ℕ → ℕ
exponent m = m / 2 ^ 52

pub units_small : (m : ℕ) → exponent m ≡ 0 → units m ≡ m
unfolding units
units_small m h = ground arith

pub units_large : (m : ℕ) → 0 < exponent m → units m ≡ (2 ^ 52 + fraction m) * 2 ^ (exponent m - 1)
unfolding units
units_large m h = ground arith

pow2_pos : (k : ℕ) → 0 < 2 ^ k
pow2_pos k = one-le-pow k 2 (omega arith)

pow2_pred : (e : ℕ) → 0 < e → 2 ^ e ≡ 2 * 2 ^ (e - 1)
pow2_pred zero h = absurd (omega arith)
pow2_pred (suc e) h = rw (suc_pred e) (omega (arith, pow-suc 2 e))
  where
    suc_pred : (e : ℕ) → suc e - 1 ≡ e
    suc_pred e = omega arith

-- A binade lies between two powers of two.
units_floor : (m : ℕ) → 0 < exponent m → 2 ^ 52 * 2 ^ (exponent m - 1) ≤ units m
units_floor m h = rw (units_large m h) (mul-le-mul_right (2 ^ (exponent m - 1)) (omega arith))

units_ceiling : (m : ℕ) → 0 < exponent m → units m ≤ 2 ^ 52 * 2 ^ exponent m
units_ceiling m h = rw (units_large m h) (
    omega (
      arith,
      pow2_pred (exponent m) h,
      mul-le-mul_right {m = 2 ^ 52 + fraction m} {n = 2 ^ 53} (2 ^ (exponent m - 1)) (omega arith),
    ))

-- Two magnitudes in one binade, and in two.
units_mono_same : (m n : ℕ) → m ≤ n → 0 < exponent m → exponent m ≡ exponent n → units m ≤ units n
units_mono_same m n h p e =
    rw (units_large m p, units_large n (omega arith), e)
      (mul-le-mul_right (2 ^ (exponent n - 1)) (omega arith))

units_mono_lt : (m n : ℕ) → 0 < exponent m → exponent m < exponent n → units m ≤ units n
units_mono_lt m n p l = le_trans (units_ceiling m p) (
    le_trans (mul-le-mul_left (2 ^ 52) (pow-le-pow_right (omega arith) (omega arith)))
      (units_floor n (omega arith)))

pub units_mono : (m n : ℕ) → m ≤ n → units m ≤ units n
units_mono m n h = elim (dec_lt 0 (exponent m)) [
  | yes p ↦ elim (dec_lt (exponent m) (exponent n)) [
    | yes l ↦ units_mono_lt m n p l
    | no g ↦ units_mono_same m n h p (omega arith)
  ]
  | no z ↦ elim (dec_lt 0 (exponent n)) [
    | yes q ↦ omega (arith, units_small m (omega arith), units_floor n q, pow2_pos (exponent n - 1))
    | no w ↦ omega (arith, units_small m (omega arith), units_small n (omega arith))
  ]
]

pub units-eq_zero : (m : ℕ) → units m ≡ 0 → m ≡ 0
units-eq_zero m h = elim (dec_lt 0 (exponent m)) [
  | yes p ↦ absurd (omega (arith, units_floor m p, pow2_pos (exponent m - 1)))
  | no z ↦ omega (arith, units_small m (omega arith))
]

pub lt-of-units_lt : (m n : ℕ) → units m < units n → m < n
lt-of-units_lt m n h = elim (dec_lt m n) [
  | yes l ↦ l
  | no g ↦ absurd (omega (arith, units_mono n m (omega arith)))
]
