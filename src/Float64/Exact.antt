-- ===== src/Float64/Exact.antt =====
-- An integer up to 2^53 is held exactly.
use sapedb.Base.{
  ℕ, zero, suc, ◌+◌, ◌-◌, ◌*◌, ◌/◌, ◌%◌, ◌^◌, ◌≤◌, ◌<◌, ◌≡◌, refl, ap, ◌∙◌, false, leb, inl, inr,
  arith, Bool-cases, leb→le, leb→lt,
}
use sapedb.Base.Int.{ℤ, pos, negsuc, ◌<ℤ◌, pos_part, neg_part}
use sapedb.Float64.{units, normalize, of_nat, of_int, signed, minus, is_nan}
use sapedb.Float64.Order.{units_large, units_small}
use native.Mathlib.Decide.{dec_lt}
use native.Mathlib.Nat.{pow-suc, one-le-pow, mul-lt-mul_of_pos_right}

units_binade :
    (m j f n : ℕ) → m / 2 ^ 52 ≡ suc j → m % 2 ^ 52 ≡ f → 2 ^ 52 + f ≡ n → units m ≡ n * 2 ^ j
units_binade m j f n e d s =
    rw (units_large m (omega arith), d, e, s) (ap (λ (t : ℕ). n * 2 ^ t) (omega arith))

top : (n j : ℕ) → n ≡ 2 ^ 53 → units (j * 2 ^ 52 + n) ≡ n * 2 ^ j
top n j e =
    units_binade (j * 2 ^ 52 + n) (suc j) 0 (2 ^ 52) (omega arith) (omega arith) (omega arith)
    ∙ omega (arith, pow-suc 2 j, ap (λ (t : ℕ). t * 2 ^ j) e)

-- The last round: the number has its top bit at bit 52, or is 2^53.
units_last : (n j : ℕ) → 2 ^ 52 ≤ n → n ≤ 2 ^ 53 → units (j * 2 ^ 52 + n) ≡ n * 2 ^ j
units_last n j lo hi = elim (dec_lt n (2 ^ 53)) [
  | yes l ↦ units_binade (j * 2 ^ 52 + n) j (n - 2 ^ 52) n (omega arith) (omega arith) (omega arith)
  | no g ↦ top n j (omega arith)
]

suc_pred : (j : ℕ) → suc j - 1 ≡ j
suc_pred j = omega arith

again :
    (k n j : ℕ)
    → suc k ≤ j
    → n < 2 ^ 52
    → 2 ^ 52 ≤ n * 2 ^ suc k
    → ((i : ℕ)
        → k ≤ i
        → n * 2 ≤ 2 ^ 53
        → 2 ^ 52 ≤ n * 2 * 2 ^ k
        → units (normalize k (n * 2) (suc i)) ≡ n * 2 * 2 ^ i)
    → units (normalize k (n * 2) j) ≡ n * 2 ^ j
again k n zero h l lo ih = absurd (omega arith)
again k n (suc i) h l lo ih =
    ih i (omega arith) (omega arith) (omega (arith, ap (λ (t : ℕ). n * t) (pow-suc 2 k)))
    ∙ omega (arith, ap (λ (t : ℕ). n * t) (pow-suc 2 i))

units-normalize :
    (k n j : ℕ)
    → k ≤ j
    → n ≤ 2 ^ 53
    → 2 ^ 52 ≤ n * 2 ^ k
    → units (normalize k n (suc j)) ≡ n * 2 ^ j
unfolding normalize
units-normalize zero n j h hi lo =
    ap (λ (t : ℕ). units (t * 2 ^ 52 + n)) (suc_pred j) ∙ units_last n j (omega arith) hi
units-normalize (suc k) n j h hi lo = elim (Bool-cases (leb (2 ^ 52) n)) [
  | inl p ↦
      rw p (ap (λ (t : ℕ). units (t * 2 ^ 52 + n)) (suc_pred j) ∙ units_last n j (leb→le _ _ p) hi)
  | inr p ↦ rw (p, suc_pred) (again k n j h (leb→lt _ _ p) lo (units-normalize k (n * 2)))
]

normalize_bound : (k n e : ℕ) → n ≤ 2 ^ 53 → normalize k n e ≤ e * 2 ^ 52 + 2 ^ 53
unfolding normalize
normalize_bound zero n e h = omega arith
normalize_bound (suc k) n e h = ground (arith, normalize_bound k (n * 2) (e - 1))

pub of_nat_bound : (n : ℕ) → n ≤ 2 ^ 53 → of_nat n ≤ 1077 * 2 ^ 52
unfolding of_nat
of_nat_bound zero h = omega arith
of_nat_bound (suc n) h = normalize_bound 52 (suc n) 1075 h

pub units-of_nat : (n : ℕ) → n ≤ 2 ^ 53 → units (of_nat n) ≡ n * 2 ^ 1074
unfolding of_nat
units-of_nat zero h = units_small 0 (omega arith)
units-of_nat (suc n) h = units-normalize 52 (suc n) 1074 (omega arith) h (omega arith)

-- The bits of a positive and of a negative number.
pub signed_positive : (m : ℕ) → m < 2 ^ 63 → signed m ≡ pos (units m)
unfolding signed
signed_positive m h = ground arith

pub signed_negative : (m : ℕ) → m < 2 ^ 63 → signed (2 ^ 63 + m) ≡ minus (units m)
unfolding signed
signed_negative m h = ground arith

pub minus_parts : (n : ℕ) → (pos_part (minus n) ≡ 0) × (neg_part (minus n) ≡ n)
unfolding minus
minus_parts zero = (refl, refl)
minus_parts (suc n) = (refl, refl)

-- An integer that `encode_integer` lets through.
abbrev pub IsExact : ℤ → Type 0
IsExact (pos n) = n ≤ 2 ^ 53
IsExact (negsuc n) = suc n ≤ 2 ^ 53

signed-of_int_parts :
    (z : ℤ)
    → IsExact z
    → (pos_part (signed (of_int z)) ≡ pos_part z * 2 ^ 1074)
      × (neg_part (signed (of_int z)) ≡ neg_part z * 2 ^ 1074)
unfolding of_int
signed-of_int_parts (pos n) h =
    rw (signed_positive (of_nat n) (omega (arith, of_nat_bound n h))) (units-of_nat n h, refl)
signed-of_int_parts (negsuc n) h =
    rw (signed_negative (of_nat (suc n)) (omega (arith, of_nat_bound (suc n) h)))
      (let (p, q) = minus_parts (units (of_nat (suc n))) in (p, q ∙ units-of_nat (suc n) h))

scaled_lt : (a b c d p : ℕ) → a + d < c + b → 0 < p → a * p + d * p < c * p + b * p
scaled_lt a b c d p h k = omega (arith, mul-lt-mul_of_pos_right h k)

-- The float64 of an integer is worth that integer, so the two are ordered alike.
pub signed-of_int_lt :
    (a b : ℤ) → IsExact a → IsExact b → a <ℤ b → signed (of_int a) <ℤ signed (of_int b)
signed-of_int_lt a b ha hb h =
    let (pa, na) = signed-of_int_parts a ha in
    let (pb, nb) = signed-of_int_parts b hb in
    rw (pa, na, pb, nb)
      (scaled_lt (pos_part a) (neg_part a) (pos_part b) (neg_part b) _ h
        (one-le-pow 1074 2 (omega arith)))

is_nan_small : (m : ℕ) → m ≤ 1077 * 2 ^ 52 → is_nan m ≡ false
unfolding is_nan
is_nan_small m h = ground arith

is_nan_small_negative : (m : ℕ) → m ≤ 1077 * 2 ^ 52 → is_nan (2 ^ 63 + m) ≡ false
unfolding is_nan
is_nan_small_negative m h = ground arith

pub of_int_proper : (z : ℤ) → IsExact z → (is_nan (of_int z) ≡ false) × (of_int z < 2 ^ 64)
unfolding of_int
of_int_proper (pos n) h = (is_nan_small _ (of_nat_bound n h), omega (arith, of_nat_bound n h))
of_int_proper (negsuc n) h =
    (is_nan_small_negative _ (of_nat_bound (suc n) h), omega (arith, of_nat_bound (suc n) h))
