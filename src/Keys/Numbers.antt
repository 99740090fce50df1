-- ===== src/Keys/Numbers.antt =====
-- The bits of a number in a key compare as the numbers do.
use sapedb.Base.{
  ℕ, ◌+◌, ◌^◌, ◌<◌, ◌≡◌, ◌≢◌, refl, true, false, ◌⊎◌, inl, inr, if◌then◌else◌, arith, Bool-cases,
  ℕ_discrete,
}
use sapedb.Base.Bytes.{Before, big_endian-Before}
use sapedb.Base.Int.{◌<ℤ◌, pos_part, neg_part}
use sapedb.Float64.{is_zero, signed, units, is_negative, magnitude}
use sapedb.Float64.Order.{lt-of-units_lt}
use sapedb.Float64.Exact.{minus_parts}
use sapedb.Keys.Codec.{sort_bits}
use sapedb.Keys.Shape.{number_body}

units_of_zero : units 0 ≡ 0
unfolding units
units_of_zero = refl

-- The bits that are written compare as the numbers do.
sorted : ℕ → ℕ
sorted b = sort_bits (if is_zero b then 0 else b)

signed_parts :
    (b : ℕ)
    → ((is_negative b ≡ false)
        × (pos_part (signed b) ≡ units (magnitude b))
        × (neg_part (signed b) ≡ 0))
      ⊎ ((is_negative b ≡ true)
          × (pos_part (signed b) ≡ 0)
          × (neg_part (signed b) ≡ units (magnitude b)))
unfolding signed
signed_parts b = elim (Bool-cases (is_negative b)) [
  | inl p ↦
      rw p
        (inr (refl, (minus_parts (units (magnitude b))).0, (minus_parts (units (magnitude b))).1))
  | inr p ↦ rw p (inl (refl, refl, refl))
]

sorted_zero : (b : ℕ) → magnitude b ≡ 0 → sorted b ≡ 2 ^ 63
unfolding sorted sort_bits is_zero
sorted_zero b h = ground arith

sorted_positive : (b : ℕ) → b < 2 ^ 64 → is_negative b ≡ false → sorted b ≡ 2 ^ 63 + magnitude b
unfolding sorted sort_bits is_zero
sorted_positive b h p = ground arith

sorted_negative :
    (b : ℕ)
    → b < 2 ^ 64
    → is_negative b ≡ true
    → magnitude b ≢ 0
    → sorted b + magnitude b + 1 ≡ 2 ^ 63
unfolding sorted sort_bits is_zero
sorted_negative b h p q = ground arith

units-zero : (b : ℕ) → magnitude b ≡ 0 → units (magnitude b) ≡ 0
units-zero b h = rw h units_of_zero

sorted_value :
    (b : ℕ)
    → b < 2 ^ 64
    → ((sorted b ≡ 2 ^ 63 + magnitude b)
        × (pos_part (signed b) ≡ units (magnitude b))
        × (neg_part (signed b) ≡ 0))
      ⊎ ((sorted b + magnitude b + 1 ≡ 2 ^ 63)
          × (pos_part (signed b) ≡ 0)
          × (neg_part (signed b) ≡ units (magnitude b)))
sorted_value b h = elim (ℕ_discrete (magnitude b) 0) [
  | yes z ↦ elim (signed_parts b) [
    | inl (s, p, n) ↦ inl (omega (arith, sorted_zero b z), p, n)
    | inr (s, p, n) ↦ inl (
      omega (arith, sorted_zero b z),
      omega (arith, units-zero b z),
      omega (arith, units-zero b z),
    )
  ]
  | no z ↦ elim (signed_parts b) [
    | inl (s, p, n) ↦ inl (sorted_positive b h s, p, n)
    | inr (s, p, n) ↦ inr (sorted_negative b h s z, p, n)
  ]
]

sorted-lt : (x y : ℕ) → x < 2 ^ 64 → y < 2 ^ 64 → signed x <ℤ signed y → sorted x < sorted y
sorted-lt x y hx hy h = elim (sorted_value x hx) [
  | inl (sx, px, nx) ↦ elim (sorted_value y hy) [
    | inl (sy, py, ny) ↦ omega (arith, lt-of-units_lt (magnitude x) (magnitude y) (omega arith))
    | inr (sy, py, ny) ↦ absurd (omega arith)
  ]
  | inr (sx, px, nx) ↦ elim (sorted_value y hy) [
    | inl (sy, py, ny) ↦ omega arith
    | inr (sy, py, ny) ↦ omega (arith, lt-of-units_lt (magnitude y) (magnitude x) (omega arith))
  ]
]

sorted_bound : (x : ℕ) → x < 2 ^ 64 → sorted x < 256 ^ 8
unfolding sorted sort_bits
sorted_bound x h = ground arith

pub number_body-Before :
    (x y : ℕ)
    → x < 2 ^ 64
    → y < 2 ^ 64
    → signed x <ℤ signed y
    → Before (number_body x) (number_body y)
unfolding number_body sorted
number_body-Before x y hx hy h =
    inr (refl, big_endian-Before 8 _ _ (sorted-lt x y hx hy h) (sorted_bound y hy))
