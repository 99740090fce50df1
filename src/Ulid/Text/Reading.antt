-- ===== src/Ulid/Text/Reading.antt =====
-- What `Time` reads of the characters that stand for a list of digits.
use sapedb.Base.{
  ℕ, zero, suc, ◌+◌, ◌*◌, ◌/◌, ◌^◌, ◌≤◌, ◌<◌, ◌≡◌, refl, sym, ap, Bool, true, false, ◌&&◌, none,
  some, List, [], ◌∷◌, map, length, All, ◌==◌, ltb, if◌then◌else◌, inl, inr, ok, arith,
}
use native.Mathlib.Nat.{
  mod-eq_of_lt, pow-suc, add-mul, mul_assoc, mul_comm, one-le-pow, mul-le-mul_left, add_comm,
  div-eq_of_lt, mul-le-mul_right, add-mul-div_right,
}
use sapedb.Base.Bytes.{Before, byte_order}
use sapedb.Ulid.Text.{character, index_from, index, stamp_loop}

abbrev pub IsDigit : ℕ → Type 0
IsDigit d = d < 32

-- The number of digits in base 32, from the most significant.
unfoldable pub of_digits : List ℕ → ℕ
of_digits [] = 0
of_digits (d ∷ ds) = d * 32 ^ length ds + of_digits ds

pub of_digits_lt : (ds : List ℕ) → All IsDigit ds → of_digits ds < 32 ^ length ds
unfolding of_digits
of_digits_lt [] h = omega arith
of_digits_lt (d ∷ ds) (h, hs) =
    rw (pow-suc 32 (length ds))
      (omega (arith, of_digits_lt ds hs, mul-le-mul_right (32 ^ length ds) h))

-- Whether `index` finds a digit again from its character.
unfoldable found_again : ℕ → Bool
found_again d = elim (index (character d)) [ none ↦ false | some e ↦ e == d ]

unfoldable all_below : ℕ → (ℕ → Bool) → Bool
all_below zero p = true
all_below (suc n) p = p n && all_below n p

all_below_lem : (n : ℕ) (p : ℕ → Bool) (x : ℕ) → all_below n p ≡ true → x < n → p x ≡ true
unfolding all_below
all_below_lem zero p x h l = absurd (omega arith)
all_below_lem (suc n) p x h l = ground (arith, all_below_lem n p x)

digits_found : all_below 32 found_again ≡ true
unfolding all_below found_again index index_from character
digits_found = refl

found_again_lem : (d : ℕ) → found_again d ≡ true → index (character d) ≡ some d
unfolding found_again
found_again_lem d h = ground arith

index-character : (d : ℕ) → IsDigit d → index (character d) ≡ some d
index-character d h = found_again_lem d (all_below_lem 32 found_again d digits_found h)

next_digit : (s d place low : ℕ) → (s * 32 + d) * place + low ≡ s * (place * 32) + (d * place + low)
next_digit s d place low =
    ground (arith, add-mul (s * 32) d place, mul_assoc s 32 place, mul_comm 32 place)

leading : (s p r : ℕ) → 1 ≤ p → r < p → (s * p + r) / p ≡ s
leading s p r k h = rw (add_comm (s * p) r, add-mul-div_right r s k, div-eq_of_lt h) (omega arith)

room :
    (s d p : ℕ)
    → (s + 1) * (p * 32) ≤ 2 ^ 60
    → d < 32
    → 1 ≤ p
    → ((s * 32 + d + 1) * p ≤ 2 ^ 60) × (s * 32 + d < 2 ^ 64)
room s d p l h k =
    let digit : s * 32 + d + 1 ≤ (s + 1) * 32 = omega arith in
    let below = mul-le-mul_right p digit in
    let whole : (s * 32 + d + 1) * p ≤ 2 ^ 60 =
      omega (arith, below, l, mul_assoc (s + 1) 32 p, ap (λ x. (s + 1) * x) (mul_comm 32 p)) in
    let least = mul-le-mul_left (s * 32 + d + 1) k in (whole, omega (arith, whole, least))

pub stamp_loop-map :
    (n m i s : ℕ) (ds : List ℕ)
    → All IsDigit ds
    → length ds ≡ n + m
    → (s + 1) * 32 ^ n ≤ 2 ^ 60
    → stamp_loop n i s (map character ds) ≡ ok ((s * 32 ^ length ds + of_digits ds) / 32 ^ m)
unfolding stamp_loop of_digits
stamp_loop-map zero m i s ds h e l =
    let same : length ds ≡ m = omega arith in
    let low = of_digits_lt ds h in
    rw same (
      ap ok
        (sym (leading s (32 ^ m) (of_digits ds) (one-le-pow m 32 (omega arith)) (rw same at low))))
stamp_loop-map (suc n) m i s [] h e l = absurd (omega arith)
stamp_loop-map (suc n) m i s (d ∷ ds) (h, hs) e l =
    let b = room s d (32 ^ n) (rw (pow-suc 32 n) at l) h (one-le-pow n 32 (omega arith)) in
    rw
      (
        stamp_loop,
        index-character d h,
        mod-eq_of_lt b.1,
        stamp_loop-map n m (suc i) (s * 32 + d) ds hs (omega arith) b.0,
        pow-suc 32 (length ds),
      )
      (ap (λ x. ok (x / 32 ^ m)) (next_digit s d (32 ^ length ds) (of_digits ds)))

-- The alphabet is in the order of its codes.
unfoldable keeps_order : ℕ → ℕ → Bool
keeps_order a b = if ltb a b then ltb (character a) (character b) else true

alphabet_sorted : all_below 32 (λ a. all_below 32 (keeps_order a)) ≡ true
unfolding all_below keeps_order character
alphabet_sorted = refl

keeps_order_lem : (a b : ℕ) → keeps_order a b ≡ true → a < b → character a < character b
unfolding keeps_order
keeps_order_lem a b h l = ground arith

character_lt : (a b : ℕ) → IsDigit a → IsDigit b → a < b → character a < character b
character_lt a b h k l =
    let row = all_below_lem 32 (λ x. all_below 32 (keeps_order x)) a alphabet_sorted h in
    keeps_order_lem a b (all_below_lem 32 (keeps_order a) b row k) l

pub map-Before :
    (xs ys : List ℕ)
    → All IsDigit xs
    → All IsDigit ys
    → length xs ≡ length ys
    → of_digits xs < of_digits ys
    → Before (map character xs) (map character ys)
unfolding of_digits
map-Before [] [] h k e l = absurd (omega arith)
map-Before [] (y ∷ ys) h k e l = absurd (omega arith)
map-Before (x ∷ xs) [] h k e l = absurd (omega arith)
map-Before (x ∷ xs) (y ∷ ys) (h, hs) (k, ks) e l =
    let same : length xs ≡ length ys = omega arith in
    let lows = rw same at (of_digits_lt xs hs) in
    let whole = rw same at l in
    elim (byte_order (32 ^ length ys) x y (of_digits xs) (of_digits ys) lows (of_digits_lt ys ks)
      whole) [
        | inl less ↦ inl (character_lt x y h k less)
        | inr (alike, rest) ↦ inr (ap character alike, map-Before xs ys hs ks same rest)
      ]
