-- ===== src/Base/Bytes.antt =====
-- Bytes as numbers below 256: `bytes.Compare`, big-endian integers, and the complement of a byte.
use Prim.Native.Nat.{ℕ, zero, suc, ◌+◌, ◌-◌, ◌*◌, ◌/◌, ◌%◌, ◌^◌, ◌<◌, compare, Ordering}
use mathlib.Core.Path.{◌≡◌, refl, ap}
use mathlib.Core.Logic.{◌⊎◌, inl, inr}
use mathlib.Core.List.{List, [], ◌∷◌, ◌++◌, map}
use native.Mathlib.Omega.{arith}
use native.Mathlib.Nat.{
  mul-add-mod_self_left, mod-eq_of_lt, mod-lt, pow-suc, one-le-pow, div-add-mod,
}
use native.Mathlib.Nat.{mul-le-mul_right}
use native.Mathlib.Decide.{dec_lt}
use sapedb.Base.Lists.{length, All}

abbrev pub IsByte : ℕ → Type 0
IsByte b = b < 256

-- `bytes.Compare`
unfoldable pub lex : List ℕ → List ℕ → Ordering
lex [] [] = Ordering.eq
lex [] (y ∷ ys) = Ordering.lt
lex (x ∷ xs) [] = Ordering.gt
lex (x ∷ xs) (y ∷ ys) = elim (compare x y) [
  | Ordering.lt ↦ Ordering.lt
  | Ordering.eq ↦ lex xs ys
  | Ordering.gt ↦ Ordering.gt
]

-- `xs` is smaller at the first place where the two differ, and neither is a prefix of the other.
abbrev pub Before : List ℕ → List ℕ → Type 0
Before (x ∷ xs) (y ∷ ys) = (x < y) ⊎ ((x ≡ y) × Before xs ys)
Before _ _ = ⊥

-- Whatever follows the two lists, the order of the whole is theirs.
pub lex-Before : (xs ys r s : List ℕ) → Before xs ys → lex (xs ++ r) (ys ++ s) ≡ Ordering.lt
unfolding lex
lex-Before [] ys r s h = elim h [ ]
lex-Before (x ∷ xs) [] r s h = elim h [ ]
lex-Before (x ∷ xs) (y ∷ ys) r s (inl h) = ground arith
lex-Before (x ∷ xs) (y ∷ ys) r s (inr (e, h)) = ground (arith, lex-Before xs ys r s h)

pub lex-After : (xs ys r s : List ℕ) → Before ys xs → lex (xs ++ r) (ys ++ s) ≡ Ordering.gt
unfolding lex
lex-After [] [] r s h = elim h [ ]
lex-After [] (y ∷ ys) r s h = elim h [ ]
lex-After (x ∷ xs) [] r s h = elim h [ ]
lex-After (x ∷ xs) (y ∷ ys) r s (inl h) = ground arith
lex-After (x ∷ xs) (y ∷ ys) r s (inr (e, h)) = ground (arith, lex-After xs ys r s h)

pub Before-append_left : (p xs ys : List ℕ) → Before xs ys → Before (p ++ xs) (p ++ ys)
Before-append_left [] xs ys h = h
Before-append_left (x ∷ p) xs ys h = inr (refl, Before-append_left p xs ys h)

pub Before-append_right : (xs ys r s : List ℕ) → Before xs ys → Before (xs ++ r) (ys ++ s)
Before-append_right [] ys r s h = elim h [ ]
Before-append_right (x ∷ xs) [] r s h = elim h [ ]
Before-append_right (x ∷ xs) (y ∷ ys) r s (inl h) = inl h
Before-append_right (x ∷ xs) (y ∷ ys) r s (inr (e, h)) = inr (e, Before-append_right xs ys r s h)

-- `^b` on a byte
abbrev pub complement : ℕ → ℕ
complement b = 255 - b

pub Before-map-complement :
    (xs ys : List ℕ)
    → All IsByte xs
    → All IsByte ys
    → Before xs ys
    → Before (map complement ys) (map complement xs)
Before-map-complement [] ys p q h = elim h [ ]
Before-map-complement (x ∷ xs) [] p q h = elim h [ ]
Before-map-complement (x ∷ xs) (y ∷ ys) p q (inl h) = inl (omega arith)
Before-map-complement (x ∷ xs) (y ∷ ys) p q (inr (e, h)) =
    inr (omega arith, Before-map-complement xs ys p.1 q.1 h)

pub map-complement_self : (xs : List ℕ) → All IsByte xs → map complement (map complement xs) ≡ xs
map-complement_self [] h = refl
map-complement_self (x ∷ xs) (b, h) = ground (arith, map-complement_self xs h)

pub map-complement-IsByte : (xs : List ℕ) → All IsByte (map complement xs)
map-complement-IsByte [] = tt
map-complement-IsByte (x ∷ xs) = (omega arith, map-complement-IsByte xs)

-- `binary.BigEndian.AppendUint64` and its narrower kin: the `w` low bytes of `n`, highest first.
unfoldable pub big_endian : ℕ → ℕ → List ℕ
big_endian zero n = []
big_endian (suc w) n = n / 256 ^ w % 256 ∷ big_endian w n

unfoldable pub of_big_endian : List ℕ → ℕ
of_big_endian [] = 0
of_big_endian (b ∷ bs) = b * 256 ^ length bs + of_big_endian bs

pub length-big_endian : (w n : ℕ) → length (big_endian w n) ≡ w
unfolding big_endian
length-big_endian zero n = refl
length-big_endian (suc w) n = ap suc (length-big_endian w n)

pub big_endian-IsByte : (w n : ℕ) → All IsByte (big_endian w n)
unfolding big_endian
big_endian-IsByte zero n = tt
big_endian-IsByte (suc w) n = (omega arith, big_endian-IsByte w n)

pub mod_unique : (m a t n : ℕ) → n ≡ m * a + t → t < m → n % m ≡ t
mod_unique m a t n e h = rw (e, mul-add-mod_self_left) (mod-eq_of_lt h)

pow_pos : (w : ℕ) → 0 < 256 ^ w
pow_pos w = one-le-pow w 256 (omega arith)

place_bound : (p b r : ℕ) → b < 256 → r < p → b * p + r < p * 256
place_bound p b r hb hr = omega (arith, mul-le-mul_right p hb)

-- The top byte of `w + 1` bytes and the rest.
split_byte : (w n : ℕ) → n % 256 ^ suc w ≡ n / 256 ^ w % 256 * 256 ^ w + n % 256 ^ w
split_byte w n =
    let p : ℕ = 256 ^ w in
    let q : ℕ = n / p in
    mod_unique (256 ^ suc w) (q / 256) (q % 256 * p + n % p) n
      (rw (pow-suc 256 w)
        (omega (arith, div-add-mod n p, ap (λ (t : ℕ). p * t) (div-add-mod q 256))))
      (rw (pow-suc 256 w) (place_bound p (q % 256) (n % p) (omega arith) (mod-lt n (pow_pos w))))

pub of_big_endian-big_endian_mod : (w n : ℕ) → of_big_endian (big_endian w n) ≡ n % 256 ^ w
unfolding big_endian of_big_endian
of_big_endian-big_endian_mod zero n = omega arith
of_big_endian-big_endian_mod (suc w) n =
    rw (length-big_endian, of_big_endian-big_endian_mod w n, split_byte)

-- What fits `w` bytes is read back.
pub of_big_endian-big_endian : (w n : ℕ) → n < 256 ^ w → of_big_endian (big_endian w n) ≡ n
of_big_endian-big_endian w n h = rw of_big_endian-big_endian_mod (mod-eq_of_lt h)

same_place : (p x y r s : ℕ) → x ≡ y → x * p + r < y * p + s → r < s
same_place p x y r s e h = let k = rw e at h in omega arith

pub byte_order :
    (p x y r s : ℕ) → r < p → s < p → x * p + r < y * p + s → (x < y) ⊎ ((x ≡ y) × (r < s))
byte_order p x y r s hr hs h = elim (dec_lt x y) [
  | yes l ↦ inl l
  | no g ↦ elim (dec_lt y x) [
    | yes l ↦ absurd (omega (arith, mul-le-mul_right p l))
    | no k ↦ inr (omega arith, same_place p x y r s (omega arith) h)
  ]
]

big_endian-Before_mod :
    (w a b : ℕ) → a % 256 ^ w < b % 256 ^ w → Before (big_endian w a) (big_endian w b)
unfolding big_endian
big_endian-Before_mod zero a b h = absurd (omega arith)
big_endian-Before_mod (suc w) a b h =
    elim (byte_order (256 ^ w) (a / 256 ^ w % 256) (b / 256 ^ w % 256) (a % 256 ^ w) (b % 256 ^ w)
      (mod-lt a (pow_pos w)) (mod-lt b (pow_pos w)) (rw (split_byte, split_byte) at h)) [
        | inl l ↦ inl l
        | inr (e, l) ↦ inr (e, big_endian-Before_mod w a b l)
      ]

-- Byte order is the numbers' order.
pub big_endian-Before : (w a b : ℕ) → a < b → b < 256 ^ w → Before (big_endian w a) (big_endian w b)
big_endian-Before w a b h k =
    big_endian-Before_mod w a b
      (rw (mod-eq_of_lt k, mod-eq_of_lt {n = a} {m = 256 ^ w} (omega arith)) h)
