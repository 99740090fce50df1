-- ===== src/Ulid/Order.antt =====
-- The order of the identifiers of internal/ulid/ulid.go.
use sapedb.Base.{
  ℕ, ◌+◌, ◌*◌, ◌/◌, ◌%◌, ◌^◌, ◌≤◌, ◌<◌, ◌≡◌, refl, sym, ap, ◌∙◌, Bool, true, false, not, inl, inr,
  List, [], ◌∷◌, length, All, ltb, ◌==◌, if◌then◌else◌, Result, ok, err, arith, dec_lt, Bool-cases,
  ltb→lt,
}
use native.Mathlib.Nat.{mul-le-mul_right, mod-eq_of_lt, pow-suc, add-mul}
use sapedb.Base.Bytes.{IsByte, of_big_endian}
use sapedb.Ulid.{
  Error, exhausted, Source, Ident, carry, increment, after_increment, after_draw, next,
}

-- What `write` writes in base 32, most significant digit first: 48 bits and 80.
abbrev pub worth : ℕ → List ℕ → ℕ
worth stamp random = stamp * 256 ^ 10 + of_big_endian random

pub record IsSeed (seed : List ℕ) : Type 0 where
  pub ten : length seed ≡ 10
  pub bytes : All IsByte seed

length-carry : (bs : List ℕ) → length (carry bs).1 ≡ length bs
unfolding carry
length-carry [] = refl
length-carry (b ∷ bs) = ground (arith, length-carry bs)

carry-IsByte : (bs : List ℕ) → All IsByte bs → All IsByte (carry bs).1
unfolding carry
carry-IsByte [] h = tt
carry-IsByte (b ∷ bs) (h, hs) = elim (Bool-cases (carry bs).0) [
  | inl e ↦ rw e (omega arith, carry-IsByte bs hs)
  | inr e ↦ rw e (h, carry-IsByte bs hs)
]

top_byte :
    (b place low : ℕ)
    → b < 256
    → (b + 1) % 256 * place + (if (b + 1) % 256 == 0 then place * 256 else 0) + low
      ≡ b * place + place + low
top_byte b place low h = elim (dec_lt b 255) [
  | yes l ↦
      rw (mod-eq_of_lt {n = b + 1} {m = 256} (omega arith)) (ground (arith, add-mul b 1 place))
  | no k ↦ let full : b ≡ 255 = omega arith in rw full (omega arith)
]

-- Where the loop returns, the bytes are worth one more; where it does not, they are all zero.
of_big_endian-carry :
    (bs : List ℕ)
    → All IsByte bs
    → of_big_endian (carry bs).1 + (if (carry bs).0 then 256 ^ length bs else 0)
      ≡ of_big_endian bs + 1
unfolding carry of_big_endian
of_big_endian-carry [] h = refl
of_big_endian-carry (b ∷ bs) (h, hs) =
    let rest = of_big_endian-carry bs hs in
    elim (Bool-cases (carry bs).0) [
      | inr e ↦ let rest' = rw e at rest in rw (e, length-carry bs) (omega arith)
      | inl e ↦
          let rest' = rw e at rest in
          rw (e, length-carry bs, pow-suc 256 (length bs))
            (omega (arith, top_byte b (256 ^ length bs) (of_big_endian (carry bs).1) h))
    ]

of_big_endian_lt : (bs : List ℕ) → All IsByte bs → of_big_endian bs < 256 ^ length bs
unfolding of_big_endian
of_big_endian_lt [] h = omega arith
of_big_endian_lt (b ∷ bs) (h, hs) =
    rw (pow-suc 256 (length bs))
      (omega (arith, of_big_endian_lt bs hs, mul-le-mul_right (256 ^ length bs) h))

pub seed_lt : (seed : List ℕ) → IsSeed seed → of_big_endian seed < 256 ^ 10
seed_lt seed h = rw h.ten at (of_big_endian_lt seed h.bytes)

carry-IsSeed : (seed : List ℕ) → IsSeed seed → IsSeed (carry seed).1
carry-IsSeed seed h = record { ten = length-carry seed ∙ h.ten; bytes = carry-IsByte seed h.bytes }

-- An identifier is worth more than the last one and is the source's new state; an error keeps the
-- time of the last one.
abbrev pub Increased : Source → Result Error Ident → Source → Type 0
Increased s (ok id) t =
    (worth s.last s.seed < worth id.stamp id.random)
    × (t.last ≡ id.stamp)
    × (t.seed ≡ id.random)
    × IsSeed t.seed
Increased s (err e) t = (t.last ≡ s.last) × IsSeed t.seed

after_draw-Increased :
    (stamp : ℕ) (s : Source) (drawn : Bool × List ℕ)
    → IsSeed s.seed
    → IsSeed drawn.1
    → s.last < stamp
    → Increased s (after_draw stamp s drawn).0 (after_draw stamp s drawn).1
after_draw-Increased stamp s (false, seed) h k later = (refl, k)
after_draw-Increased stamp s (true, seed) h k later =
    (omega (arith, seed_lt s.seed h), refl, refl, k)

stepped_more :
    (seed : List ℕ)
    → IsSeed seed
    → (carry seed).0 ≡ false
    → of_big_endian seed < of_big_endian (carry seed).1
stepped_more seed h e = let w = rw e at (of_big_endian-carry seed h.bytes) in omega arith

increment-Increased :
    (s : Source)
    → IsSeed s.seed
    → Increased s
        (after_increment s (increment s.seed).0 (increment s.seed).1).0
        (after_increment s (increment s.seed).0 (increment s.seed).1).1
unfolding increment
increment-Increased s h = elim (Bool-cases (carry s.seed).0) [
  | inl e ↦ rw e (refl, carry-IsSeed s.seed h)
  | inr e ↦ rw e (omega (arith, stepped_more s.seed h e), refl, refl, carry-IsSeed s.seed h)
]

pub next-Increased :
    (stamp : ℕ) (drawn : Bool × List ℕ) (s : Source)
    → IsSeed s.seed
    → IsSeed drawn.1
    → Increased s (next stamp drawn s).0 (next stamp drawn s).1
unfolding next
next-Increased stamp drawn s h k = elim (Bool-cases (not (stamp / 2 ^ 48 == 0))) [
  | inl e ↦ rw e (refl, h)
  | inr e ↦ rw e (elim (Bool-cases (ltb s.last stamp)) [
    | inl f ↦ rw f (after_draw-Increased stamp s drawn h k (ltb→lt s.last stamp f))
    | inr f ↦ rw f (increment-Increased s h)
  ])
]

next-step :
    (stamp : ℕ) (drawn : Bool × List ℕ) (s : Source)
    → stamp < 2 ^ 48
    → stamp ≤ s.last
    → next stamp drawn s ≡ after_increment s (increment s.seed).0 (increment s.seed).1
unfolding next
next-step stamp drawn s small past =
    let in_range : (not (stamp / 2 ^ 48 == 0)) ≡ false = ground arith in
    let same : ltb s.last stamp ≡ false = ground arith in rw (in_range, same) refl

-- The bytes after the last identifier of a millisecond.
wrapped :
    (seed : List ℕ)
    → IsSeed seed
    → (carry seed).0 ≡ true
    → (of_big_endian (carry seed).1 ≡ 0) × (of_big_endian seed + 1 ≡ 256 ^ 10)
wrapped seed h e =
    let w = rw (e, h.ten) at (of_big_endian-carry seed h.bytes) in
    (omega (arith, seed_lt seed h), omega (arith, seed_lt seed h))

after_wrap :
    (z : List ℕ)
    → IsSeed z
    → of_big_endian z ≡ 0
    → ((carry z).0 ≡ false) × (of_big_endian (carry z).1 ≡ 1)
after_wrap z h zero_worth = elim (Bool-cases (carry z).0) [
  | inl e ↦ absurd (omega (arith, (wrapped z h e).1))
  | inr e ↦ let w = rw e at (of_big_endian-carry z h.bytes) in (e, omega arith)
]

step_answers :
    (s : Source)
    → (carry s.seed).0 ≡ false
    → (after_increment s (increment s.seed).0 (increment s.seed).1).0
      ≡ ok (record { stamp = s.last; random = (carry s.seed).1 })
unfolding increment
step_answers s e = rw e refl

step_spent :
    (s : Source)
    → (after_increment s (increment s.seed).0 (increment s.seed).1).0 ≡ err exhausted
    → ((carry s.seed).0 ≡ true)
      × ((after_increment s (increment s.seed).0 (increment s.seed).1).1
          ≡ record s { seed = (carry s.seed).1 })
unfolding increment
step_spent s spent = elim (Bool-cases (carry s.seed).0) [
  | inl e ↦ (e, rw e refl)
  | inr e ↦ (let w = rw e at spent in cc w)
]

-- Once a millisecond is used up, `increment` has wrapped the random part round, and `Next` does not
-- stay with its error: asked again within that millisecond it answers an identifier that is worth
-- less than the last one it gave away.
pub exhausted_wraps :
    (stamp again : ℕ) (drawn redrawn : Bool × List ℕ) (s : Source)
    → IsSeed s.seed
    → stamp < 2 ^ 48
    → stamp ≤ s.last
    → again < 2 ^ 48
    → again ≤ s.last
    → (next stamp drawn s).0 ≡ err exhausted
    → (id : Ident) × ((next again redrawn (next stamp drawn s).1).0 ≡ ok id)
      × (worth id.stamp id.random < worth s.last s.seed)
exhausted_wraps stamp again drawn redrawn s h small past small' past' spent =
    let first = next-step stamp drawn s small past in
    let (on, after) = step_spent s (ap (λ r. r.0) (sym first) ∙ spent) in
    let t : Source = record s { seed = (carry s.seed).1 } in
    let (none_left, most) = wrapped s.seed h on in
    let (off, one) = after_wrap t.seed (carry-IsSeed s.seed h) none_left in
    (
      record { stamp = s.last; random = (carry t.seed).1 },
      ap (λ u. (next again redrawn u).0) (ap (λ r. r.1) first ∙ after)
          ∙ ap (λ r. r.0) (next-step again redrawn t small' past')
          ∙ step_answers t off,
      omega (arith, one, most),
    )
