-- ===== src/Ulid/Text/RoundTrip.antt =====
-- `Time` of what `write` writes, and the order of what it writes.
use sapedb.Base.{
  ℕ, suc, ◌+◌, ◌*◌, ◌/◌, ◌%◌, ◌^◌, ◌<◌, ◌≡◌, refl, sym, ap, ◌∙◌, List, [], ◌∷◌, ◌++◌, map, length,
  length-map, All, All-append, append-nil, Ordering, Bool, true, false, not, Bool-cases, inl, inr,
  ltb, ◌==◌, Result, ok, err, arith,
}
use native.Mathlib.Nat.{mod-lt}
use sapedb.Base.Bytes.{IsByte, of_big_endian, lex, lex-Before}
use sapedb.Ulid.{Error, Source, Ident, increment, after_increment, after_draw, next}
use sapedb.Ulid.Order.{IsSeed, worth, seed_lt, next-Increased}
use sapedb.Ulid.Text.{
  size, character, Written, write_bytes, pad, stamp_bytes, finish, write, time_of,
}
use sapedb.Ulid.Text.Reading.{IsDigit, of_digits, stamp_loop-map, map-Before}
use sapedb.Ulid.Text.Writing.{Laid, write_bytes-Laid}

stamp_bytes-IsByte : (stamp : ℕ) → All IsByte (stamp_bytes stamp)
unfolding stamp_bytes
stamp_bytes-IsByte stamp = (
  mod-lt (stamp / 2 ^ 40) (omega arith),
  (
    mod-lt (stamp / 2 ^ 32) (omega arith),
    (
      mod-lt (stamp / 2 ^ 24) (omega arith),
      (
        mod-lt (stamp / 2 ^ 16) (omega arith),
        (mod-lt (stamp / 2 ^ 8) (omega arith), (mod-lt stamp (omega arith), tt)),
      ),
    ),
  ),
)

of_big_endian-stamp :
    (stamp : ℕ) (seed : List ℕ)
    → stamp < 2 ^ 48
    → length seed ≡ 10
    → of_big_endian (stamp_bytes stamp ++ seed) ≡ worth stamp seed
unfolding stamp_bytes of_big_endian
of_big_endian-stamp stamp seed h e = rw e (omega arith)

-- What is written are the characters of 26 digits in base 32.
record Digits (value : ℕ) (id : List ℕ) : Type 0 where
  digits : List ℕ
  id_is : id ≡ map character digits
  small : All IsDigit digits
  number : length digits ≡ size
  value_is : of_digits digits ≡ value

-- The last three of the 128 bits are the first digit.
finish-Digits :
    (value place : ℕ) (w : Written) → Laid value 128 place w → w.held < 5 → Digits value (finish w)
unfolding finish pad of_digits
finish-Digits value place w l few =
    let count : length l.digits ≡ 25 = omega (arith, l.width_is) in
    let three : w.held ≡ 3 = omega (arith, l.width_is) in
    let full : length w.out ≡ 25 = rw l.out_is (length-map l.digits character ∙ count) in
    let first = rw three at l.bits_lt in
    rw full (record {
      digits = w.bits ∷ l.digits;
      id_is = ap (λ ds. character w.bits ∷ ds) l.out_is;
      small = (omega arith, l.small);
      number = ap suc count;
      value_is = l.value_is;
    })

raw_length : (stamp : ℕ) (seed : List ℕ) → IsSeed seed → length (stamp_bytes stamp ++ seed) ≡ 16
unfolding stamp_bytes
raw_length stamp seed s = rw s.ten refl

write-Digits :
    (stamp : ℕ) (seed : List ℕ)
    → stamp < 2 ^ 48
    → IsSeed seed
    → Digits (worth stamp seed) (write stamp seed)
unfolding write
write-Digits stamp seed h s =
    let bs = stamp_bytes stamp ++ seed in
    let (l, few) =
      write_bytes-Laid bs
        (All-append IsByte (stamp_bytes stamp) seed (stamp_bytes-IsByte stamp) s.bytes) in
    let sixteen : length bs ≡ 16 = raw_length stamp seed s in
    let whole : Laid (of_big_endian bs) 128 (256 ^ 16) (write_bytes bs) = rw sixteen at l in
    rw (of_big_endian-stamp stamp seed h s.ten) at
      (finish-Digits (of_big_endian bs) (256 ^ 16) (write_bytes bs) whole few)

high_digits :
    (stamp place : ℕ) (seed : List ℕ)
    → stamp < 2 ^ 48
    → IsSeed seed
    → (0 * place + worth stamp seed) / 32 ^ 16 % 2 ^ 48 ≡ stamp
high_digits stamp place seed h s = let low = seed_lt seed s in omega arith

-- `Time` reads back the millisecond of what `write` wrote, where the millisecond fits 48 bits and
-- the random part is ten bytes.
pub time_of-write :
    (stamp : ℕ) (seed : List ℕ)
    → stamp < 2 ^ 48
    → IsSeed seed
    → time_of (write stamp seed) ≡ ok stamp
unfolding time_of
time_of-write stamp seed h s =
    let d = write-Digits stamp seed h s in
    let same = length-map d.digits character ∙ d.number in
    let read = stamp_loop-map 10 16 0 0 d.digits d.small d.number (omega arith) in
    rw (d.id_is, same, read, d.value_is) (ap ok (high_digits stamp (32 ^ length d.digits) seed h s))

lex-write :
    (stamp later : ℕ) (seed next_seed : List ℕ)
    → stamp < 2 ^ 48
    → later < 2 ^ 48
    → IsSeed seed
    → IsSeed next_seed
    → worth stamp seed < worth later next_seed
    → lex (write stamp seed) (write later next_seed) ≡ Ordering.lt
lex-write stamp later seed next_seed h k s t l =
    let a = write-Digits stamp seed h s in
    let b = write-Digits later next_seed k t in
    let less : of_digits a.digits < of_digits b.digits = rw (a.value_is, b.value_is) l in
    let before = map-Before a.digits b.digits a.small b.small (a.number ∙ sym b.number) less in
    rw
      (
        a.id_is,
        b.id_is,
        sym (append-nil (map character a.digits)),
        sym (append-nil (map character b.digits)),
      )
      (lex-Before (map character a.digits) (map character b.digits) [] [] before)

InRange : Result Error Ident → Type 0
InRange (ok id) = id.stamp < 2 ^ 48
InRange (err e) = Unit {0}

draw-InRange :
    (stamp : ℕ) (s : Source) (drawn : Bool × List ℕ)
    → stamp < 2 ^ 48
    → InRange (after_draw stamp s drawn).0
unfolding InRange
draw-InRange stamp s (false, seed) h = tt
draw-InRange stamp s (true, seed) h = h

increment-InRange :
    (s : Source) (stepped : Result Error (Unit {0})) (seed : List ℕ)
    → s.last < 2 ^ 48
    → InRange (after_increment s stepped seed).0
unfolding InRange
increment-InRange s (ok done) seed h = h
increment-InRange s (err e) seed h = tt

next-InRange :
    (stamp : ℕ) (drawn : Bool × List ℕ) (s : Source)
    → s.last < 2 ^ 48
    → InRange (next stamp drawn s).0
unfolding next InRange
next-InRange stamp drawn s h = elim (Bool-cases (not (stamp / 2 ^ 48 == 0))) [
  | inl e ↦ rw e tt
  | inr e ↦
      let small : stamp < 2 ^ 48 = ground arith in
      rw e (elim (Bool-cases (ltb s.last stamp)) [
        | inl f ↦ rw f (draw-InRange stamp s drawn small)
        | inr f ↦ rw f (increment-InRange s (increment s.seed).0 (increment s.seed).1 h)
      ])
]

-- Where the last millisecond fits 48 bits, and the seed and the bytes drawn are ten bytes each, the
-- text of an identifier that Next answers sorts behind the text of the source's last millisecond
-- and seed, whatever the clock says.
pub next_sorts :
    (stamp : ℕ) (drawn : Bool × List ℕ) (s : Source) (id : Ident)
    → IsSeed s.seed
    → IsSeed drawn.1
    → s.last < 2 ^ 48
    → (next stamp drawn s).0 ≡ ok id
    → lex (write s.last s.seed) (write id.stamp id.random) ≡ Ordering.lt
unfolding InRange
next_sorts stamp drawn s id h k l e =
    let (more, last, random, seed) = rw e at (next-Increased stamp drawn s h k) in
    lex-write s.last id.stamp s.seed id.random l (rw e at (next-InRange stamp drawn s l)) h
      (rw random at seed) more
