-- ===== src/Ulid/Text/Writing.antt =====
-- What `write` has laid out after each byte.
use sapedb.Base.{
  ℕ, zero, suc, ◌+◌, ◌*◌, ◌/◌, ◌%◌, ◌^◌, ◌<◌, ◌≡◌, refl, sym, ap, ◌∙◌, List, [], ◌∷◌, map, length,
  All, arith,
}
use native.Mathlib.Nat.{pow-suc, add-mul, mul_assoc, mul_comm, mod-lt, mod-mod}
use native.Mathlib.Numerals.{unary_clauses}
use sapedb.Base.Bytes.{IsByte, of_big_endian}
use sapedb.Ulid.Text.{character, Written, emit, write_bytes}
use sapedb.Ulid.Text.Reading.{IsDigit, of_digits}

character-mod : (bits : ℕ) → character (bits % 32) ≡ character bits
unfolding character
character-mod bits = rw (character, mod-mod bits 32) refl

-- `out` holds the digits of the low end of `value`, and `bits` the `held` bits above them, of
-- `place` values in all.
pub record Laid (value width place : ℕ) (w : Written) : Type 0 where
  pub digits : List ℕ
  pub out_is : w.out ≡ map character digits
  pub small : All IsDigit digits
  pub bits_lt : w.bits < 2 ^ w.held
  pub width_is : w.held + 5 * length digits ≡ width
  pub place_is : 2 ^ w.held * 32 ^ length digits ≡ place
  pub value_is : w.bits * 32 ^ length digits + of_digits digits ≡ value

five_up : (n : ℕ) → 2 ^ suc (suc (suc (suc (suc n)))) ≡ 2 ^ n * 32
five_up n =
    rw
      (
        pow-suc 2 (suc (suc (suc (suc n)))),
        pow-suc 2 (suc (suc (suc n))),
        pow-suc 2 (suc (suc n)),
        pow-suc 2 (suc n),
        pow-suc 2 n,
      )
      (omega arith)

moved : (a place : ℕ) → a * (place * 32) ≡ a * 32 * place
moved a place = ground (arith, mul_assoc a 32 place, mul_comm 32 place)

the_digits : (bits : ℕ) → bits / 32 * 32 + bits % 32 ≡ bits
the_digits bits = omega arith

split_digit :
    (bits place low : ℕ) → bits / 32 * (place * 32) + (bits % 32 * place + low) ≡ bits * place + low
split_digit bits place low = rw moved (
    omega
      (arith, add-mul (bits / 32 * 32) (bits % 32) place, ap (λ x. x * place) (the_digits bits)))

-- One round of the inner loop.
digit-Laid :
    (value width place held bits : ℕ) (out : List ℕ)
    → Laid value width place
        (record { bits = bits; held = suc (suc (suc (suc (suc held)))); out = out })
    → Laid value width place (record { bits = bits / 32; held = held; out = character bits ∷ out })
unfolding of_digits
digit-Laid value width place held bits out l = record {
  digits = bits % 32 ∷ l.digits;
  out_is = rw (character-mod bits) (ap (λ ds. character bits ∷ ds) l.out_is);
  small = (mod-lt bits (omega arith), l.small);
  bits_lt = omega (arith, five_up held, l.bits_lt);
  width_is = omega (arith, l.width_is);
  place_is = rw (pow-suc 32 (length l.digits)) (
      moved (2 ^ held) (32 ^ length l.digits)
      ∙ ap (λ x. x * 32 ^ length l.digits) (sym (five_up held))
      ∙ l.place_is);
  value_is =
      rw (pow-suc 32 (length l.digits))
        (split_digit bits (32 ^ length l.digits) (of_digits l.digits) ∙ l.value_is);
}

pub emit-Laid :
    (value width place held bits : ℕ) (out : List ℕ)
    → Laid value width place (record { bits = bits; held = held; out = out })
    → Laid value width place (emit held bits out)
unfolding emit
emit-Laid value width place (suc (suc (suc (suc (suc held))))) bits out l =
    emit-Laid value width place held (bits / 32) (character bits ∷ out)
      (digit-Laid value width place held bits out l)
emit-Laid value width place zero bits out l = l
emit-Laid value width place (suc zero) bits out l = l
emit-Laid value width place (suc (suc zero)) bits out l = l
emit-Laid value width place (suc (suc (suc zero))) bits out l = l
emit-Laid value width place (suc (suc (suc (suc zero)))) bits out l = l

emit-held_lt : (held bits : ℕ) (out : List ℕ) → (emit held bits out).held < 5
unfolding emit
emit-held_lt (suc (suc (suc (suc (suc held))))) bits out =
    emit-held_lt held (bits / 32) (character bits ∷ out)
emit-held_lt zero bits out = omega arith
emit-held_lt (suc zero) bits out = omega arith
emit-held_lt (suc (suc zero)) bits out = omega arith
emit-held_lt (suc (suc (suc zero))) bits out = omega arith
emit-held_lt (suc (suc (suc (suc zero)))) bits out = omega arith

-- Up to four bits are held when a byte comes.
shifted :
    (held b bits : ℕ)
    → held < 5
    → b < 256
    → bits < 2 ^ held
    → (b * 2 ^ held % 2 ^ 16 ≡ b * 2 ^ held) × (bits + b * 2 ^ held < 2 ^ (held + 8))
shifted zero b bits h k l = (omega arith, omega arith)
shifted (suc zero) b bits h k l = (omega arith, omega arith)
shifted (suc (suc zero)) b bits h k l = (omega arith, omega arith)
shifted (suc (suc (suc zero))) b bits h k l = (omega arith, omega arith)
shifted (suc (suc (suc (suc zero)))) b bits h k l = (omega arith, omega arith)
shifted (suc (suc (suc (suc (suc held))))) b bits h k l = absurd (omega arith)

eight_up : (n : ℕ) → 2 ^ (n + 8) ≡ 2 ^ n * 256
eight_up n = simp unary_clauses (omega arith)

byte-Laid :
    (value width place b : ℕ) (w : Written)
    → w.held < 5
    → b < 256
    → Laid value width place w
    → Laid
        (b * place + value)
        (width + 8)
        (place * 256)
        (record { bits = w.bits + b * 2 ^ w.held % 2 ^ 16; held = w.held + 8; out = w.out })
byte-Laid value width place b w h k l =
    let fits = shifted w.held b w.bits h k l.bits_lt in
    record {
      digits = l.digits;
      out_is = l.out_is;
      small = l.small;
      bits_lt = rw fits.0 fits.1;
      width_is = omega (arith, l.width_is);
      place_is = rw eight_up (
          omega (
            arith,
            mul_assoc (2 ^ w.held) 256 (32 ^ length l.digits),
            mul_assoc (2 ^ w.held) (32 ^ length l.digits) 256,
            l.place_is,
            ap (λ x. x * 256) l.place_is,
            ap (λ x. 2 ^ w.held * x) (mul_comm 256 (32 ^ length l.digits)),
          ));
      value_is = rw fits.0 (
          omega (
            arith,
            add-mul w.bits (b * 2 ^ w.held) (32 ^ length l.digits),
            mul_assoc b (2 ^ w.held) (32 ^ length l.digits),
            ap (λ x. b * x) l.place_is,
            l.value_is,
          ));
    }

wider : (n : ℕ) → 8 * suc n ≡ 8 * n + 8
wider n = omega arith

pub write_bytes-Laid :
    (bs : List ℕ)
    → All IsByte bs
    → Laid (of_big_endian bs) (8 * length bs) (256 ^ length bs) (write_bytes bs)
      × ((write_bytes bs).held < 5)
unfolding write_bytes of_big_endian of_digits
write_bytes-Laid [] h = (
  record {
    digits = [];
    out_is = refl;
    small = tt;
    bits_lt = omega arith;
    width_is = refl;
    place_is = refl;
    value_is = refl;
  },
  omega arith,
)
write_bytes-Laid (b ∷ bs) (h, hs) =
    let w = write_bytes bs in
    let (before, few) = write_bytes-Laid bs hs in
    let bits = w.bits + b * 2 ^ w.held % 2 ^ 16 in
    (
      rw (pow-suc 256 (length bs), wider (length bs))
          (emit-Laid (b * 256 ^ length bs + of_big_endian bs) _ _ (w.held + 8) bits w.out
            (byte-Laid (of_big_endian bs) (8 * length bs) (256 ^ length bs) b w few h before)),
      emit-held_lt (w.held + 8) bits w.out,
    )
