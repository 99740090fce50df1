-- ===== src/Ulid/Text.antt =====
-- The text of an identifier, of internal/ulid/ulid.go: `write`, `Time` and `index`. Characters are
-- their codes, and a time is its milliseconds.
use sapedb.Base.{
  ℕ, zero, suc, ◌+◌, ◌-◌, ◌*◌, ◌/◌, ◌%◌, ◌^◌, Bool, true, false, not, Option, none, some, List, [],
  ◌∷◌, ◌++◌, length, get_elem?, ltb, ◌==◌, if◌then◌else◌, Result, ok, err,
}
mod Reading
mod RoundTrip
mod Writing
mod Tests

abbrev size : ℕ
size = 26

-- The digits, and the letters but for I, L, O and U.
abbrev alphabet : List ℕ
alphabet =
    48 ∷ 49 ∷ 50 ∷ 51 ∷ 52 ∷ 53 ∷ 54 ∷ 55 ∷ 56 ∷ 57 ∷ 65 ∷ 66 ∷ 67 ∷ 68 ∷ 69 ∷ 70 ∷ 71 ∷ 72 ∷ 74
    ∷ 75 ∷ 77 ∷ 78 ∷ 80 ∷ 81 ∷ 82 ∷ 83 ∷ 84 ∷ 86 ∷ 87 ∷ 88 ∷ 89 ∷ 90 ∷ []

-- `alphabet[bits&0x1f]`, which is always in range.
unfoldable character : ℕ → ℕ
character bits = elim (get_elem? alphabet (bits % 32)) [ none ↦ 0 | some c ↦ c ]

-- The variables of `write`: `at` is what `out`, filled from its end, has left.
record Written : Type 0 where
  bits : ℕ
  held : ℕ
  out : List ℕ

-- The inner loop, on `held`.
unfoldable emit : ℕ → ℕ → List ℕ → Written
emit (suc (suc (suc (suc (suc held))))) bits out = emit held (bits / 32) (character bits ∷ out)
emit held bits out = record { bits = bits; held = held; out = out }

-- The outer loop, from the last byte. `bits` has `held` bits, so that the disjunction is a sum.
unfoldable write_bytes : List ℕ → Written
write_bytes [] = record { bits = 0; held = 0; out = [] }
write_bytes (b ∷ bs) =
    let w = write_bytes bs in emit (w.held + 8) (w.bits + b * 2 ^ w.held % 2 ^ 16) w.out

-- `left` places are still to fill with the first character.
unfoldable pad : ℕ → List ℕ → List ℕ
pad zero out = out
pad (suc left) out = pad left (character 0 ∷ out)

unfoldable stamp_bytes : ℕ → List ℕ
stamp_bytes stamp =
    stamp / 2 ^ 40 % 256
    ∷ stamp / 2 ^ 32 % 256
    ∷ stamp / 2 ^ 24 % 256
    ∷ stamp / 2 ^ 16 % 256
    ∷ stamp / 2 ^ 8 % 256
    ∷ stamp % 256
    ∷ []

-- `write` behind its loop over the bytes.
unfoldable finish : Written → List ℕ
finish w =
    let left = size - length w.out in
    if ltb 0 left then pad (left - 1) (character w.bits ∷ w.out) else w.out

unfoldable write : ℕ → List ℕ → List ℕ
write stamp seed = finish (write_bytes (stamp_bytes stamp ++ seed))

data TextError : Type 0 where
  bad_size : ℕ → TextError
  not_base32 : ℕ → TextError

-- The loop of `index` over what is left of the alphabet, which starts at `i`.
unfoldable index_from : List ℕ → ℕ → ℕ → Option ℕ
index_from [] i c = none
index_from (x ∷ xs) i c = let rest = index_from xs (suc i) c in if x == c then some i else rest

-- None stands for -1.
unfoldable index : ℕ → Option ℕ
index c = index_from alphabet 0 c

-- The loop of `Time`: `left` rounds from the i-th character.
unfoldable stamp_loop : ℕ → ℕ → ℕ → List ℕ → Result TextError ℕ
stamp_loop zero i stamp id = ok stamp
stamp_loop (suc left) i stamp [] = ok stamp
stamp_loop (suc left) i stamp (c ∷ id) = elim (index c) [
  | none ↦ err (not_base32 i)
  | some value ↦ stamp_loop left (suc i) ((stamp * 32 + value) % 2 ^ 64) id
]

unfoldable time_of : List ℕ → Result TextError ℕ
time_of id =
    if length id == size
    then elim (stamp_loop 10 0 0 id) [ err e ↦ err e | ok stamp ↦ ok (stamp % 2 ^ 48) ]
    else err (bad_size (length id))
