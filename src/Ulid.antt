-- ===== src/Ulid.antt =====
-- Identifiers of internal/ulid/ulid.go as the pair that `write` lays out: the millisecond and the
-- random part, which is ten bytes.
use sapedb.Base.{
  ℕ, zero, suc, ◌+◌, ◌*◌, ◌/◌, ◌%◌, ◌^◌, Bool, true, false, not, List, [], ◌∷◌, ltb, leb, ◌==◌,
  if◌then◌else◌, Result, ok, err,
}
use sapedb.Base.Bytes.{of_big_endian}
pub mod Order
mod Tests
mod Text

pub data Error : Type 0 where
  clock_too_late no_randomness exhausted : Error

pub record Source : Type 0 where
  pub last : ℕ
  pub seed : List ℕ

pub record Ident : Type 0 where
  pub stamp : ℕ
  pub random : List ℕ

-- One round of the loop of `increment` for each byte, from the last: whether it goes on, and the
-- bytes.
unfoldable pub carry : List ℕ → Bool × List ℕ
carry [] = (true, [])
carry (b ∷ bs) =
    let (on, rest) = carry bs in
    let stepped = (b + 1) % 256 in if on then (stepped == 0, stepped ∷ rest) else (false, b ∷ rest)

unfoldable pub increment : List ℕ → Result Error (Unit {0}) × List ℕ
increment seed = let (on, stepped) = carry seed in (if on then err exhausted else ok tt, stepped)

-- `Next` behind `increment`, and behind the reading of the random bytes. `drawn` says whether they
-- were read whole, and what is in `seed` then.
abbrev pub after_increment : Source → Result Error (Unit {0}) → List ℕ → Result Error Ident × Source
after_increment s (err e) seed = (err e, record s { seed = seed })
after_increment s (ok done) seed =
    (ok (record { stamp = s.last; random = seed }), record s { seed = seed })

abbrev pub after_draw : ℕ → Source → Bool × List ℕ → Result Error Ident × Source
after_draw stamp s (false, seed) = (err no_randomness, record s { seed = seed })
after_draw stamp s (true, seed) =
    (ok (record { stamp = stamp; random = seed }), record { last = stamp; seed = seed })

-- The clock and the random bytes are arguments.
unfoldable pub next : ℕ → Bool × List ℕ → Source → Result Error Ident × Source
next stamp drawn s =
    let (stepped, seed) = increment s.seed in
    if not (stamp / 2 ^ 48 == 0)
    then (err clock_too_late, s)
    else if ltb s.last stamp
    then after_draw stamp s drawn
    else after_increment s stepped seed
