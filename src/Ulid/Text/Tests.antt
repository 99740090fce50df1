-- ===== src/Ulid/Text/Tests.antt =====
-- Runs of the code for the text of an identifier.
use sapedb.Base.{ℕ, ◌≡◌, refl, List, [], ◌∷◌, ok, err, true, Ordering, arith}
use sapedb.Base.Bytes.{lex}
use sapedb.Ulid.{Source, Ident, carry, increment, next}
use sapedb.Ulid.Order.{IsSeed}
use sapedb.Ulid.Text.RoundTrip.{time_of-write, next_sorts}
use sapedb.Ulid.Text.{
  not_base32, bad_size, character, emit, write_bytes, pad, stamp_bytes, finish, write, index_from,
  index, stamp_loop, time_of,
}

abbrev all_ones : List ℕ
all_ones = 255 ∷ 255 ∷ 255 ∷ 255 ∷ 255 ∷ 255 ∷ 255 ∷ 255 ∷ 255 ∷ 255 ∷ []

abbrev counting : List ℕ
counting = 1 ∷ 2 ∷ 3 ∷ 4 ∷ 5 ∷ 6 ∷ 7 ∷ 8 ∷ 9 ∷ 10 ∷ []

time_is_read_back : time_of (write 1469918176385 counting) ≡ ok 1469918176385
unfolding time_of write finish write_bytes emit pad stamp_bytes stamp_loop index index_from
    character
time_is_read_back = refl

largest_is_read_back : time_of (write 281474976710655 all_ones) ≡ ok 281474976710655
unfolding time_of write finish write_bytes emit pad stamp_bytes stamp_loop index index_from
    character
largest_is_read_back = refl

short_is_refused : time_of (48 ∷ []) ≡ err (bad_size 1)
unfolding time_of
short_is_refused = refl

letter_is_refused : stamp_loop 10 0 0 (48 ∷ 85 ∷ []) ≡ err (not_base32 1)
unfolding stamp_loop index index_from
letter_is_refused = refl

counting-IsSeed : IsSeed counting
counting-IsSeed = record { ten = refl; bytes = ground arith }

time_of-write_example : time_of (write 1469918176385 counting) ≡ ok 1469918176385
time_of-write_example = time_of-write 1469918176385 counting (omega arith) counting-IsSeed

abbrev mid_second : Source
mid_second = record { last = 1469918176385; seed = counting }

abbrev stepped_id : Ident
stepped_id = record { stamp = 1469918176385; random = 1 ∷ 2 ∷ 3 ∷ 4 ∷ 5 ∷ 6 ∷ 7 ∷ 8 ∷ 9 ∷ 11 ∷ [] }

stepped_id_answered : (next 1469918176384 (true, counting) mid_second).0 ≡ ok stepped_id
unfolding next increment carry
stepped_id_answered = refl

next_sorts_example :
    lex (write 1469918176385 counting) (write stepped_id.stamp stepped_id.random) ≡ Ordering.lt
next_sorts_example =
    next_sorts 1469918176384 (true, counting) mid_second stepped_id counting-IsSeed counting-IsSeed
      (omega arith) stepped_id_answered
