-- ===== src/Ulid/Tests.antt =====
-- Runs of the identifier code, and its theorems at concrete inputs.
use sapedb.Base.{ℕ, ◌≡◌, ◌<◌, refl, true, List, [], ◌∷◌, ok, err, arith}
use sapedb.Ulid.{exhausted, Source, Ident, carry, increment, next}
use sapedb.Ulid.Order.{IsSeed, worth, exhausted_wraps}

abbrev seed_of : ℕ → ℕ → List ℕ
seed_of high low = high ∷ high ∷ high ∷ high ∷ high ∷ high ∷ high ∷ high ∷ high ∷ low ∷ []

abbrev early : Source
early = record { last = 5; seed = seed_of 0 255 }

abbrev spent : Source
spent = record { last = 5; seed = seed_of 255 255 }

spent_fails : (next 5 (true, []) spent).0 ≡ err exhausted
unfolding next increment carry
spent_fails = refl

spent-IsSeed : IsSeed (seed_of 255 255)
spent-IsSeed = record { ten = refl; bytes = ground arith }

exhausted_wraps_example :
    (id : Ident) × ((next 5 (true, []) (next 5 (true, []) spent).1).0 ≡ ok id)
    × (worth id.stamp id.random < worth 5 (seed_of 255 255))
exhausted_wraps_example =
    exhausted_wraps 5 5 (true, []) (true, []) spent spent-IsSeed (omega arith) (omega arith)
      (omega arith) (omega arith) spent_fails
