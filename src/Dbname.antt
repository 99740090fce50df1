-- ===== src/Dbname.antt =====
-- internal/dbname/dbname.go: names of accounts and databases. A name is its bytes; a rune outside
-- ASCII is refused like each of its bytes.
use sapedb.Base.{
  ℕ, ◌<◌, ◌≤◌, ◌≡◌, arith, Bool, true, false, not, ◌&&◌, ◌||◌, List, [], ◌∷◌, length, ltb, leb,
  ◌==◌, if◌then◌else◌, Result, ok, err,
}
use sapedb.Base.Lex.{key_eq}
mod Tests

pub data NameError : Type 0 where
  empty too_long directory path_separator bad_character : NameError

-- `strings.ContainsAny(name, "/\\:\x00")`
unfoldable pub has_path_separator : List ℕ → Bool
has_path_separator [] = false
has_path_separator (b ∷ name) = (b == 47 || b == 92 || b == 58 || b == 0) || has_path_separator name

unfoldable pub usable_rune : ℕ → Bool
usable_rune b =
    (leb 97 b && leb b 122)
    || (leb 65 b && leb b 90)
    || (leb 48 b && leb b 57)
    || (b == 45 || b == 95 || b == 46)

-- The loop over the name.
unfoldable pub all_usable : List ℕ → Bool
all_usable [] = true
all_usable (b ∷ name) = if usable_rune b then all_usable name else false

unfoldable pub check : List ℕ → Result NameError (Unit {0})
check name =
    if length name == 0
    then err empty
    else if ltb 64 (length name)
    then err too_long
    else if key_eq name (46 ∷ []) || key_eq name (46 ∷ 46 ∷ [])
    then err directory
    else if has_path_separator name
    then err path_separator
    else if all_usable name
    then ok tt
    else err bad_character

-- Which of the two names is refused, and why.
pub data PairError : Type 0 where
  bad_account bad_database : NameError → PairError

unfoldable pub check_pair : List ℕ → List ℕ → Result PairError (Unit {0})
check_pair account db = elim (check account) [
  | err e ↦ err (bad_account e)
  | ok v ↦ elim (check db) [ err e ↦ err (bad_database e) | ok w ↦ ok tt ]
]

-- A name that is accepted stays in its directory: it is no path, and not empty.
pub check-fine :
    (name : List ℕ)
    → check name ≡ ok tt
    → (0 < length name)
      × (length name ≤ 64)
      × (has_path_separator name ≡ false)
      × (key_eq name (46 ∷ 46 ∷ []) ≡ false)
      × (all_usable name ≡ true)
unfolding check
check-fine name h = ground arith
