-- ===== src/Store/Partition.antt =====
-- internal/store/partition.go: what a declared partition may say, and which
-- partitions are due. A word that the code does not know is `other_division` or `other_period` of its
-- bytes, and the empty one `no_period`.
use sapedb.Base.{
  ℕ, ◌-◌, ◌<◌, ◌≡◌, Bool, true, false, not, ◌||◌, List, [], ◌++◌, length, take, drop,
  take-append-drop, length-drop, ltb, leb, ◌==◌, if◌then◌else◌, Result, ok, err, arith,
}
use sapedb.Base.Int.{ℤ, pos, negsuc}

pub data Division : Type 0 where
  by_time by_hash : Division
  other_division : List ℕ → Division

pub data Period : Type 0 where
  no_period every_day every_month every_year : Period
  other_period : List ℕ → Period

pub record Partition : Type 0 where
  pub by : Division
  pub every : Period
  pub keep : ℤ
  pub into : ℤ

-- Of a collection's key, what `check` reads: whether it is a text, and one made by ulid.
pub record KeySpec : Type 0 where
  pub is_string : Bool
  pub is_ulid : Bool

pub data DeclarationError : Type 0 where
  no_ulid_key bad_period bad_keep divided_time too_few too_many aged_hash bad_division :
      DeclarationError

-- `n < 0`, `n == 0`, `n < m` and `m < n` for a number of the code's own.
abbrev pub is_negative : ℤ → Bool
is_negative (pos n) = false
is_negative (negsuc n) = true

abbrev pub is_zero : ℤ → Bool
is_zero (pos n) = n == 0
is_zero (negsuc n) = false

abbrev pub is_under : ℤ → ℕ → Bool
is_under (pos n) m = ltb n m
is_under (negsuc n) m = true

abbrev pub is_over : ℤ → ℕ → Bool
is_over (pos n) m = ltb m n
is_over (negsuc n) m = false

unfoldable pub known_period : Period → Bool
known_period every_day = true
known_period every_month = true
known_period every_year = true
known_period no_period = false
known_period (other_period word) = false

unfoldable pub is_no_period : Period → Bool
is_no_period no_period = true
is_no_period _ = false

unfoldable pub check_time : Partition → KeySpec → Result DeclarationError (Unit {0})
check_time p key =
    if not key.is_string || not key.is_ulid
    then err no_ulid_key
    else if not (known_period p.every)
    then err bad_period
    else if is_negative p.keep
    then err bad_keep
    else if not (is_zero p.into)
    then err divided_time
    else ok tt

unfoldable pub check_hash : Partition → Result DeclarationError (Unit {0})
check_hash p =
    if is_under p.into 2
    then err too_few
    else if is_over p.into 4096
    then err too_many
    else if not (is_no_period p.every) || not (is_zero p.keep)
    then err aged_hash
    else ok tt

-- `check`, behind its switch.
unfoldable pub check_division : Division → Partition → KeySpec → Result DeclarationError (Unit {0})
check_division by_time p key = check_time p key
check_division by_hash p key = check_hash p
check_division (other_division word) p key = err bad_division

unfoldable pub check_partition : Partition → KeySpec → Result DeclarationError (Unit {0})
check_partition p key = check_division p.by p key

-- `here[:len(here)-p.Keep]`, and nothing where no partition is due.
unfoldable pub expired_past : ℤ → List (List ℕ) → List (List ℕ)
expired_past (negsuc n) here = []
expired_past (pos n) here =
    if n == 0 || leb (length here) n then [] else take (length here - n) here

unfoldable pub expired_by : Division → ℤ → List (List ℕ) → List (List ℕ)
expired_by by_time keep here = expired_past keep here
expired_by by_hash keep here = []
expired_by (other_division word) keep here = []

unfoldable pub expired : Partition → List (List ℕ) → List (List ℕ)
expired p here = expired_by p.by p.keep here

-- What expires is the front of the partitions there are, and as many are left as are to be kept.
pub expired_past-rest :
    (n : ℕ) (here : List (List ℕ))
    → 0 < n
    → n < length here
    → (rest : List (List ℕ)) × (expired_past (pos n) here ++ rest ≡ here) × (length rest ≡ n)
unfolding expired_past
expired_past-rest n here p l = (
  drop (length here - n) here,
  rw kept (take-append-drop (length here - n) here),
  omega (arith, length-drop (length here - n) here),
)
  where
    kept : (n == 0 || leb (length here) n) ≡ false
    kept = ground arith
