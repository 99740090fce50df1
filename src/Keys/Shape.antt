-- ===== src/Keys/Shape.antt =====
-- What `Encode` writes, in one piece: the bytes of a component, and when there are any.
use sapedb.Base.{
  ℕ, ◌^◌, ◌<◌, ◌≡◌, ◌≢◌, refl, ap, ◌∙◌, true, false, inl, inr, Option, none, some, List, [], ◌∷◌,
  ◌++◌, map, append_assoc, All, ◌==◌, if◌then◌else◌, ok, arith, take-append_self, drop-append_self,
  Bool-cases, bind_ok,
}
use sapedb.Base.Bytes.{IsByte, complement, big_endian, big_endian-IsByte}
use sapedb.Base.Int.{ℤ, pos, negsuc}
use sapedb.Float64.{is_nan, is_zero, of_int}
use sapedb.Float64.Exact.{IsExact, of_int_proper}
use sapedb.Keys.Codec.{
  Missing, skip, first, last, Field, Value, absent, null, bool, float64, float32, integer, text,
  other, tag_missing_first, tag_missing_last, tag_null, tag_true, tag_false, tag_number, tag_string,
  escape, escaped, terminator, sort_bits, encode_number, beyond_exact, encode_integer, encode_bytes,
  encode_string, encode, encode_field,
}

-- The float64 that a number is encoded as.
abbrev pub float_bits : Value → Option ℕ
float_bits (float64 b) = some b
float_bits (float32 b) = some b
float_bits (integer n) = some (of_int n)
float_bits _ = none

-- The value that a component is read back as: a number is a float64, and zero has no sign.
abbrev pub canonical_number : ℕ → Value
canonical_number b = float64 (if is_zero b then 0 else b)

abbrev pub canonical : Value → Value
canonical (float64 b) = canonical_number b
canonical (float32 b) = canonical_number b
canonical (integer n) = canonical_number (of_int n)
canonical v = v

-- What the Go types say of a value: 64 bits, and bytes.
abbrev pub IsValue : Value → Type 0
IsValue (float64 b) = b < 2 ^ 64
IsValue (float32 b) = b < 2 ^ 64
IsValue (text s) = All IsByte s
IsValue _ = Unit

-- The values that a component can hold.
abbrev pub IsIndexable : Missing → Value → Type 0
IsIndexable m absent = m ≢ skip
IsIndexable m (float64 b) = is_nan b ≡ false
IsIndexable m (float32 b) = is_nan b ≡ false
IsIndexable m (integer n) = IsExact n
IsIndexable m other = ⊥
IsIndexable m _ = Unit

unfoldable pub number_body : ℕ → List ℕ
number_body b = tag_number ∷ big_endian 8 (sort_bits (if is_zero b then 0 else b))

unfoldable pub escape_text : List ℕ → List ℕ
escape_text [] = escape ∷ terminator ∷ []
escape_text (c ∷ cs) =
    let rest = escape_text cs in if c == escape then escape ∷ escaped ∷ rest else c ∷ rest

abbrev pub missing_tag : Missing → ℕ
missing_tag first = tag_missing_first
missing_tag _ = tag_missing_last

-- The bytes of an indexable value.
unfoldable pub body : Missing → Value → List ℕ
body m absent = missing_tag m ∷ []
body m null = tag_null ∷ []
body m (bool true) = tag_true ∷ []
body m (bool false) = tag_false ∷ []
body m (float64 b) = number_body b
body m (float32 b) = number_body b
body m (integer n) = number_body (of_int n)
body m (text s) = tag_string ∷ escape_text s
body m other = []

encode_bytes_lem : (dst s : List ℕ) → encode_bytes dst s ≡ dst ++ escape_text s
unfolding encode_bytes escape_text
encode_bytes_lem dst [] = refl
encode_bytes_lem dst (c ∷ cs) = elim (Bool-cases (c == escape)) [
  | inl p ↦ rw p (encode_bytes_lem _ cs ∙ append_assoc dst _ _)
  | inr p ↦ rw p (encode_bytes_lem _ cs ∙ append_assoc dst _ _)
]

encode_string_lem : (dst s : List ℕ) → encode_string dst s ≡ dst ++ (tag_string ∷ escape_text s)
unfolding encode_string
encode_string_lem dst s = encode_bytes_lem _ s ∙ append_assoc dst _ _

encode_number_lem :
    (dst : List ℕ) (b : ℕ) → is_nan b ≡ false → encode_number dst b ≡ ok (dst ++ number_body b)
unfolding encode_number number_body
encode_number_lem dst b h = rw h (ap ok (append_assoc dst _ _))

beyond_exact_lem : (n : ℤ) → IsExact n → beyond_exact n ≡ false
unfolding beyond_exact
beyond_exact_lem (pos n) h = ground arith
beyond_exact_lem (negsuc n) h = ground arith

encode_integer_lem :
    (dst : List ℕ) (n : ℤ) → IsExact n → encode_integer dst n ≡ ok (dst ++ number_body (of_int n))
unfolding encode_integer
encode_integer_lem dst n h =
    rw (beyond_exact_lem n h) (encode_number_lem dst (of_int n) (of_int_proper n h).0)

-- An indexable value appends its bytes.
pub encode-body :
    (dst : List ℕ) (v : Value) (m : Missing)
    → IsIndexable m v
    → encode dst v m ≡ ok (dst ++ body m v)
unfolding encode body
encode-body dst absent skip h = absurd (h refl)
encode-body dst absent first h = refl
encode-body dst absent last h = refl
encode-body dst null m h = refl
encode-body dst (bool true) m h = refl
encode-body dst (bool false) m h = refl
encode-body dst (float64 b) m h = encode_number_lem dst b h
encode-body dst (float32 b) m h = encode_number_lem dst b h
encode-body dst (integer n) m h = encode_integer_lem dst n h
encode-body dst (text s) m h = ap ok (encode_string_lem dst s)
encode-body dst other m h = elim h [ ]

encode_number_inv :
    (dst : List ℕ) (b : ℕ) {out : List ℕ} → encode_number dst b ≡ ok out → is_nan b ≡ false
unfolding encode_number
encode_number_inv dst b h = ground arith

encode_integer_inv :
    (dst : List ℕ) (n : ℤ) {out : List ℕ} → encode_integer dst n ≡ ok out → IsExact n
unfolding encode_integer beyond_exact
encode_integer_inv dst (pos n) h = ground arith
encode_integer_inv dst (negsuc n) h = ground arith

-- Nothing else is encoded.
pub encode-IsIndexable :
    (dst : List ℕ) (v : Value) (m : Missing) (out : List ℕ)
    → encode dst v m ≡ ok out
    → IsIndexable m v
unfolding encode
encode-IsIndexable dst absent skip out h = cc
encode-IsIndexable dst absent first out h = λ p. cc
encode-IsIndexable dst absent last out h = λ p. cc
encode-IsIndexable dst null m out h = tt
encode-IsIndexable dst (bool b) m out h = tt
encode-IsIndexable dst (float64 b) m out h = encode_number_inv dst b h
encode-IsIndexable dst (float32 b) m out h = encode_number_inv dst b h
encode-IsIndexable dst (integer n) m out h = encode_integer_inv dst n h
encode-IsIndexable dst (text s) m out h = tt
encode-IsIndexable dst other m out h = cc

escape_text-IsByte : (s : List ℕ) → All IsByte s → All IsByte (escape_text s)
unfolding escape_text
escape_text-IsByte [] h = omega arith
escape_text-IsByte (c ∷ cs) (b, h) = ground (arith, escape_text-IsByte cs h)

pub body-IsByte : (m : Missing) (v : Value) → IsValue v → All IsByte (body m v)
unfolding body number_body
body-IsByte first absent h = omega arith
body-IsByte skip absent h = omega arith
body-IsByte last absent h = omega arith
body-IsByte m null h = omega arith
body-IsByte m (bool true) h = omega arith
body-IsByte m (bool false) h = omega arith
body-IsByte m (float64 b) h = (omega arith, big_endian-IsByte 8 _)
body-IsByte m (float32 b) h = (omega arith, big_endian-IsByte 8 _)
body-IsByte m (integer n) h = (omega arith, big_endian-IsByte 8 _)
body-IsByte m (text s) h = (omega arith, escape_text-IsByte s h)
body-IsByte m other h = tt

-- A component as it stands in a key: the bytes, complemented if the field descends.
unfoldable pub component : Field → Value → List ℕ
component f v = if f.descending then map complement (body f.missing v) else body f.missing v

pub encode_field-component :
    (dst : List ℕ) (v : Value) (f : Field)
    → IsIndexable f.missing v
    → encode_field dst v f ≡ ok (dst ++ component f v)
unfolding encode_field component
encode_field-component dst v f h =
    rw (encode-body dst v f.missing h, drop-append_self, take-append_self)
      (elim (Bool-cases f.descending) [ inl p ↦ rw p | inr p ↦ rw p ])

pub encode_field-IsIndexable :
    (dst : List ℕ) (v : Value) (f : Field) (out : List ℕ)
    → encode_field dst v f ≡ ok out
    → IsIndexable f.missing v
unfolding encode_field
encode_field-IsIndexable dst v f out h =
    let (c, e, _) = bind_ok _ (encode dst v f.missing) h in encode-IsIndexable dst v f.missing c e

number_body-canonical : (b : ℕ) → number_body (if is_zero b then 0 else b) ≡ number_body b
unfolding number_body is_zero
number_body-canonical b = ground arith

-- Values that are read back alike are written alike.
pub body-canonical : (m : Missing) (v : Value) → body m (canonical v) ≡ body m v
unfolding body
body-canonical m absent = refl
body-canonical m null = refl
body-canonical m (bool b) = refl
body-canonical m (float64 b) = number_body-canonical b
body-canonical m (float32 b) = number_body-canonical b
body-canonical m (integer n) = number_body-canonical (of_int n)
body-canonical m (text s) = refl
body-canonical m other = refl
