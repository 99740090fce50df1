-- ===== src/Keys/Codec.antt =====
-- `Encode`, `EncodeKey`, `Decode` and `DecodeKey` of internal/keys/keys.go.
use sapedb.Base.{
  ℕ, suc, ◌+◌, ◌-◌, ◌^◌, Bool, true, false, ◌||◌, List, [], ◌∷◌, ◌++◌, map, length, take, drop, ltb,
  ◌==◌, if◌then◌else◌, Result, ok, err, ◌>>=◌,
}
use sapedb.Base.Bytes.{complement, big_endian, of_big_endian}
use sapedb.Base.Int.{ℤ, pos, negsuc}
use sapedb.Float64.{is_nan, is_zero, is_negative, of_int}

pub data Error : Type 0 where
  not_indexable not_a_number too_large skipped truncated bad_tag wrong_count : Error

pub data Missing : Type 0 where
  skip first last : Missing

pub record Field : Type 0 where
  pub descending : Bool
  pub missing : Missing

pub data Value : Type 0 where
  absent null : Value
  bool : Bool → Value
  float64 float32 : ℕ → Value
  integer : ℤ → Value
  text : List ℕ → Value
  other : Value

abbrev pub tag_missing_first : ℕ
tag_missing_first = 0x01

abbrev pub tag_null : ℕ
tag_null = 0x10

abbrev pub tag_false : ℕ
tag_false = 0x20

abbrev pub tag_true : ℕ
tag_true = 0x21

abbrev pub tag_number : ℕ
tag_number = 0x30

abbrev pub tag_string : ℕ
tag_string = 0x40

abbrev pub tag_missing_last : ℕ
tag_missing_last = 0xfe

abbrev pub escape : ℕ
escape = 0x00

abbrev pub escaped : ℕ
escaped = 0xff

abbrev pub terminator : ℕ
terminator = 0x01

abbrev pub exact_integers : ℕ
exact_integers = 2 ^ 53

-- The bits as they are written: `^bits` of a negative number, `bits | 1<<63` of any other.
unfoldable pub sort_bits : ℕ → ℕ
sort_bits bits = if is_negative bits then 2 ^ 64 - 1 - bits else bits + 2 ^ 63

unfoldable pub encode_number : List ℕ → ℕ → Result Error (List ℕ)
encode_number dst value =
    if is_nan value
    then err not_a_number
    else ok (
        (dst ++ (tag_number ∷ [])) ++ big_endian 8 (sort_bits (if is_zero value then 0 else value)))

unfoldable pub beyond_exact : ℤ → Bool
beyond_exact (pos n) = ltb exact_integers n
beyond_exact (negsuc n) = ltb exact_integers (suc n)

unfoldable pub encode_integer : List ℕ → ℤ → Result Error (List ℕ)
encode_integer dst value =
    if beyond_exact value then err too_large else encode_number dst (of_int value)

-- The loop of `encodeString` over the bytes, and the terminator behind them.
unfoldable pub encode_bytes : List ℕ → List ℕ → List ℕ
encode_bytes dst [] = dst ++ (escape ∷ terminator ∷ [])
encode_bytes dst (c ∷ cs) =
    encode_bytes (if c == escape then dst ++ (escape ∷ escaped ∷ []) else dst ++ (c ∷ [])) cs

unfoldable pub encode_string : List ℕ → List ℕ → List ℕ
encode_string dst value = encode_bytes (dst ++ (tag_string ∷ [])) value

unfoldable pub encode : List ℕ → Value → Missing → Result Error (List ℕ)
encode dst absent first = ok (dst ++ (tag_missing_first ∷ []))
encode dst absent last = ok (dst ++ (tag_missing_last ∷ []))
encode dst absent skip = err skipped
encode dst null m = ok (dst ++ (tag_null ∷ []))
encode dst (bool true) m = ok (dst ++ (tag_true ∷ []))
encode dst (bool false) m = ok (dst ++ (tag_false ∷ []))
encode dst (float64 b) m = encode_number dst b
encode dst (float32 b) m = encode_number dst b
encode dst (integer n) m = encode_integer dst n
encode dst (text s) m = ok (encode_string dst s)
encode dst other m = err not_indexable

-- `Encode`: a descending component is complemented from `start` on.
unfoldable pub encode_field : List ℕ → Value → Field → Result Error (List ℕ)
encode_field dst value field = do
  let start = length dst
  out ← encode dst value field.missing
  ok (if field.descending then take start out ++ map complement (drop start out) else out)

-- The loop of `EncodeKey`; the two lists have one length when it starts.
unfoldable pub encode_fields : List ℕ → List Value → List Field → Result Error (List ℕ)
encode_fields dst (v ∷ vs) (f ∷ fs) = encode_field dst v f >>= λ out. encode_fields out vs fs
encode_fields dst _ _ = ok dst

unfoldable pub encode_key : List ℕ → List Value → List Field → Result Error (List ℕ)
encode_key dst values fields =
    if length values == length fields then encode_fields dst values fields else err wrong_count

-- `at(i)` of `Decode`
unfoldable pub at : Field → ℕ → ℕ
at field b = if field.descending then complement b else b

unfoldable pub decode_bits : ℕ → ℕ
decode_bits bits = if is_negative bits then bits - 2 ^ 63 else 2 ^ 64 - 1 - bits

unfoldable pub decode_number : Field → List ℕ → Result Error (Value × List ℕ)
decode_number field src =
    if ltb (length src) 9
    then err truncated
    else ok
        (float64 (decode_bits (of_big_endian (map (at field) (take 8 (drop 1 src))))), drop 9 src)

-- The loop of the string case over the bytes from `i` on; `value` is what it has read. On a last
-- byte it ends by the test `i+1 >= len(src)` or by its condition, with the same error.
unfoldable pub decode_string : Field → List ℕ → List ℕ → Result Error (Value × List ℕ)
decode_string field value [] = err truncated
decode_string field value (c ∷ []) = err truncated
decode_string field value (c ∷ d ∷ rest) =
    let plain = decode_string field (value ++ (at field c ∷ [])) (d ∷ rest) in
    let zero_byte = decode_string field (value ++ (escape ∷ [])) rest in
    if at field c == escape
    then (if at field d == terminator
        then ok (text value, rest)
        else if at field d == escaped
        then zero_byte
        else err bad_tag)
    else plain

-- `Decode` from the tag on.
unfoldable pub decode_tag : Field → ℕ → List ℕ → Result Error (Value × List ℕ)
decode_tag field tag src =
    if tag == tag_missing_first || tag == tag_missing_last
    then ok (absent, drop 1 src)
    else if tag == tag_null
    then ok (null, drop 1 src)
    else if tag == tag_false
    then ok (bool false, drop 1 src)
    else if tag == tag_true
    then ok (bool true, drop 1 src)
    else if tag == tag_number
    then decode_number field src
    else if tag == tag_string
    then decode_string field [] (drop 1 src)
    else err bad_tag

unfoldable pub decode : List ℕ → Field → Result Error (Value × List ℕ)
decode [] field = err truncated
decode (b ∷ bs) field = decode_tag field (at field b) (b ∷ bs)

-- `DecodeKey`: the loop appends each value to `values`.
unfoldable pub decode_fields : List Value → List ℕ → List Field → Result Error (List Value × List ℕ)
decode_fields values src [] = ok (values, src)
decode_fields values src (f ∷ fs) = do
  (v, rest) ← decode src f
  decode_fields (values ++ (v ∷ [])) rest fs

unfoldable pub decode_key : List ℕ → List Field → Result Error (List Value × List ℕ)
decode_key src fields = decode_fields [] src fields
