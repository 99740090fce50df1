-- ===== src/Keys/Tests.antt =====
-- Runs of the key codec, and its theorems at concrete inputs.
use sapedb.Base.{
  ℕ, ◌+◌, ◌^◌, ◌≡◌, refl, true, false, inl, List, [], ◌∷◌, ◌++◌, map, ok, err, arith, Ordering, ◌↔◌,
}
use sapedb.Base.Bytes.{lex, big_endian, of_big_endian}
use sapedb.Base.Int.{pos, negsuc}
use sapedb.Float64.{is_nan, is_zero, of_int, of_nat, normalize}
use sapedb.Keys.Codec.{
  Field, Value, first, skip, absent, integer, text, float64, too_large, skipped, truncated, encode,
  encode_number, encode_integer, encode_string, encode_bytes, encode_field, encode_fields,
  encode_key, decode_key, decode_fields, decode, decode_tag, decode_number, decode_string,
  decode_bits, sort_bits, beyond_exact, at,
}
use sapedb.Keys.Shape.{canonical}
use sapedb.Keys.Composite.{components, AllIndexable, encode_key-components}
use sapedb.Keys.Order.{encode_key_order, texts}
use sapedb.Keys.RoundTrip.{decode_key-encode_key}

abbrev up : Field
up = record { descending = false; missing = first }

abbrev down : Field
down = record { descending = true; missing = skip }

-- ["a\0", -2] under an ascending and a descending field
abbrev sample : List Value
sample = text (97 ∷ 0 ∷ []) ∷ integer (negsuc 1) ∷ []

abbrev sample_key : List ℕ
sample_key = 0x40 ∷ 97 ∷ 0 ∷ 0xff ∷ 0 ∷ 1 ∷ 0xcf ∷ 0xc0 ∷ 0 ∷ 0 ∷ 0 ∷ 0 ∷ 0 ∷ 0 ∷ 0 ∷ []

sample_encoded : encode_key [] sample (up ∷ down ∷ []) ≡ ok sample_key
unfolding encode encode_number encode_integer encode_string encode_bytes encode_field encode_fields
    encode_key beyond_exact sort_bits big_endian is_nan is_zero of_int of_nat normalize
sample_encoded = refl

skipped_field : encode_key [] (absent ∷ []) (down ∷ []) ≡ err skipped
unfolding encode encode_number encode_integer encode_string encode_bytes encode_field encode_fields
    encode_key beyond_exact sort_bits big_endian is_nan is_zero of_int of_nat normalize
skipped_field = refl

too_large_integer : encode [] (integer (pos (2 ^ 53 + 1))) first ≡ err too_large
unfolding encode encode_number encode_integer encode_string encode_bytes encode_field encode_fields
    encode_key beyond_exact sort_bits big_endian is_nan is_zero of_int of_nat normalize
too_large_integer = refl

truncated_key : decode_key (0x40 ∷ 97 ∷ []) (up ∷ []) ≡ err truncated
unfolding decode decode_tag decode_number decode_string decode_bits decode_fields decode_key
    of_big_endian at
truncated_key = refl

other_text :
    encode_key [] (text (97 ∷ []) ∷ integer (negsuc 1) ∷ []) (up ∷ down ∷ [])
    ≡ ok (0x40 ∷ 97 ∷ 0 ∷ 1 ∷ 0xcf ∷ 0xc0 ∷ 0 ∷ 0 ∷ 0 ∷ 0 ∷ 0 ∷ 0 ∷ 0 ∷ [])
unfolding encode encode_number encode_integer encode_string encode_bytes encode_field encode_fields
    encode_key beyond_exact sort_bits big_endian is_nan is_zero of_int of_nat normalize
other_text = refl

bigger_number :
    encode_key [] (text (97 ∷ 0 ∷ []) ∷ integer (pos 3) ∷ []) (up ∷ down ∷ [])
    ≡ ok (
        0x40 ∷ 97 ∷ 0 ∷ 0xff ∷ 0 ∷ 1 ∷ 0xcf ∷ 0x3f ∷ 0xf7 ∷ 0xff ∷ 0xff ∷ 0xff ∷ 0xff ∷ 0xff ∷ 0xff
        ∷ [])
unfolding encode encode_number encode_integer encode_string encode_bytes encode_field encode_fields
    encode_key beyond_exact sort_bits big_endian is_nan is_zero of_int of_nat normalize
bigger_number = refl

three_encoded :
    encode (7 ∷ []) (integer (pos 3)) first
    ≡ ok (7 ∷ 0x30 ∷ 0xc0 ∷ 0x08 ∷ 0 ∷ 0 ∷ 0 ∷ 0 ∷ 0 ∷ 0 ∷ [])
unfolding encode encode_number encode_integer encode_string encode_bytes encode_field encode_fields
    encode_key beyond_exact sort_bits big_endian is_nan is_zero of_int of_nat normalize
three_encoded = refl

minus_two_encoded :
    encode (7 ∷ []) (integer (negsuc 1)) first
    ≡ ok (7 ∷ 0x30 ∷ 0x3f ∷ 0xff ∷ 0xff ∷ 0xff ∷ 0xff ∷ 0xff ∷ 0xff ∷ 0xff ∷ [])
unfolding encode encode_number encode_integer encode_string encode_bytes encode_field encode_fields
    encode_key beyond_exact sort_bits big_endian is_nan is_zero of_int of_nat normalize
minus_two_encoded = refl

shorter_first : lex (97 ∷ []) (97 ∷ 0 ∷ []) ≡ Ordering.lt
unfolding lex
shorter_first = refl

encode_key_order_example :
    lex (0x40 ∷ 97 ∷ 0 ∷ 1 ∷ 0xcf ∷ 0xc0 ∷ 0 ∷ 0 ∷ 0 ∷ 0 ∷ 0 ∷ 0 ∷ 0 ∷ []) (sample_key ++ (5 ∷ []))
    ≡ Ordering.lt
encode_key_order_example =
    encode_key_order (up ∷ down ∷ []) (text (97 ∷ []) ∷ integer (negsuc 1) ∷ []) sample [] _ _ []
      (5 ∷ []) (omega arith) (omega arith) (inl (texts shorter_first)) other_text sample_encoded

decode_key-encode_key_example :
    decode_key (sample_key ++ (5 ∷ [])) (up ∷ down ∷ []) ≡ ok (map canonical sample, 5 ∷ [])
decode_key-encode_key_example =
    decode_key-encode_key sample (up ∷ down ∷ []) sample_key (5 ∷ []) (omega arith) sample_encoded

-- The integer 3 and the float 3.0 have one key.
abbrev three_key : List ℕ
three_key = 0x30 ∷ 0xc0 ∷ 0x08 ∷ 0 ∷ 0 ∷ 0 ∷ 0 ∷ 0 ∷ 0 ∷ []

abbrev three_bits : ℕ
three_bits = 0x4008_0000_0000_0000

integer_three : encode_key [] (integer (pos 3) ∷ []) (up ∷ []) ≡ ok three_key
unfolding encode encode_number encode_integer encode_field encode_fields encode_key beyond_exact
    sort_bits big_endian is_nan is_zero of_int of_nat normalize
integer_three = refl

float_three : encode_key [] (float64 three_bits ∷ []) (up ∷ []) ≡ ok three_key
unfolding encode encode_number encode_field encode_fields encode_key sort_bits big_endian is_nan
    is_zero
float_three = refl

encode_key-components_example :
    (encode_key [] sample (up ∷ down ∷ []) ≡ ok sample_key)
    ↔ (AllIndexable (up ∷ down ∷ []) sample × (sample_key ≡ components (up ∷ down ∷ []) sample))
encode_key-components_example = encode_key-components [] sample (up ∷ down ∷ []) sample_key
