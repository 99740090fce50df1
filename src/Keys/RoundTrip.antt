-- ===== src/Keys/RoundTrip.antt =====
-- What `Encode` wrote is read back by `Decode`, whatever follows it.
use sapedb.Base.{
  ℕ, ◌^◌, ◌<◌, ◌≡◌, refl, sym, ap, ◌∙◌, true, false, inl, inr, List, [], ◌∷◌, ◌++◌, map,
  append_assoc, append-nil, length, take, All, ltb, ◌==◌, if◌then◌else◌, ok, arith, Bool-cases,
  le→ltb, ==_iff,
}
use sapedb.Base.Bytes.{
  IsByte, big_endian, of_big_endian, of_big_endian-big_endian, big_endian-IsByte,
}
use sapedb.Float64.{is_zero, of_int}
use sapedb.Float64.Exact.{of_int_proper}
use sapedb.Keys.Codec.{
  skip, first, last, Field, Value, absent, null, bool, float64, float32, integer, text, other,
  escape, escaped, terminator, at, sort_bits, decode_bits, decode_number, decode_string, decode_tag,
  decode, decode_fields, decode_key, encode_key, tag_number,
}
use sapedb.Keys.Shape.{
  canonical, IsValue, IsIndexable, number_body, escape_text, body, component, missing_tag,
}
use sapedb.Keys.Composite.{components, AllIndexable, encode_key-components}

at-at : (f : Field) (b : ℕ) → b < 256 → at f (at f b) ≡ b
unfolding at
at-at f b h = ground arith

map-at-at : (f : Field) (bs : List ℕ) → All IsByte bs → map (at f) (map (at f) bs) ≡ bs
map-at-at f [] h = refl
map-at-at f (b ∷ bs) (hb, h) = rw (at-at f b hb, map-at-at f bs h)

map_same : (bs : List ℕ) → map (λ b. b) bs ≡ bs
map_same [] = refl
map_same (b ∷ bs) = rw (map_same bs)

component-at : (f : Field) (v : Value) → component f v ≡ map (at f) (body f.missing v)
unfolding component at
component-at f v = elim (Bool-cases f.descending) [
  | inl p ↦ rw p
  | inr p ↦ rw p (sym (map_same (body f.missing v)))
]

decode_bits-sort_bits : (b : ℕ) → b < 2 ^ 64 → decode_bits (sort_bits b) ≡ b
unfolding decode_bits sort_bits
decode_bits-sort_bits b h = ground arith

sort_bits_bound : (b : ℕ) → b < 2 ^ 64 → sort_bits b < 256 ^ 8
unfolding sort_bits
sort_bits_bound b h = ground arith

nine_bytes :
    (f : Field) (t x : ℕ) (rest : List ℕ)
    → ltb (length (t ∷ (map (at f) (big_endian 8 x) ++ rest))) 9 ≡ false
unfolding big_endian
nine_bytes f t x rest = le→ltb _ _ (omega arith)

first_eight :
    (f : Field) (x : ℕ) (rest : List ℕ)
    → take 8 (map (at f) (big_endian 8 x) ++ rest) ≡ map (at f) (big_endian 8 x)
unfolding big_endian
first_eight f x rest = refl

eight_bytes :
    (f : Field) (x : ℕ) (rest : List ℕ)
    → x < 256 ^ 8
    → of_big_endian (map (at f) (take 8 (map (at f) (big_endian 8 x) ++ rest))) ≡ x
eight_bytes f x rest h =
    ap of_big_endian (rw first_eight (map-at-at f (big_endian 8 x) (big_endian-IsByte 8 x)))
    ∙ of_big_endian-big_endian 8 x h

-- The eight bytes behind the tag of a number.
decode_number_lem :
    (f : Field) (t b : ℕ) (rest : List ℕ)
    → b < 2 ^ 64
    → decode_number f (t ∷ map (at f) (big_endian 8 (sort_bits b)) ++ rest) ≡ ok (float64 b, rest)
unfolding decode_number big_endian
decode_number_lem f t b rest h = rw (nine_bytes f t (sort_bits b) rest) (
    ap (λ n. ok (float64 n, rest))
      (ap decode_bits (eight_bytes f (sort_bits b) rest (sort_bits_bound b h))
        ∙ decode_bits-sort_bits b h))

-- One step of the string loop.
decode_string_plain :
    (f : Field) (acc : List ℕ) (c : ℕ) (l : List ℕ)
    → (at f c == escape) ≡ false
    → decode_string f acc (c ∷ l) ≡ decode_string f (acc ++ (at f c ∷ [])) l
unfolding decode_string
decode_string_plain f acc c [] h = refl
decode_string_plain f acc c (d ∷ l) h = rw h

decode_string_end :
    (f : Field) (acc rest : List ℕ)
    → decode_string f acc (at f escape ∷ at f terminator ∷ rest) ≡ ok (text acc, rest)
unfolding decode_string at
decode_string_end f acc rest = elim (Bool-cases f.descending) [ inl p ↦ rw p | inr p ↦ rw p ]

decode_string_zero :
    (f : Field) (acc l : List ℕ)
    → decode_string f acc (at f escape ∷ at f escaped ∷ l)
      ≡ decode_string f (acc ++ (escape ∷ [])) l
unfolding decode_string at
decode_string_zero f acc l = ground arith

decode_string-escape_text :
    (f : Field) (acc s rest : List ℕ)
    → All IsByte s
    → decode_string f acc (map (at f) (escape_text s) ++ rest) ≡ ok (text (acc ++ s), rest)
unfolding escape_text
decode_string-escape_text f acc [] rest h =
    decode_string_end f acc rest ∙ ap (λ s. ok (text s, rest)) (sym (append-nil acc))
decode_string-escape_text f acc (c ∷ cs) rest (hc, h) = elim (Bool-cases (c == escape)) [
  | inl p ↦ rw p (
      decode_string_zero f acc _
      ∙ decode_string-escape_text f (acc ++ (escape ∷ [])) cs rest h
      ∙ ap (λ s. ok (text s, rest))
          (append_assoc acc (escape ∷ []) cs ∙ ap (λ d. acc ++ (d ∷ cs)) (sym ((==_iff _ _).0 p))))
  | inr p ↦ rw p (
      decode_string_plain f acc (at f c) _ (rw (at-at f c hc) p)
      ∙ rw (at-at f c hc) (decode_string-escape_text f (acc ++ (c ∷ [])) cs rest h)
      ∙ ap (λ s. ok (text s, rest)) (append_assoc acc (c ∷ []) cs))
]

decode_head :
    (f : Field) (t : ℕ) (l : List ℕ) → t < 256 → decode (at f t ∷ l) f ≡ decode_tag f t (at f t ∷ l)
unfolding decode
decode_head f t l h = ap (λ u. decode_tag f u (at f t ∷ l)) (at-at f t h)

decode-number_body :
    (f : Field) (b : ℕ) (rest : List ℕ)
    → b < 2 ^ 64
    → decode (map (at f) (number_body b) ++ rest) f ≡ ok (canonical (float64 b), rest)
unfolding number_body decode_tag
decode-number_body f b rest h =
    decode_head f tag_number _ (omega arith)
    ∙ decode_number_lem f (at f tag_number) (if is_zero b then 0 else b) rest (ground arith)

decode-body :
    (f : Field) (v : Value) (rest : List ℕ)
    → IsValue v
    → IsIndexable f.missing v
    → decode (map (at f) (body f.missing v) ++ rest) f ≡ ok (canonical v, rest)
unfolding body decode_tag
decode-body f absent rest g i =
    elim (f.missing) as (λ m. decode (at f (missing_tag m) ∷ rest) f ≡ ok (absent, rest)) [
      | skip ↦ decode_head f _ _ (omega arith)
      | first ↦ decode_head f _ _ (omega arith)
      | last ↦ decode_head f _ _ (omega arith)
    ]
decode-body f null rest g i = decode_head f _ _ (omega arith)
decode-body f (bool true) rest g i = decode_head f _ _ (omega arith)
decode-body f (bool false) rest g i = decode_head f _ _ (omega arith)
decode-body f (float64 b) rest g i = decode-number_body f b rest g
decode-body f (float32 b) rest g i = decode-number_body f b rest g
decode-body f (integer n) rest g i = decode-number_body f (of_int n) rest (of_int_proper n i).1
decode-body f (text s) rest g i =
    decode_head f _ _ (omega arith) ∙ decode_string-escape_text f [] s rest g
decode-body f other rest g i = elim i [ ]

-- Every component, ascending or descending, is read back as the value it stands for.
decode-component :
    (f : Field) (v : Value) (rest : List ℕ)
    → IsValue v
    → IsIndexable f.missing v
    → decode (component f v ++ rest) f ≡ ok (canonical v, rest)
decode-component f v rest g i = rw component-at (decode-body f v rest g i)

decode_fields-components :
    (acc : List Value) (vs : List Value) (fs : List Field) (rest : List ℕ)
    → All IsValue vs
    → AllIndexable fs vs
    → decode_fields acc (components fs vs ++ rest) fs ≡ ok (acc ++ map canonical vs, rest)
unfolding decode_fields
decode_fields-components acc [] [] rest g i = rw append-nil
decode_fields-components acc [] (f ∷ fs) rest g i = elim i [ ]
decode_fields-components acc (v ∷ vs) [] rest g i = elim i [ ]
decode_fields-components acc (v ∷ vs) (f ∷ fs) rest (g, gs) (i, is) =
    rw (append_assoc, decode-component f v (components fs vs ++ rest) g i)
      (decode_fields-components (acc ++ (canonical v ∷ [])) vs fs rest gs is
        ∙ ap (λ l. ok (l, rest)) (append_assoc acc (canonical v ∷ []) (map canonical vs)))

-- A key that `EncodeKey` made is read back by `DecodeKey` under the same fields: each value as its
-- canonical form, and what follows the key is left over.
pub decode_key-encode_key :
    (vs : List Value) (fs : List Field) (key rest : List ℕ)
    → All IsValue vs
    → encode_key [] vs fs ≡ ok key
    → decode_key (key ++ rest) fs ≡ ok (map canonical vs, rest)
unfolding decode_key
decode_key-encode_key vs fs key rest g e =
    let (i, q) = (encode_key-components [] vs fs key).0 e in
    rw q (decode_fields-components [] vs fs rest g i)

-- Two lists of values with one key have the same canonical forms: no two different values share an
-- index entry.
pub encode_key_injective :
    (vs ws : List Value) (fs : List Field) (key : List ℕ)
    → All IsValue vs
    → All IsValue ws
    → encode_key [] vs fs ≡ ok key
    → encode_key [] ws fs ≡ ok key
    → map canonical vs ≡ map canonical ws
encode_key_injective vs ws fs key gv gw ev ew =
    cc (decode_key-encode_key vs fs key [] gv ev, decode_key-encode_key ws fs key [] gw ew)
