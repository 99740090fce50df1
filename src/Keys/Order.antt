-- ===== src/Keys/Order.antt =====
-- Keys sort the way the values do.
use sapedb.Base.{
  ℕ, ◌^◌, ◌≤◌, ◌<◌, ◌≡◌, refl, sym, ap, ◌∙◌, true, false, ◌⊎◌, inl, inr, some, List, [], ◌∷◌, ◌++◌,
  map, All, ◌==◌, if◌then◌else◌, ok, arith, Bool-cases, ok_eq, Ordering,
}
use sapedb.Base.Bytes.{
  lex, Before, lex-Before, Before-map-complement, complement, Before-append_left,
  Before-append_right,
}
use sapedb.Base.Int.{ℤ, ◌<ℤ◌}
use sapedb.Float64.{signed, of_int}
use sapedb.Float64.Exact.{of_int_proper, signed-of_int_lt}
use sapedb.Keys.Codec.{
  Missing, skip, first, last, Field, Value, absent, null, bool, float64, float32, integer, text,
  other, encode, encode_key,
}
use sapedb.Keys.Numbers.{number_body-Before}
use sapedb.Keys.Composite.{components, AllIndexable, encode_key-components}
use sapedb.Keys.Shape.{
  encode-body, encode-IsIndexable, canonical, body-canonical, IsValue, IsIndexable, float_bits,
  number_body, escape_text, body, component, body-IsByte,
}

abbrev missing_rank : Missing → ℕ
missing_rank first = 0
missing_rank _ = 6

-- The kinds of values, in the order that an index gives them.
abbrev pub kind_rank : Missing → Value → ℕ
kind_rank m absent = missing_rank m
kind_rank m null = 1
kind_rank m (bool false) = 2
kind_rank m (bool true) = 3
kind_rank m (float64 b) = 4
kind_rank m (float32 _) = 4
kind_rank m (integer _) = 4
kind_rank m (text _) = 5
kind_rank m other = 7

-- `v` comes before `w`: by their kinds, as numbers, or as texts.
pub data Less (m : Missing) : Value → Value → Type 0 where
  kinds : {v w : Value} → kind_rank m v < kind_rank m w → Less m v w
  numbers :
      {v w : Value} (x y : ℕ)
      → float_bits v ≡ some x
      → float_bits w ≡ some y
      → signed x <ℤ signed y
      → Less m v w
  texts : {s t : List ℕ} → lex s t ≡ Ordering.lt → Less m (text s) (text t)

-- One component, by the direction of its field.
abbrev pub FieldLess : Field → Value → Value → Type 0
FieldLess f v w = if f.descending then Less f.missing w v else Less f.missing v w

-- A key, by the first component at which the values are not the same.
abbrev pub KeyLess : List Field → List Value → List Value → Type 0
KeyLess (f ∷ fs) (v ∷ vs) (w ∷ ws) =
    FieldLess f v w ⊎ ((canonical v ≡ canonical w) × KeyLess fs vs ws)
KeyLess _ _ _ = ⊥

-- The terminator sorts below an escaped zero, and that below any other byte.
escape_text-Before : (s t : List ℕ) → lex s t ≡ Ordering.lt → Before (escape_text s) (escape_text t)
unfolding lex escape_text
escape_text-Before [] [] h = cc
escape_text-Before [] (y ∷ ys) h = ground arith
escape_text-Before (x ∷ xs) [] h = cc
escape_text-Before (x ∷ xs) (y ∷ ys) h = ground (arith, escape_text-Before xs ys)

number_bytes :
    (m : Missing) (v : Value) (x : ℕ)
    → float_bits v ≡ some x
    → IsValue v
    → IsIndexable m v
    → (body m v ≡ number_body x) × (x < 2 ^ 64)
unfolding body
number_bytes m absent x h k i = cc
number_bytes m null x h k i = cc
number_bytes m (bool b) x h k i = cc
number_bytes m (float64 b) x h k i = ground arith
number_bytes m (float32 b) x h k i = ground arith
number_bytes m (integer n) x h k i = ground (arith, of_int_proper n i)
number_bytes m (text s) x h k i = cc
number_bytes m other x h k i = cc

-- The first byte of a component, by the rank of its kind.
kind_byte : ℕ → ℕ
kind_byte r =
    if r == 0
    then 0x01
    else if r == 1
    then 0x10
    else if r == 2
    then 0x20
    else if r == 3
    then 0x21
    else if r == 4
    then 0x30
    else if r == 5
    then 0x40
    else 0xfe

kind_byte-lt : (r s : ℕ) → r < s → s ≤ 6 → kind_byte r < kind_byte s
unfolding kind_byte
kind_byte-lt r s h k = ground arith

body_head :
    (m : Missing) (v : Value)
    → IsIndexable m v
    → (rest : List ℕ) × (body m v ≡ kind_byte (kind_rank m v) ∷ rest) × (kind_rank m v ≤ 6)
unfolding body kind_byte number_body
body_head skip absent i = absurd (i refl)
body_head first absent i = (_, refl, omega arith)
body_head last absent i = (_, refl, omega arith)
body_head m null i = (_, refl, omega arith)
body_head m (bool true) i = (_, refl, omega arith)
body_head m (bool false) i = (_, refl, omega arith)
body_head m (float64 b) i = (_, refl, omega arith)
body_head m (float32 b) i = (_, refl, omega arith)
body_head m (integer n) i = (_, refl, omega arith)
body_head m (text s) i = (_, refl, omega arith)
body_head m other i = elim i [ ]

module _ (m : Missing) (v w : Value) (iv : IsIndexable m v) (iw : IsIndexable m w) where
  body-Before_kinds : kind_rank m v < kind_rank m w → Before (body m v) (body m w)
  body-Before_kinds h =
      let (rv, ev, kv) = body_head m v iv in
      let (rw', ew, kw) = body_head m w iw in
      rw (ev, ew) (inl (kind_byte-lt (kind_rank m v) (kind_rank m w) h kw))

-- The smaller value has the smaller bytes, at the first byte where the two differ.
pub body-Before :
    (m : Missing) {v w : Value}
    → IsValue v
    → IsValue w
    → IsIndexable m v
    → IsIndexable m w
    → Less m v w
    → Before (body m v) (body m w)
body-Before m {v} {w} gv gw iv iw (kinds h) = body-Before_kinds m v w iv iw h
body-Before m {v} {w} gv gw iv iw (numbers x y ex ey h) =
    let (bx, sx) = number_bytes m v x ex gv iv in
    let (by', sy) = number_bytes m w y ey gw iw in rw (bx, by') (number_body-Before x y sx sy h)
body-Before m gv gw iv iw (texts h) = unfold body in inr (refl, escape_text-Before _ _ h)

module _ (f : Field) (v w : Value) (gv : IsValue v) (gw : IsValue w) where
  component-Before :
      IsIndexable f.missing v
      → IsIndexable f.missing w
      → FieldLess f v w
      → Before (component f v) (component f w)
  unfolding component
  component-Before iv iw l = elim (Bool-cases f.descending) [
    | inl p ↦ rw p (
        Before-map-complement _ _ (body-IsByte f.missing w gw) (body-IsByte f.missing v gv)
          (body-Before f.missing gw gv iw iv (rw p at l)))
    | inr p ↦ rw p (body-Before f.missing gv gw iv iw (rw p at l))
  ]

component_same :
    (f : Field) (v w : Value) → canonical v ≡ canonical w → component f v ≡ component f w
unfolding component
component_same f v w e =
    ap (λ b. if f.descending then map complement b else b)
      (sym (body-canonical f.missing v) ∙ ap (body f.missing) e ∙ body-canonical f.missing w)

components-Before :
    (fs : List Field) (vs ws : List Value)
    → All IsValue vs
    → All IsValue ws
    → AllIndexable fs vs
    → AllIndexable fs ws
    → KeyLess fs vs ws
    → Before (components fs vs) (components fs ws)
components-Before [] vs ws gv gw iv iw l = elim l [ ]
components-Before (f ∷ fs) [] ws gv gw iv iw l = elim l [ ]
components-Before (f ∷ fs) (v ∷ vs) [] gv gw iv iw l = elim l [ ]
components-Before (f ∷ fs) (v ∷ vs) (w ∷ ws) gv gw iv iw (inl l) =
    Before-append_right _ _ _ _ (component-Before f v w gv.0 gw.0 iv.0 iw.0 l)
components-Before (f ∷ fs) (v ∷ vs) (w ∷ ws) gv gw iv iw (inr (e, l)) =
    rw (component_same f v w e)
      (Before-append_left (component f w) _ _ (components-Before fs vs ws gv.1 gw.1 iv.1 iw.1 l))

-- Two keys that `EncodeKey` makes under the same fields compare as their values do: by the first
-- component at which the values are not the same, in the direction that the field declares. So it
-- is whatever bytes stand before both keys, and whatever follows either.
pub encode_key_order :
    (fs : List Field) (vs ws : List Value) (dst a b r s : List ℕ)
    → All IsValue vs
    → All IsValue ws
    → KeyLess fs vs ws
    → encode_key dst vs fs ≡ ok a
    → encode_key dst ws fs ≡ ok b
    → lex (a ++ r) (b ++ s) ≡ Ordering.lt
encode_key_order fs vs ws dst a b r s gv gw l ea eb =
    let (iv, qa) = (encode_key-components dst vs fs a).0 ea in
    let (iw, qb) = (encode_key-components dst ws fs b).0 eb in
    rw (qa, qb)
      (lex-Before _ _ r s (Before-append_left dst _ _ (components-Before fs vs ws gv gw iv iw l)))

-- Integers that `Encode` takes, of either sign, sort as integers, though they are written as floats.
pub encode_integer_order :
    (a b : ℤ) (m : Missing) (dst x y r s : List ℕ)
    → a <ℤ b
    → encode dst (integer a) m ≡ ok x
    → encode dst (integer b) m ≡ ok y
    → lex (x ++ r) (y ++ s) ≡ Ordering.lt
encode_integer_order a b m dst x y r s h ex ey =
    let ia = encode-IsIndexable dst (integer a) m x ex in
    let ib = encode-IsIndexable dst (integer b) m y ey in
    let less : Less m (integer a) (integer b) =
      numbers (of_int a) (of_int b) refl refl (signed-of_int_lt a b ia ib h) in
    rw (ok_eq ex (encode-body dst (integer a) m ia), ok_eq ey (encode-body dst (integer b) m ib))
      (lex-Before _ _ r s (Before-append_left dst _ _ (body-Before m tt tt ia ib less)))
