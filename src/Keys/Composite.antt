-- ===== src/Keys/Composite.antt =====
-- `EncodeKey`: a key is the components of its fields, one after the other.
use sapedb.Base.{
  ℕ, suc, ◌≡◌, refl, sym, ap, ◌∙◌, ◌↔◌, inl, inr, List, [], ◌∷◌, ◌++◌, append-nil, append_assoc,
  length, ok, arith, ◌==◌, ==_iff, Bool-cases, bind_ok,
}
use sapedb.Keys.Codec.{Value, Field, encode_field, encode_fields, encode_key}
use sapedb.Keys.Shape.{IsIndexable, component, encode_field-component, encode_field-IsIndexable}

-- A key as one list of bytes.
abbrev pub components : List Field → List Value → List ℕ
components (f ∷ fs) (v ∷ vs) = component f v ++ components fs vs
components _ _ = []

abbrev pub AllIndexable : List Field → List Value → Type 0
AllIndexable [] [] = Unit
AllIndexable (f ∷ fs) (v ∷ vs) = IsIndexable f.missing v × AllIndexable fs vs
AllIndexable _ _ = ⊥

encode_fields-components :
    (dst : List ℕ) (vs : List Value) (fs : List Field)
    → AllIndexable fs vs
    → encode_fields dst vs fs ≡ ok (dst ++ components fs vs)
unfolding encode_fields
encode_fields-components dst [] [] i = ap ok (sym (append-nil dst))
encode_fields-components dst [] (f ∷ fs) i = elim i [ ]
encode_fields-components dst (v ∷ vs) [] i = elim i [ ]
encode_fields-components dst (v ∷ vs) (f ∷ fs) (i, is) =
    rw (encode_field-component dst v f i)
      (encode_fields-components (dst ++ component f v) vs fs is ∙ ap ok (append_assoc dst _ _))

encode_fields-AllIndexable :
    (dst : List ℕ) (vs : List Value) (fs : List Field) (out : List ℕ)
    → length vs ≡ length fs
    → encode_fields dst vs fs ≡ ok out
    → AllIndexable fs vs
unfolding encode_fields
encode_fields-AllIndexable dst [] [] out n h = tt
encode_fields-AllIndexable dst [] (f ∷ fs) out n h = absurd (omega arith)
encode_fields-AllIndexable dst (v ∷ vs) [] out n h = absurd (omega arith)
encode_fields-AllIndexable dst (v ∷ vs) (f ∷ fs) out n h =
    let (c, e, k) = bind_ok (λ o. encode_fields o vs fs) (encode_field dst v f) h in
    (encode_field-IsIndexable dst v f c e, encode_fields-AllIndexable c vs fs out (omega arith) k)

length-AllIndexable :
    (vs : List Value) (fs : List Field) → AllIndexable fs vs → length vs ≡ length fs
length-AllIndexable [] [] i = refl
length-AllIndexable [] (f ∷ fs) i = elim i [ ]
length-AllIndexable (v ∷ vs) [] i = elim i [ ]
length-AllIndexable (v ∷ vs) (f ∷ fs) (i, is) = ap suc (length-AllIndexable vs fs is)

-- `EncodeKey` succeeds exactly when there are as many values as fields and each can be held, and
-- then it appends the components in order.
pub encode_key-components :
    (dst : List ℕ) (vs : List Value) (fs : List Field) (out : List ℕ)
    → (encode_key dst vs fs ≡ ok out) ↔ (AllIndexable fs vs × (out ≡ dst ++ components fs vs))
unfolding encode_key
encode_key-components dst vs fs out = (there, back)
  where
    there : encode_key dst vs fs ≡ ok out → AllIndexable fs vs × (out ≡ dst ++ components fs vs)
    there h = elim (Bool-cases (length vs == length fs)) [
      | inl p ↦
          let k = rw p at h in
          let i = encode_fields-AllIndexable dst vs fs out ((==_iff _ _).0 p) k in
          (i, cc (k, encode_fields-components dst vs fs i))
      | inr p ↦ let k = rw p at h in absurd (cc)
    ]

    back : AllIndexable fs vs × (out ≡ dst ++ components fs vs) → encode_key dst vs fs ≡ ok out
    back (i, e) =
        rw ((==_iff _ _).1 (length-AllIndexable vs fs i))
          (encode_fields-components dst vs fs i ∙ ap ok (sym e))
