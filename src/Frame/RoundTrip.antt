-- ===== src/Frame/RoundTrip.antt =====
-- Encode and Read of internal/protocol/frame.go together.
use sapedb.Base.{
  inl, inr, append_assoc, dec_lt, ℕ, zero, suc, ◌-◌, ◌≤◌, ◌<◌, ◌^◌, ◌≡◌, refl, sym, ap, ◌∙◌, Bool,
  true, false, List, [], ◌∷◌, ◌++◌, length, take, drop, ltb, leb, ◌==◌, if◌then◌else◌, ok, err,
  arith, Bool-cases, le→leb, le→ltb, length-append, length-take, take-append_self, drop-append_self,
  ltb→le,
}
use sapedb.Base.Bytes.{big_endian, of_big_endian, of_big_endian-big_endian}
use sapedb.Base.Ids.{has}
use sapedb.Frame.{
  eof, unexpected_eof, Frame, encode, version_of, max_payload, header_bytes, Reader, read,
  read_full, byte_at, after_header, after_payload,
}

-- The bytes of a header.
abbrev pub header : Frame → List ℕ
header f = version_of f ∷ f.kind ∷ (big_endian 4 f.id ++ big_endian 4 (length f.payload))

encode-header :
    (f : Frame) (out : List ℕ)
    → encode f ≡ ok out
    → (out ≡ header f ++ f.payload) × (length f.payload ≤ max_payload)
unfolding encode big_endian
encode-header f out h = elim (Bool-cases (ltb max_payload (length f.payload))) [
  | inl e ↦ (let h' = rw e at h in cc h')
  | inr e ↦ (let h' = rw e at h in (cc h', ltb→le max_payload (length f.payload) e))
]

length-header : (f : Frame) → length (header f) ≡ header_bytes
unfolding big_endian
length-header f = refl

read_full-append :
    (xs rest : List ℕ) (n : ℕ) → length xs ≡ n → read_full n (xs ++ rest) ≡ (ok xs, rest)
unfolding read_full
read_full-append xs rest n e =
    let fits : leb (length xs) (length (xs ++ rest)) ≡ true =
      le→leb (length xs) (length (xs ++ rest)) (omega (arith, length-append xs rest)) in
    rw (← e, fits, take-append_self xs rest, drop-append_self xs rest) refl

module _ (f : Frame) (r : Reader) (accepted : has (version_of f) r.versions ≡ true)
    (small : length f.payload ≤ r.limit) (fits : length f.payload ≤ max_payload) where
  declared : of_big_endian (take 4 (drop 6 (header f))) ≡ length f.payload
  unfolding big_endian
  declared = of_big_endian-big_endian 4 (length f.payload) (omega arith)

  id_read : f.id < 256 ^ 4 → of_big_endian (take 4 (drop 2 (header f))) ≡ f.id
  unfolding big_endian
  id_read is_id = of_big_endian-big_endian 4 f.id is_id

  after_header-header :
      (source : List ℕ)
      → after_header r (ok (header f)) source
        ≡ after_payload
            (header f)
            (read_full (length f.payload) source).0
            (read_full (length f.payload) source).1
  unfolding byte_at
  after_header-header source = rw (accepted, declared, le→ltb r.limit (length f.payload) small) refl

  read-header :
      (rest : List ℕ)
      → f.id < 256 ^ 4
      → read r (header f ++ (f.payload ++ rest)) ≡ (ok (record f { version = version_of f }), rest)
  unfolding read byte_at
  read-header rest is_id =
      rw
        (
          read_full-append (header f) (f.payload ++ rest) header_bytes (length-header f),
          after_header-header,
          read_full-append f.payload rest (length f.payload) refl,
          id_read,
        )
        refl

-- A frame that `Encode` takes is read back, with its version written out, and what follows it is
-- left, by a reader that accepts the version and whose limit it does not pass.
pub read-encode :
    (f : Frame) (r : Reader) (out rest : List ℕ)
    → encode f ≡ ok out
    → f.id < 256 ^ 4
    → has (version_of f) r.versions ≡ true
    → length f.payload ≤ r.limit
    → read r (out ++ rest) ≡ (ok (record f { version = version_of f }), rest)
read-encode f r out rest e is_id accepted small =
    let (whole, fits) = encode-header f out e in
    ap (λ l. read r (l ++ rest)) whole
    ∙ ap (read r) (append_assoc (header f) f.payload rest)
    ∙ read-header f r accepted small fits rest is_id

take-append_left :
    (n : ℕ) (xs ys : List ℕ) → length xs ≤ n → take n (xs ++ ys) ≡ xs ++ take (n - length xs) ys
take-append_left n [] ys h = ap (λ k. take k ys) (omega arith)
take-append_left zero (x ∷ xs) ys h = absurd (omega arith)
take-append_left (suc n) (x ∷ xs) ys h =
    ap (λ l. x ∷ l)
      (take-append_left n xs ys (omega arith) ∙ ap (λ k. xs ++ take k ys) (omega arith))

read_full_short :
    (n : ℕ) (source : List ℕ)
    → length source < n
    → read_full n source ≡ (if length source == 0 then err eof else err unexpected_eof, [])
unfolding read_full
read_full_short n source h =
    let short : leb n (length source) ≡ false = ground arith in rw short refl

after_payload_short :
    (h : List ℕ) (b : Bool) (source : List ℕ)
    → (after_payload h (if b then err eof else err unexpected_eof) source).0 ≡ err unexpected_eof
after_payload_short h true source = refl
after_payload_short h false source = refl

after_header_short :
    (r : Reader) (b : Bool) (source : List ℕ)
    → (after_header r (if b then err eof else err unexpected_eof) source).0
      ≡ err (if b then eof else unexpected_eof)
after_header_short r true source = refl
after_header_short r false source = refl

cut_payload :
    (f : Frame) (r : Reader) (tail : List ℕ)
    → has (version_of f) r.versions ≡ true
    → length f.payload ≤ r.limit
    → length f.payload ≤ max_payload
    → length tail < length f.payload
    → (read r (header f ++ tail)).0 ≡ err unexpected_eof
unfolding read
cut_payload f r tail accepted small fits short =
    rw
      (
        read_full-append (header f) tail header_bytes (length-header f),
        after_header-header f r accepted small fits,
        read_full_short (length f.payload) tail short,
      )
      (after_payload_short (header f) (length tail == 0) [])

-- The source ends within a frame: that is the end of the source where nothing of it was there, and
-- an error otherwise, never a frame.
pub read_cut :
    (f : Frame) (r : Reader) (out : List ℕ) (n : ℕ)
    → encode f ≡ ok out
    → f.id < 256 ^ 4
    → has (version_of f) r.versions ≡ true
    → length f.payload ≤ r.limit
    → n < length out
    → (read r (take n out)).0 ≡ err (if n == 0 then eof else unexpected_eof)
unfolding read big_endian
read_cut f r out n e is_id accepted small short =
    let (whole, fits) = encode-header f out e in
    let taken : length (take n out) ≡ n = omega (arith, length-take n out) in
    elim (dec_lt n header_bytes) [
      | yes early ↦ rw (read_full_short header_bytes (take n out) (omega arith)) (
          after_header_short r (length (take n out) == 0) []
          ∙ ap (λ k. err (if k == 0 then eof else unexpected_eof)) taken)
      | no late ↦
          let tail = take (n - header_bytes) f.payload in
          let cut : take n out ≡ header f ++ tail =
            ap (take n) whole ∙ take-append_left n (header f) f.payload (omega arith) in
          let some_bytes : (n == 0) ≡ false = ground arith in
          ap (λ l. (read r l).0) cut
          ∙ cut_payload f r tail accepted small fits (
              omega (
                arith,
                length-take (n - header_bytes) f.payload,
                ap length whole,
                length-append (header f) f.payload,
              ))
          ∙ ap (λ b. err (if b then eof else unexpected_eof)) (sym some_bytes)
    ]
