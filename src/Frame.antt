-- ===== src/Frame.antt =====
-- The frames of internal/protocol/frame.go: Encode, and Read over a source that ends.
use sapedb.Base.{
  ℕ, zero, suc, ◌+◌, Bool, true, false, not, List, [], ◌∷◌, ◌++◌, length, take, drop, ltb, leb,
  ◌==◌, if◌then◌else◌, Result, ok, err,
}
use sapedb.Base.Bytes.{big_endian, of_big_endian}
use sapedb.Base.Ids.{has}
pub mod RoundTrip
mod Tests

-- `eof` and `unexpected_eof` are io's.
pub data Error : Type 0 where
  payload_too_large version_refused eof unexpected_eof : Error

abbrev pub current_version : ℕ
current_version = 1

abbrev pub header_bytes : ℕ
header_bytes = 10

abbrev pub max_payload : ℕ
max_payload = 16777216

pub record Frame : Type 0 where
  pub version : ℕ
  pub kind : ℕ
  pub id : ℕ
  pub payload : List ℕ

-- A version that is not given is this side's.
unfoldable pub version_of : Frame → ℕ
version_of frame = if frame.version == 0 then current_version else frame.version

unfoldable pub encode : Frame → Result Error (List ℕ)
encode frame =
    let payload = frame.payload in
    if ltb max_payload (length payload)
    then err payload_too_large
    else ok (
        version_of frame
        ∷ frame.kind
        ∷ (big_endian 4 frame.id ++ (big_endian 4 (length payload) ++ payload)))

-- A reader without its source.
pub record Reader : Type 0 where
  pub limit : ℕ
  pub versions : List ℕ

unfoldable pub new_reader : Reader
new_reader = record { limit = max_payload; versions = current_version ∷ [] }

unfoldable pub accept : Reader → ℕ → Reader
accept r version = record r { versions = version ∷ r.versions }

-- `io.ReadFull` of `n` bytes, and what is left of the source.
unfoldable pub read_full : ℕ → List ℕ → Result Error (List ℕ) × List ℕ
read_full n source =
    if leb n (length source)
    then (ok (take n source), drop n source)
    else (if length source == 0 then err eof else err unexpected_eof, [])

unfoldable pub byte_at : ℕ → List ℕ → ℕ
byte_at i [] = 0
byte_at zero (b ∷ bs) = b
byte_at (suc i) (b ∷ bs) = byte_at i bs

-- `Read` behind the two calls of `io.ReadFull`.
abbrev pub after_payload : List ℕ → Result Error (List ℕ) → List ℕ → Result Error Frame × List ℕ
after_payload header (err e) source = (err unexpected_eof, source)
after_payload header (ok payload) source = (
  ok (record {
    version = byte_at 0 header;
    kind = byte_at 1 header;
    id = of_big_endian (take 4 (drop 2 header));
    payload = payload;
  }),
  source,
)

abbrev pub after_header : Reader → Result Error (List ℕ) → List ℕ → Result Error Frame × List ℕ
after_header r (err e) source = (err e, source)
after_header r (ok header) source =
    let declared = of_big_endian (take 4 (drop 6 header)) in
    let (payload, rest) = read_full declared source in
    if not (has (byte_at 0 header) r.versions)
    then (err version_refused, source)
    else if ltb r.limit declared
    then (err payload_too_large, source)
    else after_payload header payload rest

unfoldable pub read : Reader → List ℕ → Result Error Frame × List ℕ
read r source = let (header, rest) = read_full header_bytes source in after_header r header rest
