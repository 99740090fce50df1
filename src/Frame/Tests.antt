-- ===== src/Frame/Tests.antt =====
-- Runs of the frame code, and its theorems at concrete inputs.
use sapedb.Base.{ℕ, ◌≡◌, refl, List, [], ◌∷◌, ◌++◌, ok, err, arith, take}
use sapedb.Base.Bytes.{big_endian}
use sapedb.Frame.{unexpected_eof, Frame, encode, version_of, Reader, new_reader, accept, read}
use sapedb.Frame.RoundTrip.{read-encode, read_cut}

abbrev ping : Frame
ping = record { version = 0; kind = 3; id = 258; payload = 7 ∷ 8 ∷ [] }

abbrev ping_bytes : List ℕ
ping_bytes = 1 ∷ 3 ∷ 0 ∷ 0 ∷ 1 ∷ 2 ∷ 0 ∷ 0 ∷ 0 ∷ 2 ∷ 7 ∷ 8 ∷ []

ping_encodes : encode ping ≡ ok ping_bytes
unfolding encode version_of big_endian
ping_encodes = refl

abbrev both : Reader
both = accept new_reader 2

read-encode_example :
    read both (ping_bytes ++ (9 ∷ [])) ≡ (ok (record ping { version = version_of ping }), 9 ∷ [])
unfolding accept new_reader version_of
read-encode_example =
    read-encode ping both ping_bytes (9 ∷ []) ping_encodes (omega arith) refl (omega arith)

read_cut_example : (read both (take 11 ping_bytes)).0 ≡ err unexpected_eof
unfolding accept new_reader version_of
read_cut_example =
    read_cut ping both ping_bytes 11 ping_encodes (omega arith) refl (omega arith) (omega arith)
