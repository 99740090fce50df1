-- ===== src/Btree/LedHead.antt =====
-- Put of internal/btree/tree.go into a new file of internal/pager/led.go, which has one reserved
-- page.
use sapedb.Base.{
  ℕ, ◌+◌, ◌-◌, ◌/◌, ◌≤◌, ◌<◌, ◌≡◌, refl, true, false, List, [], ◌∷◌, length, leb, ltb, Result, ok,
  err, arith,
}
use sapedb.Btree.Node.{
  Kv, check_key, max_inline, max_value, max_key, malformed, capacity_bytes, overflows, leaf_bytes,
  entry_bytes, inline_bytes,
}
use sapedb.Btree.Sizes.{leaf_bytes-total}
use sapedb.Btree.Pages.{
  Fault, of_node, Page, Pages, place, take_page, write, read, write_leaf, encoded_leaf, every,
  reads_back,
}
use sapedb.Btree.Overflow.{overflow_chunk, write_overflow, write_chunks, store}
use sapedb.Btree.Tree.{put, put_stored, get, get_loop, checked}
use sapedb.Btree.Whole.{short_of_check}
use sapedb.Pager.Freelist.{create_led, new_pager, allocate, promote, hand_out, grow}

-- A new file in which every write succeeds.
abbrev new_led : (ℕ → Result Fault Page) → Pages
new_led pages = record { pager = create_led 0; page_at = pages; writable = λ id. true }

-- The entry that Put makes of the value.
abbrev chained : List ℕ → List ℕ → Kv
chained key value = record { key = key; value = []; head = 1; length = length value }

head_fits :
    (key value : List ℕ)
    → length key ≤ max_key
    → leaf_bytes (chained key value ∷ []) ≤ capacity_bytes
unfolding entry_bytes inline_bytes overflows
head_fits key value l = omega (arith, leaf_bytes-total (chained key value ∷ []))

head_refused : (key value : List ℕ) → reads_back (chained key value) ≡ false
unfolding reads_back overflows
head_refused key value = ground arith

-- A first value that takes one page of its own is put on page 1, and Put answers its root, page 2.
-- decodeLeaf takes an entry that points at page 1 for damage, so Get of the key answers an error.
pub put-get_led :
    (pages : ℕ → Result Fault Page) (key value : List ℕ)
    → check_key key ≡ ok tt
    → max_inline < length value
    → length value ≤ overflow_chunk
    → ((put 1 0 key value (new_led pages)).0 ≡ ok 2)
      × ((get 1 2 key (put 1 0 key value (new_led pages)).1).0 ≡ err (of_node malformed))
unfolding put put_stored store write_overflow write_chunks take_page allocate promote hand_out grow
    create_led new_pager write write_leaf place encoded_leaf every overflows get get_loop read
    checked
put-get_led pages key value k l u =
    rw (k, small, large, single, fits, head_refused key value) (refl, refl)
  where
    small : ltb max_value (length value) ≡ false
    small = ground arith

    large : leb (length value) max_inline ≡ false
    large = ground arith

    single : (length value - 1) / overflow_chunk + 1 ≡ 1
    single = omega arith

    short_key : length key ≤ max_key
    short_key = short_of_check key k

    fits : ltb capacity_bytes (leaf_bytes (chained key value ∷ [])) ≡ false
    fits = ground (arith, head_fits key value short_key)
