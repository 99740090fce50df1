-- ===== src/Btree/TreeTests.antt =====
-- Trees of a few pages for internal/btree/tree.go.
use sapedb.Base.{
  ℕ, zero, suc, ◌<◌, ◌≡◌, refl, Bool, true, false, none, some, List, [], ◌∷◌, ok, err, ◌==◌,
  if◌then◌else◌, arith, ltb, length,
}
use sapedb.Base.Bytes.{lex}
use sapedb.Base.Lex.{key_lt, key_eq}
use sapedb.Base.Search.{search, search_loop}
use sapedb.Btree.Node.{
  Kv, check_key, overflows, find_key, key_at, child_for, separator_at, leaf_bytes, branch_bytes,
  add_sizes, entry_bytes, separator_bytes, inline_bytes,
}
use sapedb.Btree.Overflow.{load, store, release}
use sapedb.Btree.Leaf.{get_entry, put_entry}
use sapedb.Btree.Pages.{
  leaf_page, branch_page, Pages, of_pager, reads_back, index, read, write, write_leaf, write_branch,
  place, take_page, give_page, encoded_leaf, encoded_branch, every,
}
use sapedb.Btree.Tree.{
  get, put, put_stored, insert, insert_leaf, insert_branch, grown_branch, grown_root, replace_at,
  checked,
}
use sapedb.Btree.Scan.{ascend_from, descend_from, visit_entries}
use sapedb.Btree.Shape.{Tree, leaf_node, branch_node, one_child, and_child, Stored, Ordered}
use sapedb.Btree.Lookup.{get-find}
use sapedb.Btree.Walk.{ascend_from-entries}
use sapedb.Btree.WalkBack.{descend_from-entries}
use sapedb.Btree.Whole.{Sound}
use sapedb.Btree.LedHead.{put-get_led}
use sapedb.Pager.Freelist.{create_led}
use sapedb.Btree.Node.{malformed}
use sapedb.Btree.Pages.{blob_page, of_node}
use sapedb.Btree.Chain.{load-store, release-store}
use sapedb.Base.Ids.{count}
use sapedb.Pager.Accounts.{Accounts}
use sapedb.Btree.Writes.{Does, IsRefusal}
use sapedb.Pager.Freelist.{
  create, new_pager, allocate, free, hand_out, grow, promote, dirty, bad_checksum,
}

abbrev plain : List ℕ → List ℕ → Kv
plain key value = record { key = key; value = value; head = 0; length = 0 }

-- Two leaves, on the pages 2 and 3, under a node on page 4.
abbrev two_leaves : Tree
two_leaves = branch_node 4 (
    and_child (leaf_node 2 (plain (1 ∷ []) (7 ∷ []) ∷ plain (3 ∷ []) (8 ∷ []) ∷ [])) (5 ∷ [])
      (one_child (leaf_node 3 (plain (5 ∷ []) (9 ∷ []) ∷ plain (6 ∷ []) [] ∷ []))))

abbrev pages_of_two : Pages
pages_of_two = record {
  pager = let p = create 0 in record p { meta = record p.meta { page_count = 5 }; committed = 5 };
  page_at = λ id.
      if id == 2
      then ok (leaf_page (plain (1 ∷ []) (7 ∷ []) ∷ plain (3 ∷ []) (8 ∷ []) ∷ []))
      else if id == 3
      then ok (leaf_page (plain (5 ∷ []) (9 ∷ []) ∷ plain (6 ∷ []) [] ∷ []))
      else if id == 4
      then ok (branch_page (record { keys = (5 ∷ []) ∷ []; children = 2 ∷ 3 ∷ [] }))
      else err (of_pager bad_checksum);
  writable = λ id. true;
}

two_leaves-Stored : Stored pages_of_two two_leaves
unfolding create
two_leaves-Stored = (
  (omega arith, omega arith, refl),
  ((omega arith, omega arith, refl), (omega arith, omega arith, refl)),
)

two_leaves-Ordered : Ordered none none two_leaves
unfolding key_lt lex
two_leaves-Ordered = (
  tt,
  tt,
  (((refl, tt), (tt, tt)), (tt, (tt, tt)), (refl, (refl, tt))),
  (((refl, tt), (tt, tt)), (refl, (refl, tt)), (tt, (tt, tt))),
)

get-find_example : get 2 4 (3 ∷ []) pages_of_two ≡ (ok (some (8 ∷ [])), pages_of_two)
unfolding checked check_key load overflows key_lt key_eq lex
get-find_example =
    get-find pages_of_two 2 two_leaves (3 ∷ []) two_leaves-Stored two_leaves-Ordered (omega arith)

-- A visitor that collects keys and stops behind a number of them.
abbrev collect : List (List ℕ) → List ℕ → List ℕ → Bool × List (List ℕ)
collect keys key value = (ltb (length keys) 1, key ∷ keys)

ascend_from-entries_example :
    ascend_from collect 2 4 (some (3 ∷ [])) [] pages_of_two
    ≡ (ok (false, (5 ∷ []) ∷ (3 ∷ []) ∷ []), pages_of_two)
unfolding visit_entries load overflows key_lt lex
ascend_from-entries_example =
    ascend_from-entries collect pages_of_two 2 two_leaves (some (3 ∷ [])) [] two_leaves-Stored
      two_leaves-Ordered (omega arith)

descend_from-entries_example :
    descend_from collect 2 4 (some (6 ∷ [])) [] pages_of_two
    ≡ (ok (false, (3 ∷ []) ∷ (5 ∷ []) ∷ []), pages_of_two)
unfolding visit_entries load overflows key_lt lex
descend_from-entries_example =
    descend_from-entries collect pages_of_two 2 two_leaves (some (6 ∷ [])) [] two_leaves-Stored
      two_leaves-Ordered (omega arith)

two_leaves-Sound : Sound pages_of_two (some two_leaves) []
unfolding create new_pager reads_back overflows
two_leaves-Sound = record {
  positive = omega arith;
  accounts = record { each = λ a. ground arith; marked = λ a m. cc; sized = omega arith };
  tree = (
    two_leaves-Stored,
    two_leaves-Ordered,
    (((refl, refl), ((refl, refl), tt)), omega arith, ((refl, refl), ((refl, refl), tt))),
    (1, refl, tt, (refl, refl)),
  );
}

-- The same Put, run: the leaf and the node above it move to new pages.
put_run : (put 2 4 (4 ∷ []) (1 ∷ []) pages_of_two).0 ≡ ok 6
unfolding put put_stored insert insert_leaf insert_branch grown_branch grown_root check_key checked
    store release get_entry find_key key_at put_entry child_for separator_at search search_loop
    index read write write_leaf write_branch place take_page give_page allocate free hand_out grow
    promote dirty encoded_leaf encoded_branch every reads_back overflows leaf_bytes branch_bytes
    add_sizes entry_bytes separator_bytes inline_bytes replace_at create new_pager key_lt key_eq lex
put_run = refl

-- A value of some pages.
fill : ℕ → List ℕ
fill zero = []
fill (suc n) = 7 ∷ fill n

load-store_example :
    Does
      (store (7 ∷ []) (fill 9000))
      pages_of_two
      (λ e t.
        (e.key ≡ 7 ∷ [])
        × (load e t ≡ (ok (fill 9000), t))
        × ((a : ℕ) → 0 < count a (4 ∷ 2 ∷ 3 ∷ []) → t.page_at a ≡ pages_of_two.page_at a))
      IsRefusal
load-store_example =
    load-store pages_of_two (7 ∷ []) (fill 9000) (4 ∷ 2 ∷ 3 ∷ []) two_leaves-Sound.positive
      two_leaves-Sound.accounts

release-store_example :
    Does
      (store (7 ∷ []) (fill 9000))
      pages_of_two
      (λ e t.
        Does
          (release (suc (length (fill 9000))) e)
          t
          (λ v u. Accounts u.pager (4 ∷ 2 ∷ 3 ∷ []))
          (λ x. 0 < 0))
      IsRefusal
release-store_example =
    release-store pages_of_two (7 ∷ []) (fill 9000) (4 ∷ 2 ∷ 3 ∷ []) two_leaves-Sound.positive
      two_leaves-Sound.accounts

-- A value of 1600 bytes.
abbrev repeat : ℕ → List ℕ
repeat zero = []
repeat (suc n) = 7 ∷ repeat n

put-get_led_example :
    ((put 1 0 (9 ∷ []) (repeat 1600) (record {
      pager = create_led 0;
      page_at = λ id. err (of_pager bad_checksum);
      writable = λ id. true;
    })).0
      ≡ ok 2)
    × ((get 1 2
          (9 ∷ [])
          (put 1 0 (9 ∷ []) (repeat 1600) (record {
            pager = create_led 0;
            page_at = λ id. err (of_pager bad_checksum);
            writable = λ id. true;
          })).1).0
        ≡ err (of_node malformed))
unfolding check_key
put-get_led_example =
    put-get_led (λ id. err (of_pager bad_checksum)) (9 ∷ []) (repeat 1600) refl (omega arith)
      (omega arith)

-- A chain of two pages whose first points at a leaf.
abbrev broken_pages : Pages
broken_pages = record pages_of_two {
  page_at = λ id. if id == 2 then ok (blob_page 3 (7 ∷ 7 ∷ [])) else pages_of_two.page_at id;
}
