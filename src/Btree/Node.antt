-- ===== src/Btree/Node.antt =====
-- The entries and sizes of internal/btree/node.go, its searches and its two splits.
-- A key and a value are their bytes. `head` is 0 where the value stands beside its key.
use sapedb.Base.{
  ℕ, zero, suc, ◌+◌, ◌-◌, ◌*◌, ◌/◌, ◌^◌, Bool, not, ◌&&◌, ◌||◌, Option, none, some, List, [], ◌∷◌,
  length, get_elem?, ltb, ◌==◌, if◌then◌else◌, Result, ok, err,
}
use sapedb.Base.Lex.{key_lt, key_eq}
use sapedb.Base.Search.{search}

pub data Error : Type 0 where
  empty_key key_too_large value_too_large cannot_split malformed not_a_node broken_chain
        bad_counts :
      Error

abbrev pub page_bytes : ℕ
page_bytes = 4096

abbrev pub header_bytes : ℕ
header_bytes = 48

abbrev pub capacity_bytes : ℕ
capacity_bytes = page_bytes - header_bytes

abbrev pub leaf_header : ℕ
leaf_header = 2

abbrev pub branch_header : ℕ
branch_header = 2 + 8

abbrev pub slot_bytes : ℕ
slot_bytes = 2

abbrev pub leaf_entry : ℕ
leaf_entry = 2 + 4

abbrev pub branch_entry : ℕ
branch_entry = 2 + 8

abbrev pub max_key : ℕ
max_key = 512

abbrev pub max_inline : ℕ
max_inline = capacity_bytes / 2 - leaf_entry - slot_bytes - max_key

abbrev pub max_value : ℕ
max_value = 16 * 2 ^ 20

abbrev pub reference_bytes : ℕ
reference_bytes = 8

pub record Kv : Type 0 where
  pub key : List ℕ
  pub value : List ℕ
  pub head : ℕ
  pub length : ℕ

pub record Branch : Type 0 where
  pub keys : List (List ℕ)
  pub children : List ℕ

unfoldable pub overflows : Kv → Bool
overflows e = not (e.head == 0)

unfoldable pub inline_bytes : Kv → ℕ
inline_bytes e = if overflows e then reference_bytes else length e.value

unfoldable pub check_key : List ℕ → Result Error (Unit {0})
check_key key =
    if length key == 0
    then err empty_key
    else if ltb max_key (length key)
    then err key_too_large
    else ok tt

-- What one entry takes: its slot, its lengths, its key and its value.
unfoldable pub entry_bytes : Kv → ℕ
entry_bytes e = slot_bytes + leaf_entry + length e.key + inline_bytes e

unfoldable pub separator_bytes : List ℕ → ℕ
separator_bytes key = slot_bytes + branch_entry + length key

-- The loop `total += size` over a list.
unfoldable pub add_sizes {ℓ} : {A : Type ℓ} → (A → ℕ) → ℕ → List A → ℕ
add_sizes size total [] = total
add_sizes size total (x ∷ xs) = add_sizes size (total + size x) xs

unfoldable pub leaf_bytes : List Kv → ℕ
leaf_bytes entries = add_sizes entry_bytes leaf_header entries

unfoldable pub branch_bytes : Branch → ℕ
branch_bytes node = add_sizes separator_bytes branch_header node.keys

-- `entries[i].key`
unfoldable pub key_at : List Kv → ℕ → List ℕ
key_at entries i = elim (get_elem? entries i) [ none ↦ [] | some e ↦ e.key ]

-- `findKey`: the place of a key, and whether it is there.
unfoldable pub find_key : List Kv → List ℕ → ℕ × Bool
find_key entries key =
    let at = search (length entries) (λ i. not (key_lt (key_at entries i) key)) in
    (at, ltb at (length entries) && key_eq (key_at entries at) key)

-- `keys[i]`
unfoldable pub separator_at : List (List ℕ) → ℕ → List ℕ
separator_at keys i = elim (get_elem? keys i) [ none ↦ [] | some k ↦ k ]

-- `childFor`
unfoldable pub child_for : List (List ℕ) → List ℕ → ℕ
child_for keys key = search (length keys) (λ i. key_lt key (separator_at keys i))

-- The loop that fills `prefix`, `total` being the entry that it has written last.
unfoldable pub prefix_loop {ℓ} : {A : Type ℓ} → (A → ℕ) → ℕ → List A → List ℕ
prefix_loop size total [] = total ∷ []
prefix_loop size total (x ∷ xs) = total ∷ prefix_loop size (total + size x) xs

-- `prefix[i]`
unfoldable pub prefix_at : List ℕ → ℕ → ℕ
prefix_at prefix i = elim (get_elem? prefix i) [ none ↦ 0 | some n ↦ n ]

-- `skew := left - right; if skew < 0 { skew = -skew }`
unfoldable pub skew_of : ℕ → ℕ → ℕ
skew_of left right = if ltb left right then right - left else left - right

-- One round of the loop of a split: the best cut so far, if any, and its skew.
unfoldable pub better : ℕ → ℕ → ℕ → Option (ℕ × ℕ) → Option (ℕ × ℕ)
better cut left right none =
    if ltb capacity_bytes left || ltb capacity_bytes right
    then none
    else some (cut, skew_of left right)
better cut left right (some (best, skew)) =
    if ltb capacity_bytes left || ltb capacity_bytes right
    then some (best, skew)
    else if ltb (skew_of left right) skew
    then some (cut, skew_of left right)
    else some (best, skew)

-- The loop from `cut` on, with `rounds` cuts left to try.
unfoldable pub cut_loop : (ℕ → ℕ) → (ℕ → ℕ) → ℕ → ℕ → Option (ℕ × ℕ) → Option (ℕ × ℕ)
cut_loop left right zero cut best = best
cut_loop left right (suc rounds) cut best =
    cut_loop left right rounds (suc cut) (better cut (left cut) (right cut) best)

-- The cut of the best pair.
unfoldable pub chosen : Option (ℕ × ℕ) → Option ℕ
chosen none = none
chosen (some (cut, skew)) = some cut

-- `splitLeaf`: the cuts 1, ..., len - 1; `none` is the answer (0, false).
unfoldable pub split_leaf : List Kv → Option ℕ
split_leaf entries =
    let prefix = prefix_loop entry_bytes 0 entries in
    let n = length entries in
    chosen (
      cut_loop (λ cut. leaf_header + prefix_at prefix cut)
        (λ cut. leaf_header + prefix_at prefix n - prefix_at prefix cut) (n - 1) 1 none)

-- `splitBranch`: the cuts 0, ..., len - 1; the key at the cut goes to neither side.
unfoldable pub split_branch : Branch → Option ℕ
split_branch node =
    let prefix = prefix_loop separator_bytes 0 node.keys in
    let n = length node.keys in
    chosen (
      cut_loop (λ cut. branch_header + prefix_at prefix cut)
        (λ cut. branch_header + prefix_at prefix n - prefix_at prefix (cut + 1)) n 0 none)
