-- ===== src/Btree/Tree.antt =====
-- Get, Put and insert of internal/btree/tree.go. `fuel` bounds the depth of a tree and the length of
-- a chain that is given up.
use sapedb.Base.{
  ℕ, zero, suc, Option, none, some, List, [], ◌∷◌, ◌++◌, length, take, drop, ltb, leb, ◌==◌,
  if◌then◌else◌, Result, ok, err,
}
use sapedb.Btree.Node.{
  Kv, Branch, malformed, not_a_node, cannot_split, value_too_large, key_at, find_key, child_for,
  leaf_bytes, branch_bytes, split_leaf, split_branch, separator_at, capacity_bytes, max_value,
  check_key,
}
use sapedb.Btree.Node
use sapedb.Btree.Leaf.{put_entry, get_entry}
use sapedb.Btree.Pages.{
  of_node, stuck, leaf_page, branch_page, blob_page, other_page, Act, ◌>>=◌, ◌>>◌, done, fail,
  index, read, write_leaf, write_branch,
}
use sapedb.Btree.Overflow.{load, release, store}

-- An error that the caller answers.
unfoldable pub checked : Result Node.Error (Unit {0}) → Act (Unit {0})
checked (ok v) = done tt
checked (err e) = fail (of_node e)

-- What `Get` answers for an entry that was found, or was not.
abbrev pub loaded : Option Kv → Act (Option (List ℕ))
loaded none = done none
loaded (some e) = load e >>= λ value. done (some value)

-- What a leaf answers to `Get`.
unfoldable pub get_leaf : List Kv → List ℕ → Act (Option (List ℕ))
get_leaf entries key = loaded (get_entry entries key)

-- The loop of `Get`, from a page that is not 0 on.
unfoldable pub get_loop : ℕ → ℕ → List ℕ → Act (Option (List ℕ))
get_loop zero id key = fail stuck
get_loop (suc fuel) id key = read id >>= λ page. elim page [
  | leaf_page entries ↦ get_leaf entries key
  | branch_page node ↦ index node.children (child_for node.keys key) >>= λ child.
      let deeper = get_loop fuel child key in
      if child == 0 then fail (of_node malformed) else deeper
  | blob_page next chunk ↦ fail (of_node not_a_node)
  | other_page kind ↦ fail (of_node not_a_node)
]

unfoldable pub get : ℕ → ℕ → List ℕ → Act (Option (List ℕ))
get fuel root key = do
  checked (check_key key)
  if root == 0 then done none else get_loop fuel root key

-- What `insert` returns: the page, and a separator and a second page, or 0, after a split.
pub record Grown : Type 0 where
  pub left : ℕ
  pub separator : List ℕ
  pub right : ℕ

-- The pages of a value that is replaced or removed are given up.
abbrev pub released : ℕ → Option Kv → Act (Unit {0})
released fuel none = done tt
released fuel (some old) = release fuel old

-- The two halves of a leaf, if there is a cut.
unfoldable pub write_leaves : ℕ → List Kv → Option ℕ → Act Grown
write_leaves id entries none = fail (of_node cannot_split)
write_leaves id entries (some cut) = do
  l ← write_leaf id (take cut entries)
  r ← write_leaf 0 (drop cut entries)
  done (record { left = l; separator = key_at entries cut; right = r })

-- The leaf case of `insert`.
unfoldable pub insert_leaf : ℕ → ℕ → List Kv → Kv → Act Grown
insert_leaf fuel id entries entry =
    let longer = put_entry entries entry in
    released fuel (get_entry entries entry.key)
    >> (if leb (leaf_bytes longer) capacity_bytes
        then (write_leaf id longer >>= λ n. done (record { left = n; separator = []; right = 0 }))
        else write_leaves id longer (split_leaf longer))

-- `xs[at] = x`, and the insertion of `x` at a place.
unfoldable pub replace_at : {A : Type 0} → List A → ℕ → A → List A
replace_at [] at x = []
replace_at (y ∷ ys) zero x = x ∷ ys
replace_at (y ∷ ys) (suc at) x = y ∷ replace_at ys at x

abbrev pub insert_at : {A : Type 0} → List A → ℕ → A → List A
insert_at xs at x = take at xs ++ (x ∷ drop at xs)

-- The node after its child at a place was inserted into.
unfoldable pub grown_branch : Branch → ℕ → Grown → Branch
grown_branch node at g =
    let children = replace_at node.children at g.left in
    if g.right == 0 then record { keys = node.keys; children = children } else record {
      keys = insert_at node.keys at g.separator;
      children = insert_at children (suc at) g.right;
    }

-- The two halves of a node, if there is a cut.
unfoldable pub write_branches : ℕ → Branch → Option ℕ → Act Grown
write_branches id node none = fail (of_node cannot_split)
write_branches id node (some cut) = do
  l ←
      write_branch id
        (record { keys = take cut node.keys; children = take (suc cut) node.children })
  r ←
      write_branch 0
        (record { keys = drop (suc cut) node.keys; children = drop (suc cut) node.children })
  done (record { left = l; separator = separator_at node.keys cut; right = r })

-- The node case of `insert`, behind the call for the child.
unfoldable pub insert_branch : ℕ → Branch → Act Grown
insert_branch id node =
    if leb (branch_bytes node) capacity_bytes
    then (write_branch id node >>= λ n. done (record { left = n; separator = []; right = 0 }))
    else write_branches id node (split_branch node)

unfoldable pub insert : ℕ → ℕ → Kv → Act Grown
insert zero id entry = fail stuck
insert (suc fuel) id entry = read id >>= λ page. elim page [
  | leaf_page entries ↦ insert_leaf (suc fuel) id entries entry
  | branch_page node ↦
      let at = child_for node.keys entry.key in
      index node.children at >>= λ child.
      insert fuel child entry >>= λ g. insert_branch id (grown_branch node at g)
  | blob_page next chunk ↦ fail (of_node not_a_node)
  | other_page kind ↦ fail (of_node not_a_node)
]

-- The root after an `insert`: a new one over two pages.
unfoldable pub grown_root : Grown → Act ℕ
grown_root g =
    if g.right == 0
    then done g.left
    else write_branch 0 (record { keys = g.separator ∷ []; children = g.left ∷ g.right ∷ [] })

-- `Put` once the entry is stored: the new root.
unfoldable pub put_stored : ℕ → ℕ → Kv → Act ℕ
put_stored fuel root entry =
    if root == 0 then write_leaf 0 (entry ∷ []) else insert fuel root entry >>= grown_root

unfoldable pub put : ℕ → ℕ → List ℕ → List ℕ → Act ℕ
put fuel root key value = do
  checked (check_key key)
  if ltb max_value (length value) then fail (of_node value_too_large) else done tt
  entry ← store key value
  put_stored fuel root entry
