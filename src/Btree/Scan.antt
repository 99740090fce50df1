-- ===== src/Btree/Scan.antt =====
-- Ascend and Descend of internal/btree/tree.go. What `visit` keeps between its calls is an
-- accumulator, and it answers whether to go on.
use sapedb.Base.{
  ℕ, zero, suc, ◌-◌, Bool, true, false, Option, none, some, List, [], ◌∷◌, length, take, drop, ◌==◌,
  if◌then◌else◌,
}
use sapedb.Btree.Node.{Kv, Branch, not_a_node, find_key, child_for}
use sapedb.Btree.Pages.{
  of_node, stuck, leaf_page, branch_page, blob_page, other_page, Act, ◌>>=◌, done, fail, read,
}
use sapedb.Btree.Overflow.{load}
use mathlib.Core.List.{reverse}

module _ {S : Type 0} (visit : S → List ℕ → List ℕ → Bool × S) where
  -- The loop over entries in the order of the visit.
  unfoldable pub visit_entries : List Kv → S → Act (Bool × S)
  visit_entries [] acc = done (true, acc)
  visit_entries (e ∷ es) acc = load e >>= λ value.
      let (more, next) = visit acc e.key value in
      let rest = visit_entries es next in if more then rest else done (false, next)

  -- The loop over children: the first from the cursor, the others from their end.
  unfoldable pub visit_children :
      (ℕ → Option (List ℕ) → S → Act (Bool × S)) → Option (List ℕ) → List ℕ → S → Act (Bool × S)
  visit_children go cursor [] acc = done (true, acc)
  visit_children go cursor (child ∷ children) acc = go child cursor acc >>= λ r.
      let rest = visit_children go none children r.1 in if r.0 then rest else done (false, r.1)

  -- Where the entries and the children start.
  unfoldable pub first_entry : List Kv → Option (List ℕ) → ℕ
  first_entry entries none = 0
  first_entry entries (some key) = (find_key entries key).0

  unfoldable pub first_child : List (List ℕ) → Option (List ℕ) → ℕ
  first_child keys none = 0
  first_child keys (some key) = child_for keys key

  unfoldable pub ascend : ℕ → ℕ → Option (List ℕ) → S → Act (Bool × S)
  ascend zero id from acc = fail stuck
  ascend (suc fuel) id from acc = read id >>= λ page. elim page [
    | leaf_page entries ↦ visit_entries (drop (first_entry entries from) entries) acc
    | branch_page node ↦
        visit_children (ascend fuel) from (drop (first_child node.keys from) node.children) acc
    | blob_page next chunk ↦ fail (of_node not_a_node)
    | other_page kind ↦ fail (of_node not_a_node)
  ]

  -- The same from the end: the entries before a key, the last first.
  unfoldable pub last_entry : List Kv → Option (List ℕ) → ℕ
  last_entry entries none = length entries
  last_entry entries (some key) = (find_key entries key).0

  unfoldable pub last_child : Branch → Option (List ℕ) → ℕ
  last_child node none = length node.children - 1
  last_child node (some key) = child_for node.keys key

  unfoldable pub descend : ℕ → ℕ → Option (List ℕ) → S → Act (Bool × S)
  descend zero id from acc = fail stuck
  descend (suc fuel) id from acc = read id >>= λ page. elim page [
    | leaf_page entries ↦ visit_entries (reverse (take (last_entry entries from) entries)) acc
    | branch_page node ↦
        visit_children (descend fuel) from
          (reverse (take (suc (last_child node from)) node.children)) acc
    | blob_page next chunk ↦ fail (of_node not_a_node)
    | other_page kind ↦ fail (of_node not_a_node)
  ]

  -- `Ascend` and `Descend`
  unfoldable pub ascend_from : ℕ → ℕ → Option (List ℕ) → S → Act (Bool × S)
  ascend_from fuel root from acc = if root == 0 then done (true, acc) else ascend fuel root from acc

  unfoldable pub descend_from : ℕ → ℕ → Option (List ℕ) → S → Act (Bool × S)
  descend_from fuel root from acc =
      if root == 0 then done (true, acc) else descend fuel root from acc
