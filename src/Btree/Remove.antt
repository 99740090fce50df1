-- ===== src/Btree/Remove.antt =====
-- Delete, remove, rebalance, collapse and isUnderfull of internal/btree/tree.go.
use sapedb.Base.{
  ℕ, zero, suc, ◌+◌, ◌-◌, ◌/◌, Bool, true, false, none, some, List, [], ◌∷◌, ◌++◌, length, take,
  drop, ltb, leb, ◌==◌, if◌then◌else◌,
}
use sapedb.Btree.Node.{
  Kv, Branch, malformed, not_a_node, cannot_split, key_at, child_for, leaf_bytes, branch_bytes,
  split_leaf, split_branch, separator_at, capacity_bytes, check_key,
}
use sapedb.Btree.Leaf.{get_entry, remove_entry}
use sapedb.Btree.Pages.{
  of_node, stuck, panic, Page, leaf_page, branch_page, blob_page, other_page, Act, ◌>>=◌, ◌>>◌,
  done, fail, index, read, give_page, write_leaf, write_branch,
}
use sapedb.Btree.Overflow.{release}
use sapedb.Btree.Tree.{checked, replace_at}

abbrev pub underfull_bytes : ℕ
underfull_bytes = capacity_bytes / 4

unfoldable pub is_underfull : ℕ → Act Bool
is_underfull id = read id >>= λ page. elim page [
  | leaf_page entries ↦ done (ltb (leaf_bytes entries) underfull_bytes)
  | branch_page node ↦ done (ltb (branch_bytes node) underfull_bytes)
  | blob_page next chunk ↦ fail (of_node not_a_node)
  | other_page kind ↦ fail (of_node not_a_node)
]

-- `append(xs[:at], xs[at+1:]...)`
abbrev pub remove_at : {A : Type 0} → List A → ℕ → List A
remove_at xs at = take at xs ++ drop (suc at) xs

unfoldable pub collapse : Branch → ℕ → ℕ → Branch
collapse node left merged = record {
  keys = remove_at node.keys left;
  children = remove_at (replace_at node.children left merged) (suc left);
}

-- Two siblings shared out anew, and the separator between them.
unfoldable pub share_out : Branch → ℕ → List ℕ → ℕ → ℕ → Branch
share_out node left separator first second = record {
  keys = replace_at node.keys left separator;
  children = replace_at (replace_at node.children left first) (suc left) second;
}

-- The leaf case of `rebalance`, for the pages `first` and `second`.
unfoldable pub rebalance_leaves : Branch → ℕ → ℕ → ℕ → List Kv → Act Branch
rebalance_leaves node left first second merged =
    if leb (leaf_bytes merged) capacity_bytes
    then (do id ← write_leaf first merged; give_page second; done (collapse node left id))
    else elim (split_leaf merged) [
      | none ↦ fail (of_node cannot_split)
      | some cut ↦ do
        a ← write_leaf first (take cut merged)
        b ← write_leaf second (drop cut merged)
        done (share_out node left (key_at merged cut) a b)
    ]

unfoldable pub rebalance_branches : Branch → ℕ → ℕ → ℕ → Branch → Act Branch
rebalance_branches node left first second merged =
    if leb (branch_bytes merged) capacity_bytes
    then (do id ← write_branch first merged; give_page second; done (collapse node left id))
    else elim (split_branch merged) [
      | none ↦ fail (of_node cannot_split)
      | some cut ↦ do
        a ←
            write_branch first
              (record { keys = take cut merged.keys; children = take (suc cut) merged.children })
        b ← write_branch second (record {
          keys = drop (suc cut) merged.keys;
          children = drop (suc cut) merged.children;
        })
        done (share_out node left (separator_at merged.keys cut) a b)
    ]

-- `rebalance` once the two pages are read: two leaves, two nodes, or an error.
unfoldable pub rebalance_pages : Branch → ℕ → ℕ → ℕ → Page → Page → Act Branch
rebalance_pages node left first second (leaf_page entries) (leaf_page more) =
    rebalance_leaves node left first second (entries ++ more)
rebalance_pages node left first second (branch_page a) (branch_page b) =
    index node.keys left >>= λ separator.
    rebalance_branches node left first second (record {
      keys = (a.keys ++ (separator ∷ [])) ++ b.keys;
      children = a.children ++ b.children;
    })
rebalance_pages node left first second (blob_page next chunk) (blob_page more rest) =
    fail (of_node not_a_node)
rebalance_pages node left first second (other_page kind) (other_page kind') =
    fail (of_node (if kind == kind' then not_a_node else malformed))
rebalance_pages node left first second _ _ = fail (of_node malformed)

unfoldable pub rebalance : Branch → ℕ → Act Branch
rebalance node at =
    let left = at - 1 in
    (do
      first ← index node.children left
      page ← read first
      second ← index node.children (left + 1)
      sibling ← read second
      rebalance_pages node left first second page sibling)

-- What `remove` returns: the page, and whether a key was there.
pub record Shrunk : Type 0 where
  pub page : ℕ
  pub removed : Bool

unfoldable pub remove_leaf : ℕ → ℕ → List Kv → List ℕ → Act Shrunk
remove_leaf fuel id entries key = elim (get_entry entries key) [
  | none ↦ done (record { page = id; removed = false })
  | some old ↦ release fuel old >> (elim (remove_entry entries key) [
    | none ↦ fail panic
    | some rest ↦ write_leaf id rest >>= λ n. done (record { page = n; removed = true })
  ])
]

-- The node case of `remove`, behind the call for the child.
unfoldable pub remove_branch : ℕ → Branch → ℕ → Shrunk → Act Shrunk
remove_branch id node at s =
    let changed : Branch = record {
      keys = node.keys;
      children = replace_at node.children at s.page;
    } in
    let go : Act Shrunk = (do
      underfull ← is_underfull s.page
      fitting ← (if underfull then rebalance changed at else done changed)
      n ← write_branch id fitting
      done (record { page = n; removed = true })) in
    if s.removed then go else done (record { page = id; removed = false })

unfoldable pub remove : ℕ → ℕ → List ℕ → Act Shrunk
remove zero id key = fail stuck
remove (suc fuel) id key = read id >>= λ page. elim page [
  | leaf_page entries ↦ remove_leaf (suc fuel) id entries key
  | branch_page node ↦
      let at = child_for node.keys key in
      index node.children at >>= λ child. remove fuel child key >>= λ s. remove_branch id node at s
  | blob_page next chunk ↦ fail (of_node not_a_node)
  | other_page kind ↦ fail (of_node not_a_node)
]

-- The loop of `Delete` that takes levels off: the root that is left.
unfoldable pub lower_root : ℕ → ℕ → Act ℕ
lower_root zero root = fail stuck
lower_root (suc fuel) root = read root >>= λ page. elim page [
  | branch_page node ↦
      let lower : Act ℕ =
        give_page root >> (index node.children 0 >>= λ child. lower_root fuel child) in
      if ltb 1 (length node.children) then done root else lower
  | leaf_page entries ↦ if length entries == 0 then give_page root >> done 0 else done root
  | blob_page next chunk ↦ fail (of_node not_a_node)
  | other_page kind ↦ fail (of_node not_a_node)
]

-- `Delete`: whether the key was there, and the root.
unfoldable pub delete : ℕ → ℕ → List ℕ → Act (Bool × ℕ)
delete fuel root key =
    let work : Act (Bool × ℕ) = remove fuel root key >>= λ s.
    if s.removed then (lower_root fuel s.page >>= λ r. done (true, r)) else done (false, root) in
    checked (check_key key) >> (if root == 0 then done (false, root) else work)
