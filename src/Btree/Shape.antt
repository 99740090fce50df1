-- ===== src/Btree/Shape.antt =====
-- The trees that the pages of internal/btree hold, as data: which pages they stand on, the entries
-- of their leaves in order, and the order that the separators promise.
use sapedb.Base.{
  ℕ, suc, ◌<◌, ◌≡◌, max, true, false, Option, none, some, List, [], ◌∷◌, ◌++◌, All, ok, inl, inr,
}
use sapedb.Base.Lex.{key_lt, key_lt_trans, key_cases}
use sapedb.Btree.Node.{Kv}
use sapedb.Btree.Sorted.{IsSorted, keys_of}
use sapedb.Btree.Pages.{Page, leaf_page, branch_page, Pages}

mutual
  pub data Tree : Type 0 where
    leaf_node : ℕ → List Kv → Tree
    branch_node : ℕ → Forest → Tree

  -- The children of a node, with the separators between them.
  pub data Forest : Type 0 where
    one_child : Tree → Forest
    and_child : Tree → List ℕ → Forest → Forest

abbrev pub root : Tree → ℕ
root (leaf_node id es) = id
root (branch_node id f) = id

abbrev pub roots : Forest → List ℕ
roots (one_child t) = root t ∷ []
roots (and_child t k f) = root t ∷ roots f

abbrev pub separators : Forest → List (List ℕ)
separators (one_child t) = []
separators (and_child t k f) = k ∷ separators f

-- The entries of the leaves, from the first to the last.
abbrev mutual
  pub entries : Tree → List Kv
  entries (leaf_node id es) = es
  entries (branch_node id f) = entries_of f

  pub entries_of : Forest → List Kv
  entries_of (one_child t) = entries t
  entries_of (and_child t k f) = entries t ++ entries_of f

abbrev mutual
  pub depth : Tree → ℕ
  depth (leaf_node id es) = 1
  depth (branch_node id f) = suc (depth_of f)

  pub depth_of : Forest → ℕ
  depth_of (one_child t) = depth t
  depth_of (and_child t k f) = max (depth t) (depth_of f)

-- A page of the file, and what it decodes to.
abbrev pub Holds : Pages → ℕ → Page → Type 0
Holds s id page = (0 < id) × (id < s.pager.meta.page_count) × (s.page_at id ≡ ok page)

abbrev mutual
  pub Stored : Pages → Tree → Type 0
  Stored s (leaf_node id es) = Holds s id (leaf_page es)
  Stored s (branch_node id f) =
      Holds s id (branch_page (record { keys = separators f; children = roots f })) × StoredAll s f

  pub StoredAll : Pages → Forest → Type 0
  StoredAll s (one_child t) = Stored s t
  StoredAll s (and_child t k f) = Stored s t × StoredAll s f

-- At or above a bound, strictly above it, and below one.
abbrev pub From : Option (List ℕ) → List ℕ → Type 0
From none k = Unit
From (some b) k = key_lt k b ≡ false

abbrev pub Beyond : Option (List ℕ) → List ℕ → Type 0
Beyond none k = Unit
Beyond (some b) k = key_lt b k ≡ true

abbrev pub Under : Option (List ℕ) → List ℕ → Type 0
Under none k = Unit
Under (some b) k = key_lt k b ≡ true

-- The keys of a leaf ascend, and those of a subtree stand between the separators around it.
abbrev mutual
  pub Ordered : Option (List ℕ) → Option (List ℕ) → Tree → Type 0
  Ordered lo hi (leaf_node id es) =
      IsSorted (keys_of es) × All (From lo) (keys_of es) × All (Under hi) (keys_of es)
  Ordered lo hi (branch_node id f) = OrderedAll lo hi f

  pub OrderedAll : Option (List ℕ) → Option (List ℕ) → Forest → Type 0
  OrderedAll lo hi (one_child t) = Ordered lo hi t
  OrderedAll lo hi (and_child t k f) =
      Beyond lo k × Under hi k × Ordered lo (some k) t × OrderedAll (some k) hi f

pub lt_le : (a k b : List ℕ) → key_lt a k ≡ true → key_lt b k ≡ false → key_lt a b ≡ true
lt_le a k b p q = elim (key_cases k b) [
  | inl r ↦ key_lt_trans a k b p r
  | inr (inl e) ↦ cc
  | inr (inr r) ↦ cc
]

pub le_lt : (a k b : List ℕ) → key_lt k a ≡ false → key_lt k b ≡ true → key_lt a b ≡ true
le_lt a k b p q = elim (key_cases a k) [
  | inl r ↦ key_lt_trans a k b r q
  | inr (inl e) ↦ cc
  | inr (inr r) ↦ cc
]
