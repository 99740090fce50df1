-- ===== src/Btree/WalkBack.antt =====
-- Descend of internal/btree/tree.go on a whole tree of pages.
use sapedb.Base.{
  ℕ, zero, suc, ◌-◌, ◌≤◌, ◌≡◌, refl, ap, ◌∙◌, length, Bool, true, false, Option, none, some, List,
  [], ◌∷◌, ◌++◌, take, take-length, append-nil, append_assoc, if◌then◌else◌, arith, Bool-cases, inl,
  inr, All,
}
use sapedb.Base.Lex.{key_lt}
use sapedb.Btree.Node.{Kv, Branch}
use sapedb.Btree.Sorted.{
  IsSorted, keys_of, rank, find_key-rank, rank_through, child_for-rank_through,
}
use sapedb.Btree.Pages.{Pages, leaf_page, branch_page, Act}
use sapedb.Btree.Scan.{visit_entries, visit_children, descend, last_entry, last_child, descend_from}
use sapedb.Btree.Shape.{
  Tree, Forest, leaf_node, branch_node, one_child, and_child, root, roots, separators, entries,
  entries_of, depth, depth_of, From, Under, Ordered, OrderedAll, Stored, StoredAll, lt_le,
}
use sapedb.Btree.Flat.{entries_of-From, entries-Under, separators-IsSorted, key_over}
use sapedb.Btree.Lookup.{read-Holds, root-pos}
use sapedb.Btree.Walk.{visit_children-cons, visit_children-nil}
use mathlib.Core.List.{reverse, reverse-cons, reverse-append}

-- The entries below a cursor.
abbrev pub entries_below : Option (List ℕ) → List Kv → List Kv
entries_below none es = es
entries_below (some key) [] = []
entries_below (some key) (e ∷ es) = if key_lt e.key key then e ∷ entries_below (some key) es else []

take-rank :
    (key : List ℕ) (es : List Kv) → take (rank (keys_of es) key) es ≡ entries_below (some key) es
take-rank key [] = refl
take-rank key (e ∷ es) = elim (Bool-cases (key_lt e.key key)) [
  | inl p ↦ rw p (ap (λ l. e ∷ l) (take-rank key es))
  | inr p ↦ rw p refl
]

entries_below-right :
    (k key : List ℕ) (xs ys : List Kv)
    → key_lt key k ≡ false
    → All (Under (some k)) (keys_of xs)
    → entries_below (some key) (xs ++ ys) ≡ xs ++ entries_below (some key) ys
entries_below-right k key [] ys l u = refl
entries_below-right k key (x ∷ xs) ys l u =
    rw (lt_le x.key k key u.0 l) (ap (λ r. x ∷ r) (entries_below-right k key xs ys l u.1))

entries_below-none :
    (k key : List ℕ) (ys : List Kv)
    → key_lt key k ≡ true
    → All (From (some k)) (keys_of ys)
    → entries_below (some key) ys ≡ []
entries_below-none k key [] l h = refl
entries_below-none k key (y ∷ ys) l h = rw (key_over k key y.key l h.0) refl

entries_below-left :
    (k key : List ℕ) (xs ys : List Kv)
    → key_lt key k ≡ true
    → All (From (some k)) (keys_of ys)
    → entries_below (some key) (xs ++ ys) ≡ entries_below (some key) xs
entries_below-left k key [] ys l h = entries_below-none k key ys l h
entries_below-left k key (x ∷ xs) ys l h = elim (Bool-cases (key_lt x.key key)) [
  | inl p ↦ rw p (ap (λ r. x ∷ r) (entries_below-left k key xs ys l h))
  | inr p ↦ rw p refl
]

module _ {S : Type 0} (visit : S → List ℕ → List ℕ → Bool × S) where
  module _ (go : ℕ → Option (List ℕ) → S → Act (Bool × S)) (s : Pages) where
    -- Each child walks the entries of its subtree.
    abbrev WalksBack : ℕ → Type 0
    WalksBack fuel =
        (t : Tree) (lo hi : Option (List ℕ)) (cursor : Option (List ℕ)) (acc : S)
        → Stored s t
        → Ordered lo hi t
        → depth t ≤ fuel
        → go (root t) cursor acc s
          ≡ visit_entries visit (reverse (entries_below cursor (entries t))) acc s

    -- Children whose walk is that of some entries.
    abbrev Walk : List ℕ → List Kv → Type 0
    Walk ids es = (a : S) → visit_children visit go none ids a s ≡ visit_entries visit es a s

    module _ (fuel : ℕ) (walks : WalksBack fuel) where
      child_then :
          (t : Tree) (lo hi : Option (List ℕ)) (cursor : Option (List ℕ)) (ids : List ℕ)
          (ys : List Kv) (acc : S)
          → Stored s t
          → Ordered lo hi t
          → depth t ≤ fuel
          → Walk ids ys
          → visit_children visit go cursor (root t ∷ ids) acc s
            ≡ visit_entries visit (reverse (entries_below cursor (entries t)) ++ ys) acc s
      child_then t lo hi cursor ids ys acc st o d k =
          visit_children-cons visit go s (root t) ids cursor
            (reverse (entries_below cursor (entries t))) ys acc (walks t lo hi cursor acc st o d) k

      all_back :
          (f : Forest) (lo hi : Option (List ℕ)) (ids : List ℕ) (ys : List Kv)
          → StoredAll s f
          → OrderedAll lo hi f
          → depth_of f ≤ fuel
          → Walk ids ys
          → Walk (reverse (roots f) ++ ids) (reverse (entries_of f) ++ ys)
      all_back (one_child t) lo hi ids ys st o d k a = child_then t lo hi none ids ys a st o d k
      all_back (and_child t j f) lo hi ids ys st o d k a =
          rw
            (
              reverse-cons (root t) (roots f),
              append_assoc (reverse (roots f)) (root t ∷ []) ids,
              reverse-append (entries t) (entries_of f),
              append_assoc (reverse (entries_of f)) (reverse (entries t)) ys,
            )
            (all_back f (some j) hi (root t ∷ ids) (reverse (entries t) ++ ys) st.1 o.3
              (omega arith) (λ b. child_then t lo (some j) none ids ys b st.0 o.2 (omega arith) k)
              a)

      back_from :
          (f : Forest) (lo hi : Option (List ℕ)) (key : List ℕ) (ids : List ℕ) (ys : List Kv)
          (acc : S)
          → StoredAll s f
          → OrderedAll lo hi f
          → depth_of f ≤ fuel
          → Walk ids ys
          → visit_children visit go
              (some key)
              (reverse (take (suc (rank_through (separators f) key)) (roots f)) ++ ids)
              acc
              s
            ≡ visit_entries visit (reverse (entries_below (some key) (entries_of f)) ++ ys) acc s
      back_from (one_child t) lo hi key ids ys acc st o d k =
          child_then t lo hi (some key) ids ys acc st o d k
      back_from (and_child t j f) lo hi key ids ys acc st o d k = elim (Bool-cases (key_lt key j)) [
        | inl p ↦
            rw
              (
                p,
                entries_below-left j key (entries t) (entries_of f) p
                    (entries_of-From f (some j) hi o.3),
              )
              (child_then t lo (some j) (some key) ids ys acc st.0 o.2 (omega arith) k)
        | inr p ↦
            rw
              (
                p,
                reverse-cons (root t) (take (suc (rank_through (separators f) key)) (roots f)),
                append_assoc (reverse (take (suc (rank_through (separators f) key)) (roots f)))
                    (root t ∷ []) ids,
                entries_below-right j key (entries t) (entries_of f) p
                    (entries-Under t lo (some j) o.2),
                reverse-append (entries t) (entries_below (some key) (entries_of f)),
                append_assoc (reverse (entries_below (some key) (entries_of f)))
                    (reverse (entries t)) ys,
              )
              (back_from f (some j) hi key (root t ∷ ids) (reverse (entries t) ++ ys) acc st.1 o.3
                (omega arith)
                (λ b. child_then t lo (some j) none ids ys b st.0 o.2 (omega arith) k))
      ]

  bare :
      (go : ℕ → Option (List ℕ) → S → Act (Bool × S)) (cursor : Option (List ℕ)) (ids : List ℕ)
      (es : List Kv) (acc : S) (s : Pages)
      → visit_children visit go cursor (ids ++ []) acc s ≡ visit_entries visit (es ++ []) acc s
      → visit_children visit go cursor ids acc s ≡ visit_entries visit es acc s
  bare go cursor ids es acc s h = rw (append-nil ids, append-nil es) at h

  take-last_entry :
      (es : List Kv) (cursor : Option (List ℕ))
      → IsSorted (keys_of es)
      → take (last_entry visit es cursor) es ≡ entries_below cursor es
  unfolding last_entry
  take-last_entry es none o = take-length es
  take-last_entry es (some key) o = rw (find_key-rank es key o) (take-rank key es)

  abbrev node_of : Forest → Branch
  node_of f = record { keys = separators f; children = roots f }

  less : (n : ℕ) → suc n - 1 ≡ n
  less n = omega arith

  all_but_one : (f : Forest) → take (suc (length (roots f) - 1)) (roots f) ≡ roots f
  all_but_one (one_child t) = refl
  all_but_one (and_child t k f) =
      ap (λ n. take (suc n) (root t ∷ roots f)) (less (length (roots f)))
      ∙ ap (λ l. root t ∷ l) (take-length (roots f))

  descend-entries : (s : Pages) (fuel : ℕ) → WalksBack (descend visit fuel) s fuel
  unfolding descend last_child
  descend-entries s zero (leaf_node id es) lo hi cursor acc st o d = absurd (omega arith)
  descend-entries s zero (branch_node id f) lo hi cursor acc st o d = absurd (omega arith)
  descend-entries s (suc fuel) (leaf_node id es) lo hi cursor acc st o d =
      rw (read-Holds s id (leaf_page es) st, take-last_entry es cursor o.0) refl
  descend-entries s (suc fuel) (branch_node id f) lo hi none acc st o d =
      rw (read-Holds s id (branch_page (node_of f)) st.0, all_but_one f)
        (bare (descend visit fuel) none (reverse (roots f)) (reverse (entries_of f)) acc s (
          all_back (descend visit fuel) s fuel (descend-entries s fuel) f lo hi [] [] st.1 o
            (omega arith) (visit_children-nil visit (descend visit fuel) s) acc))
  descend-entries s (suc fuel) (branch_node id f) lo hi (some key) acc st o d =
      rw
        (
          read-Holds s id (branch_page (node_of f)) st.0,
          child_for-rank_through (separators f) key (separators-IsSorted f lo hi o),
        )
        (bare (descend visit fuel) (some key) _ (reverse (entries_below (some key) (entries_of f)))
          acc s
          (back_from (descend visit fuel) s fuel (descend-entries s fuel) f lo hi key [] [] acc st.1
            o (omega arith) (visit_children-nil visit (descend visit fuel) s)))

  -- Descend on a tree that is stored and ordered, with fuel for its depth, does what the loop over
  -- the entries of all leaves below the cursor does from the last one back: it calls visit on them
  -- in descending order until it is told to stop.
  pub descend_from-entries :
      (s : Pages) (fuel : ℕ) (t : Tree) (cursor : Option (List ℕ)) (acc : S)
      → Stored s t
      → Ordered none none t
      → depth t ≤ fuel
      → descend_from visit fuel (root t) cursor acc s
        ≡ visit_entries visit (reverse (entries_below cursor (entries t))) acc s
  unfolding descend_from
  descend_from-entries s fuel t cursor acc st o d =
      rw (root-pos s t st) (descend-entries s fuel t none none cursor acc st o d)
