-- ===== src/Btree/Walk.antt =====
-- Ascend and Descend of internal/btree/tree.go on a whole tree of pages.
use sapedb.Base.{
  ℕ, zero, suc, ◌≤◌, ◌≡◌, refl, sym, ap, ◌∙◌, Bool, true, false, Option, none, some, List, [], ◌∷◌,
  ◌++◌, drop, append-nil, if◌then◌else◌, arith, Bool-cases, inl, inr, All,
}
use sapedb.Base.Lex.{key_lt}
use sapedb.Btree.Node.{Kv}
use sapedb.Btree.Sorted.{
  IsSorted, keys_of, rank, find_key-rank, rank_through, child_for-rank_through,
}
use sapedb.Btree.Pages.{Pages, leaf_page, branch_page, Act, after, ◌>>=◌, done}
use sapedb.Btree.Overflow.{load}
use sapedb.Btree.Scan.{visit_entries, visit_children, ascend, first_entry, first_child, ascend_from}
use sapedb.Btree.Shape.{
  Tree, Forest, leaf_node, branch_node, one_child, and_child, root, roots, separators, entries,
  entries_of, depth, depth_of, From, Under, Ordered, OrderedAll, Stored, StoredAll, lt_le,
}
use sapedb.Btree.Flat.{entries_of-From, entries-Under, separators-IsSorted, key_over}
use sapedb.Btree.Keeps.{Keeps, bind-Keeps, bind_congr, bind_assoc, load-Keeps, if-Keeps}
use sapedb.Btree.Lookup.{read-Holds, root-pos}

-- The entries from a cursor on.
abbrev pub entries_from : Option (List ℕ) → List Kv → List Kv
entries_from none es = es
entries_from (some key) [] = []
entries_from (some key) (e ∷ es) = if key_lt e.key key then entries_from (some key) es else e ∷ es

drop-rank :
    (key : List ℕ) (es : List Kv) → drop (rank (keys_of es) key) es ≡ entries_from (some key) es
drop-rank key [] = refl
drop-rank key (e ∷ es) = elim (Bool-cases (key_lt e.key key)) [
  | inl p ↦ rw p (drop-rank key es)
  | inr p ↦ rw p refl
]

entries_from-right :
    (k key : List ℕ) (xs ys : List Kv)
    → key_lt key k ≡ false
    → All (Under (some k)) (keys_of xs)
    → entries_from (some key) (xs ++ ys) ≡ entries_from (some key) ys
entries_from-right k key [] ys l u = refl
entries_from-right k key (x ∷ xs) ys l u =
    rw (lt_le x.key k key u.0 l) (entries_from-right k key xs ys l u.1)

-- From a key on that is below them, all entries are left.
entries_from_whole :
    (k key : List ℕ) (ys : List Kv)
    → key_lt key k ≡ true
    → All (From (some k)) (keys_of ys)
    → entries_from (some key) ys ≡ ys
entries_from_whole k key [] l h = refl
entries_from_whole k key (y ∷ ys) l h = elim (Bool-cases (key_lt y.key key)) [
  | inl p ↦ cc (key_over k key y.key l h.0, p)
  | inr p ↦ rw p refl
]

entries_from-left :
    (k key : List ℕ) (xs ys : List Kv)
    → key_lt key k ≡ true
    → All (From (some k)) (keys_of ys)
    → entries_from (some key) (xs ++ ys) ≡ entries_from (some key) xs ++ ys
entries_from-left k key [] ys l h = entries_from_whole k key ys l h
entries_from-left k key (x ∷ xs) ys l h = elim (Bool-cases (key_lt x.key key)) [
  | inl p ↦ rw p (entries_from-left k key xs ys l h)
  | inr p ↦ rw p refl
]

module _ {S : Type 0} (visit : S → List ℕ → List ℕ → Bool × S) where
  -- What comes behind a walk, unless the walk was stopped.
  abbrev onward : (S → Act (Bool × S)) → Bool × S → Act (Bool × S)
  onward next r = if r.0 then next r.1 else done (false, r.1)

  onward-onward :
      (next : S → Act (Bool × S)) (xs ys : List Kv) (r : Bool × S) (t : Pages)
      → (next r.1 t ≡ (visit_entries visit xs r.1 >>= onward (visit_entries visit ys)) t)
      → onward next r t ≡ (onward (visit_entries visit xs) r >>= onward (visit_entries visit ys)) t
  onward-onward next xs ys (true, acc) t h = h
  onward-onward next xs ys (false, acc) t h = refl

  visit_entries-append :
      (xs ys : List Kv) (acc : S) (s : Pages)
      → visit_entries visit (xs ++ ys) acc s
        ≡ (visit_entries visit xs acc >>= onward (visit_entries visit ys)) s
  unfolding visit_entries
  visit_entries-append [] ys acc s = refl
  visit_entries-append (x ∷ xs) ys acc s =
      bind_congr (load x) (λ value. onward (visit_entries visit (xs ++ ys)) (visit acc x.key value))
        (λ value.
          onward (visit_entries visit xs) (visit acc x.key value)
          >>= onward (visit_entries visit ys))
        s
        (λ value p.
          onward-onward (visit_entries visit (xs ++ ys)) xs ys (visit acc x.key value) (load x s).1
            (visit_entries-append xs ys (visit acc x.key value).1 (load x s).1))
      ∙ sym (
          bind_assoc (load x) (λ value. onward (visit_entries visit xs) (visit acc x.key value))
            (onward (visit_entries visit ys)) s)

  visit_entries-Keeps : (es : List Kv) (acc : S) → Keeps (visit_entries visit es acc)
  unfolding visit_entries
  visit_entries-Keeps [] acc = λ s. refl
  visit_entries-Keeps (e ∷ es) acc = bind-Keeps (load e) _ (load-Keeps e) (λ value.
      if-Keeps (visit acc e.key value).0 _ _ (visit_entries-Keeps es (visit acc e.key value).1)
        (λ s. refl))

  onward-congr :
      (f g : S → Act (Bool × S)) (s : Pages) (r : Bool × S)
      → f r.1 s ≡ g r.1 s
      → onward f r s ≡ onward g r s
  onward-congr f g s (true, acc) h = h
  onward-congr f g s (false, acc) h = refl

  module _ (go : ℕ → Option (List ℕ) → S → Act (Bool × S)) (s : Pages) where
    -- A child, and the children behind it.
    pub visit_children-cons :
        (id : ℕ) (ids : List ℕ) (cursor : Option (List ℕ)) (xs ys : List Kv) (acc : S)
        → go id cursor acc s ≡ visit_entries visit xs acc s
        → ((a : S) → visit_children visit go none ids a s ≡ visit_entries visit ys a s)
        → visit_children visit go cursor (id ∷ ids) acc s ≡ visit_entries visit (xs ++ ys) acc s
    unfolding visit_children
    visit_children-cons id ids cursor xs ys acc h k =
        ap (λ r. after (onward (visit_children visit go none ids)) r.0 r.1) h
        ∙ bind_congr (visit_entries visit xs acc) (onward (visit_children visit go none ids))
            (onward (visit_entries visit ys)) s
            (λ r p. rw (visit_entries-Keeps xs acc s) (
              onward-congr (visit_children visit go none ids) (visit_entries visit ys) s r (k r.1)))
        ∙ sym (visit_entries-append xs ys acc s)

    -- Each child walks the entries of its subtree.
    abbrev Walks : ℕ → Type 0
    Walks fuel =
        (t : Tree) (lo hi : Option (List ℕ)) (cursor : Option (List ℕ)) (acc : S)
        → Stored s t
        → Ordered lo hi t
        → depth t ≤ fuel
        → go (root t) cursor acc s ≡ visit_entries visit (entries_from cursor (entries t)) acc s

    pub visit_children-nil :
        (a : S) → visit_children visit go none [] a s ≡ visit_entries visit [] a s
    unfolding visit_children visit_entries
    visit_children-nil a = refl

    module _ (fuel : ℕ) (walks : Walks fuel) where
      last_alone :
          (t : Tree) (lo hi : Option (List ℕ)) (cursor : Option (List ℕ)) (acc : S)
          → Stored s t
          → Ordered lo hi t
          → depth t ≤ fuel
          → visit_children visit go cursor (root t ∷ []) acc s
            ≡ visit_entries visit (entries_from cursor (entries t)) acc s
      last_alone t lo hi cursor acc st o d =
          visit_children-cons (root t) [] cursor (entries_from cursor (entries t)) [] acc
            (walks t lo hi cursor acc st o d) visit_children-nil
          ∙ ap (λ es. visit_entries visit es acc s) (append-nil (entries_from cursor (entries t)))

      all_children :
          (f : Forest) (lo hi : Option (List ℕ)) (acc : S)
          → StoredAll s f
          → OrderedAll lo hi f
          → depth_of f ≤ fuel
          → visit_children visit go none (roots f) acc s ≡ visit_entries visit (entries_of f) acc s
      all_children (one_child t) lo hi acc st o d = last_alone t lo hi none acc st o d
      all_children (and_child t k f) lo hi acc st o d =
          visit_children-cons (root t) (roots f) none (entries t) (entries_of f) acc
            (walks t lo (some k) none acc st.0 o.2 (omega arith))
            (λ a. all_children f (some k) hi a st.1 o.3 (omega arith))

      children_from :
          (f : Forest) (lo hi : Option (List ℕ)) (key : List ℕ) (acc : S)
          → StoredAll s f
          → OrderedAll lo hi f
          → depth_of f ≤ fuel
          → visit_children visit go
              (some key)
              (drop (rank_through (separators f) key) (roots f))
              acc
              s
            ≡ visit_entries visit (entries_from (some key) (entries_of f)) acc s
      children_from (one_child t) lo hi key acc st o d = last_alone t lo hi (some key) acc st o d
      children_from (and_child t k f) lo hi key acc st o d = elim (Bool-cases (key_lt key k)) [
        | inl p ↦
            rw
              (
                p,
                entries_from-left k key (entries t) (entries_of f) p
                    (entries_of-From f (some k) hi o.3),
              )
              (visit_children-cons (root t) (roots f) (some key)
                (entries_from (some key) (entries t)) (entries_of f) acc
                (walks t lo (some k) (some key) acc st.0 o.2 (omega arith))
                (λ a. all_children f (some k) hi a st.1 o.3 (omega arith)))
        | inr p ↦
            rw
              (
                p,
                entries_from-right k key (entries t) (entries_of f) p
                    (entries-Under t lo (some k) o.2),
              )
              (children_from f (some k) hi key acc st.1 o.3 (omega arith))
      ]

  drop-first_entry :
      (es : List Kv) (cursor : Option (List ℕ))
      → IsSorted (keys_of es)
      → drop (first_entry visit es cursor) es ≡ entries_from cursor es
  unfolding first_entry
  drop-first_entry es none o = refl
  drop-first_entry es (some key) o = rw (find_key-rank es key o) (drop-rank key es)

  ascend-entries : (s : Pages) (fuel : ℕ) → Walks (ascend visit fuel) s fuel
  unfolding ascend first_child
  ascend-entries s zero (leaf_node id es) lo hi cursor acc st o d = absurd (omega arith)
  ascend-entries s zero (branch_node id f) lo hi cursor acc st o d = absurd (omega arith)
  ascend-entries s (suc fuel) (leaf_node id es) lo hi cursor acc st o d =
      rw (read-Holds s id (leaf_page es) st, drop-first_entry es cursor o.0) refl
  ascend-entries s (suc fuel) (branch_node id f) lo hi none acc st o d =
      rw (read-Holds s id (branch_page (record { keys = separators f; children = roots f })) st.0) (
        all_children (ascend visit fuel) s fuel (ascend-entries s fuel) f lo hi acc st.1 o
          (omega arith))
  ascend-entries s (suc fuel) (branch_node id f) lo hi (some key) acc st o d =
      rw
        (
          read-Holds s id (branch_page (record { keys = separators f; children = roots f })) st.0,
          child_for-rank_through (separators f) key (separators-IsSorted f lo hi o),
        )
        (children_from (ascend visit fuel) s fuel (ascend-entries s fuel) f lo hi key acc st.1 o
          (omega arith))

  -- Ascend on a tree that is stored and ordered, with fuel for its depth, does what the loop over
  -- the entries of all leaves does from the first one at or above the cursor on: it calls visit on
  -- them in order until it is told to stop.
  pub ascend_from-entries :
      (s : Pages) (fuel : ℕ) (t : Tree) (cursor : Option (List ℕ)) (acc : S)
      → Stored s t
      → Ordered none none t
      → depth t ≤ fuel
      → ascend_from visit fuel (root t) cursor acc s
        ≡ visit_entries visit (entries_from cursor (entries t)) acc s
  unfolding ascend_from
  ascend_from-entries s fuel t cursor acc st o d =
      rw (root-pos s t st) (ascend-entries s fuel t none none cursor acc st o d)
