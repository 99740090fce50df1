-- ===== src/Btree/Lookup.antt =====
-- Get of internal/btree/tree.go on a whole tree of pages.
use sapedb.Base.{
  ℕ, zero, suc, ◌≤◌, ◌≡◌, refl, sym, ap, ◌∙◌, false, Option, none, some, List, get_elem?, ◌==◌,
  if◌then◌else◌, ok, arith, Bool-cases, inl, inr,
}
use sapedb.Base.Lex.{key_lt}
use sapedb.Btree.Node.{check_key, child_for, malformed}
use sapedb.Btree.Sorted.{rank_through, child_for-rank_through}
use sapedb.Btree.Leaf.{find, get_entry-find}
use sapedb.Btree.Pages.{
  Pages, Page, leaf_page, branch_page, ◌>>◌, fail, read, index, index-some, bind_ok, of_node,
}
use sapedb.Btree.Tree.{get, get_loop, get_leaf, checked, loaded}
use sapedb.Btree.Keeps.{checked-congr}
use sapedb.Btree.Shape.{
  Tree, Forest, leaf_node, branch_node, one_child, and_child, root, roots, separators, entries,
  entries_of, depth, depth_of, From, Under, Ordered, OrderedAll, Stored, StoredAll, Holds,
}
use sapedb.Btree.Flat.{
  find-append_left, find-append_right, entries_of-From, entries-Under, separators-IsSorted,
}

-- A page of the tree reads as what it holds.
pub read-Holds : (s : Pages) (id : ℕ) (page : Page) → Holds s id page → read id s ≡ (ok page, s)
unfolding read
read-Holds s id page h = ground (arith, h.1, h.2)

-- The child that a key is looked for in.
record Chosen (s : Pages) (f : Forest) (lo hi : Option (List ℕ)) (key : List ℕ) : Type 0 where
  child : Tree
  low : Option (List ℕ)
  high : Option (List ℕ)
  at : get_elem? (roots f) (rank_through (separators f) key) ≡ some (root child)
  found : find (entries_of f) key ≡ find (entries child) key
  stored : Stored s child
  ordered : Ordered low high child
  from : From low key
  under : Under high key
  small : depth child ≤ depth_of f

choose :
    (s : Pages) (f : Forest) (lo hi : Option (List ℕ)) (key : List ℕ)
    → StoredAll s f
    → OrderedAll lo hi f
    → From lo key
    → Under hi key
    → Chosen s f lo hi key
choose s (one_child t) lo hi key st o fr un = record {
  child = t;
  low = lo;
  high = hi;
  at = refl;
  found = refl;
  stored = st;
  ordered = o;
  from = fr;
  under = un;
  small = omega arith;
}
choose s (and_child t k f) lo hi key st o fr un = elim (Bool-cases (key_lt key k)) [
  | inl p ↦ record {
    child = t;
    low = lo;
    high = some k;
    at = rw p refl;
    found = find-append_left k key (entries t) (entries_of f) p (entries_of-From f (some k) hi o.3);
    stored = st.0;
    ordered = o.2;
    from = fr;
    under = p;
    small = omega arith;
  }
  | inr p ↦
      (let c = choose s f (some k) hi key st.1 o.3 p un in
        record {
          child = c.child;
          low = c.low;
          high = c.high;
          at = rw p c.at;
          found =
              find-append_right k key (entries t) (entries_of f) p (entries-Under t lo (some k) o.2)
              ∙ c.found;
          stored = c.stored;
          ordered = c.ordered;
          from = c.from;
          under = c.under;
          small = omega (arith, c.small);
        })
]

-- Page 0 is no page of a tree.
pub root-pos : (s : Pages) (t : Tree) → Stored s t → (root t == 0) ≡ false
root-pos s (leaf_node id es) st = ground (arith, st.0)
root-pos s (branch_node id f) st = ground (arith, st.0.0)

get_loop-find :
    (s : Pages) (fuel : ℕ) (t : Tree) (lo hi : Option (List ℕ)) (key : List ℕ)
    → Stored s t
    → Ordered lo hi t
    → From lo key
    → Under hi key
    → depth t ≤ fuel
    → get_loop fuel (root t) key s ≡ loaded (find (entries t) key) s
unfolding get_loop get_leaf index
get_loop-find s zero (leaf_node id es) lo hi key st o fr un d = absurd (omega arith)
get_loop-find s zero (branch_node id f) lo hi key st o fr un d = absurd (omega arith)
get_loop-find s (suc fuel) (leaf_node id es) lo hi key st o fr un d =
    rw (read-Holds s id (leaf_page es) st, get_entry-find es o.0 key) refl
get_loop-find s (suc fuel) (branch_node id f) lo hi key st o fr un d =
    let c = choose s f lo hi key st.1 o fr un in
    rw (read-Holds s id (branch_page (record { keys = separators f; children = roots f })) st.0) (
      bind_ok (index (roots f) (child_for (separators f) key))
        (λ child.
          let deeper = get_loop fuel child key in
          if child == 0 then fail (of_node malformed) else deeper)
        (index-some (roots f) (child_for (separators f) key) s (
          ap (get_elem? (roots f))
            (child_for-rank_through (separators f) key (separators-IsSorted f lo hi o))
          ∙ c.at))
      ∙ rw (root-pos s c.child c.stored) (
          get_loop-find s fuel c.child c.low c.high key c.stored c.ordered c.from c.under
            (omega (arith, c.small, d))
          ∙ ap (λ r. loaded r s) (sym c.found)))

-- Get on a tree that is stored and ordered, with fuel for its depth, refuses a key that checkKey
-- refuses, and otherwise answers the value of the entry that a walk through the entries of all the
-- leaves finds under the key, or that there is none. The pages stay as they are but for what
-- loading the value does.
pub get-find :
    (s : Pages) (fuel : ℕ) (t : Tree) (key : List ℕ)
    → Stored s t
    → Ordered none none t
    → depth t ≤ fuel
    → get fuel (root t) key s ≡ (checked (check_key key) >> loaded (find (entries t) key)) s
unfolding get
get-find s fuel t key st o d =
    checked-congr (check_key key) _ (loaded (find (entries t) key)) s
      (rw (root-pos s t st) (get_loop-find s fuel t none none key st o tt tt d))
