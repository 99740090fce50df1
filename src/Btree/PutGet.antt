-- ===== src/Btree/PutGet.antt =====
-- Get after Put of internal/btree/tree.go.
use sapedb.Base.{
  ℕ, ◌≤◌, ◌≡◌, refl, ◌∙◌, Option, none, some, List, [], ◌∷◌, All, All-append, ok, Bool-cases, inl,
  inr,
}
use sapedb.Base.Lex.{key_lt, key_eq}
use sapedb.Btree.Node.{Kv, check_key, overflows}
use sapedb.Btree.Leaf.{find}
use sapedb.Btree.Pages.{Pages}
use sapedb.Btree.Overflow.{load}
use sapedb.Btree.Tree.{get, checked, loaded}
use sapedb.Btree.Shape.{
  Tree, Forest, leaf_node, branch_node, one_child, and_child, entries, entries_of,
}
use sapedb.Btree.Lookup.{get-find}
use sapedb.Btree.Plain.{IsPlain, Plain, PlainAll}
use sapedb.Btree.Whole.{top, content, height, Sound}

-- The value of an entry that was found.
abbrev pub value_of : Option Kv → Option (List ℕ)
value_of none = none
value_of (some e) = some e.value

mutual
  entries-Plain : (t : Tree) → Plain t → All IsPlain (entries t)
  entries-Plain (leaf_node id es) h = h
  entries-Plain (branch_node id f) h = entries_of-Plain f h

  entries_of-Plain : (f : Forest) → PlainAll f → All IsPlain (entries_of f)
  entries_of-Plain (one_child t) h = entries-Plain t h
  entries_of-Plain (and_child t k f) h =
      All-append IsPlain (entries t) (entries_of f) (entries-Plain t h.0) (entries_of-Plain f h.2)

loaded-value_of :
    (es : List Kv) (key : List ℕ) (s : Pages)
    → All IsPlain es
    → loaded (find es key) s ≡ (ok (value_of (find es key)), s)
unfolding load overflows
loaded-value_of [] key s h = refl
loaded-value_of (e ∷ es) key s h = elim (Bool-cases (key_lt e.key key)) [
  | inl p ↦ rw p (loaded-value_of es key s h.1)
  | inr p ↦
      rw p (elim (Bool-cases (key_eq e.key key)) [ inl q ↦ rw (q, h.0.0) refl | inr q ↦ rw q refl ])
]

-- Get answers what the entries of the tree hold.
pub get-content :
    (s : Pages) (fuel : ℕ) (o : Option Tree) (key : List ℕ) (rest : List ℕ)
    → Sound s o rest
    → check_key key ≡ ok tt
    → height o ≤ fuel
    → get fuel (top o) key s ≡ (ok (value_of (find (content o) key)), s)
unfolding get checked
get-content s fuel none key rest h k d = rw k refl
get-content s fuel (some t) key rest h k d =
    get-find s fuel t key h.tree.0 h.tree.1 d
    ∙ rw k (loaded-value_of (entries t) key s (entries-Plain t h.tree.2))
