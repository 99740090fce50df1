-- ===== src/Btree/Insert.antt =====
-- The leaf case of insert of internal/btree/tree.go on a tree of pages.
use sapedb.Base.{
  ℕ, ◌≤◌, ◌<◌, ◌≡◌, refl, sym, ◌∙◌, true, false, Option, none, some, List, [], ◌∷◌, ◌++◌, take,
  drop, take-append-drop, All, leb, ◌==◌, ok, arith, inl, inr, Bool-cases,
}
use sapedb.Base.Ids.{count}
use sapedb.Base.Lex.{key_lt, key_eq}
use sapedb.Btree.Node.{Kv, key_at, overflows, leaf_bytes, capacity_bytes, split_leaf}
use sapedb.Btree.Sorted.{IsSorted, keys_of}
use sapedb.Btree.Leaf.{put_walk, get_entry, find, put_entry-put_walk, get_entry-find}
use sapedb.Btree.LeafMap.{put_walk-IsSorted}
use sapedb.Btree.Split.{IsBestCut, split_leaf_best}
use sapedb.Btree.Pages.{Pages, Page, leaf_page, reads_back, every, ◌>>=◌, done, write_leaf}
use sapedb.Btree.Overflow.{release}
use sapedb.Btree.Tree.{Grown, insert_leaf, released, write_leaves}
use sapedb.Btree.Shape.{
  Forest, leaf_node, one_child, and_child, root, entries_of, From, Under, Ordered, OrderedAll,
  StoredAll, Holds,
}
use sapedb.Btree.Plain.{FullAll, ids_of, IsPlain, PlainAll}
use sapedb.Btree.Halves.{All-take, All-drop, leaf_halves, key_at-short}
use sapedb.Btree.Writes.{Does, bind-Does, IsRefusal, owned, Wrote, write_leaf-Wrote}
use sapedb.Pager.Accounts.{Accounts, Accounts-count}

-- The children that the parent of a changed node gets: one, or two with a separator.
abbrev pub Shows : Forest → Grown → Type 0
Shows (one_child l) g = (root l ≡ g.left) × (g.right ≡ 0)
Shows (and_child l k (one_child r)) g =
    (root l ≡ g.left) × (k ≡ g.separator) × (root r ≡ g.right) × (0 < g.right)
Shows (and_child l k (and_child r j f)) g = 0 < 0

-- What an insertion leaves of a subtree: the children that stand for it, which hold all the entries
-- on pages of their own and have `n` levels; the pages in `rest` are as they were.
pub record Inserted (s : Pages) (n : ℕ) (all : List Kv) (lo hi : Option (List ℕ)) (rest : List ℕ)
    (g : Grown) (u : Pages) : Type 0 where
  pub forest : Forest
  pub shows : Shows forest g
  pub stored : StoredAll u forest
  pub ordered : OrderedAll lo hi forest
  pub plain : PlainAll forest
  pub full : FullAll n forest
  pub put : entries_of forest ≡ all
  pub accounts : Accounts u.pager (ids_of forest ++ rest)
  pub kept : (a : ℕ) → 0 < count a rest → u.page_at a ≡ s.page_at a
  pub reserved : u.pager.reserved ≡ s.pager.reserved

All-put_walk : (P : Kv → Type 0) (es : List Kv) (x : Kv) → All P es → P x → All P (put_walk es x)
All-put_walk P [] x h p = (p, tt)
All-put_walk P (e ∷ es) x h p = elim (Bool-cases (key_lt e.key x.key)) [
  | inl a ↦ rw a (h.0, All-put_walk P es x h.1 p)
  | inr a ↦
      rw a (elim (Bool-cases (key_eq e.key x.key)) [ inl b ↦ rw b (p, h.1) | inr b ↦ rw b (p, h) ])
]

All-keys : (P : List ℕ → Type 0) (es : List Kv) → All P (keys_of es) → All (λ e. P e.key) es
All-keys P [] h = tt
All-keys P (e ∷ es) h = (h.0, All-keys P es h.1)

keys-All : (P : List ℕ → Type 0) (es : List Kv) → All (λ e. P e.key) es → All P (keys_of es)
keys-All P [] h = tt
keys-All P (e ∷ es) h = (h.0, keys-All P es h.1)

-- The keys of a leaf have what the ones before and the new one have.
keys-put_walk :
    (P : List ℕ → Type 0) (es : List Kv) (x : Kv)
    → All P (keys_of es)
    → P x.key
    → All P (keys_of (put_walk es x))
keys-put_walk P es x h p =
    keys-All P (put_walk es x) (All-put_walk (λ e. P e.key) es x (All-keys P es h) p)

pub every-IsPlain : (es : List Kv) → All IsPlain es → every reads_back es ≡ true
unfolding every
every-IsPlain [] h = refl
every-IsPlain (e ∷ es) h = rw (h.0.1) (every-IsPlain es h.1)

find-IsPlain :
    (es : List Kv) (key : List ℕ) (old : Kv)
    → All IsPlain es
    → find es key ≡ some old
    → old.head ≡ 0
find-IsPlain [] key old h q = cc
find-IsPlain (e ∷ es) key old h q = elim (Bool-cases (key_lt e.key key)) [
  | inl a ↦ find-IsPlain es key old h.1 (rw a at q)
  | inr a ↦ elim (Bool-cases (key_eq e.key key)) [
    | inl b ↦ same e old h.0.0 (rw (a, b) at q)
    | inr b ↦ cc (q, a, b)
  ]
]
  where
    same : (e old : Kv) → e.head ≡ 0 → some e ≡ some old → old.head ≡ 0
    same e old z q = cc (z, q)

released_plain :
    (fuel : ℕ) (o : Option Kv) (s : Pages)
    → ((old : Kv) → o ≡ some old → old.head ≡ 0)
    → released fuel o s ≡ (ok tt, s)
unfolding release overflows
released_plain fuel none s h = refl
released_plain fuel (some old) s h = rw (h old refl) refl

-- A page that was written is one of the tree's.
pub Wrote-Holds :
    {s : Pages} {used : List ℕ} {page : Page} {id : ℕ} {u : Pages}
    → 0 < s.pager.reserved
    → Wrote s used page id u
    → Holds u id page
Wrote-Holds {id = id} {u = u} pos w = (pos_id, small_id, w.holds)
  where
    pos_id : 0 < id
    pos_id = ground (arith, w.took.accounts.each id, w.took.reserved)

    small_id : id < u.pager.meta.page_count
    small_id = ground (arith, w.took.accounts.each id)

-- And so is one that was not written, when another was.
pub Still-Holds :
    {s : Pages} {used : List ℕ} {page other : Page} {id a : ℕ} {u : Pages}
    → Wrote s used page id u
    → 0 < count a used
    → Holds s a other
    → Holds u a other
Still-Holds {id = id} {a = a} {u = u} w c h = (h.0, small_a, w.took.kept a c ∙ h.2)
  where
    small_a : a < u.pager.meta.page_count
    small_a = ground (arith, w.took.accounts.each a)

module _ (s : Pages) (id : ℕ) (es : List Kv) (lo hi : Option (List ℕ)) (x : Kv) (rest : List ℕ)
    (pos : 0 < s.pager.reserved) (id_pos : 0 < id) (h : Accounts s.pager (id ∷ rest))
    (sorted : IsSorted (keys_of (put_walk es x))) (from : All (From lo) (keys_of (put_walk es x)))
    (under : All (Under hi) (keys_of (put_walk es x))) (plain : All IsPlain (put_walk es x)) where
  owned_id : Accounts s.pager (owned id rest)
  owned_id = rw not_zero h
    where
      not_zero : (id == 0) ≡ false
      not_zero = ground arith

  leaf_fits :
      leaf_bytes (put_walk es x) ≤ capacity_bytes
      → Does
          (write_leaf id (put_walk es x) >>= λ n.
            done (record { left = n; separator = []; right = 0 }))
          s
          (Inserted s 1 (put_walk es x) lo hi rest)
          IsRefusal
  leaf_fits fits =
      bind-Does (write_leaf id (put_walk es x)) _ s (Wrote s rest (leaf_page (put_walk es x)))
        (Inserted s 1 (put_walk es x) lo hi rest) IsRefusal
        (write_leaf-Wrote s id rest (put_walk es x) owned_id fits
          (every-IsPlain (put_walk es x) plain))
        (λ n u w. record {
          forest = one_child (leaf_node n (put_walk es x));
          shows = (refl, refl);
          stored = Wrote-Holds pos w;
          ordered = (sorted, from, under);
          plain = plain;
          full = refl;
          put = refl;
          accounts = w.took.accounts;
          kept = w.took.kept;
          reserved = w.took.reserved;
        })

  leaf_cut :
      (o : Option ℕ)
      → IsBestCut (put_walk es x) o
      → Does
          (write_leaves id (put_walk es x) o)
          s
          (Inserted s 1 (put_walk es x) lo hi rest)
          IsRefusal
  unfolding write_leaves
  leaf_cut none b = inr (inr refl)
  leaf_cut (some cut) (b, better) =
      let m = leaf_halves (put_walk es x) cut lo hi b.0 b.1 sorted from under in
      let first = All-take IsPlain cut (put_walk es x) plain in
      let second = All-drop IsPlain cut (put_walk es x) plain in
      bind-Does (write_leaf id (take cut (put_walk es x))) _ s
        (Wrote s rest (leaf_page (take cut (put_walk es x))))
        (Inserted s 1 (put_walk es x) lo hi rest) IsRefusal
        (write_leaf-Wrote s id rest (take cut (put_walk es x)) owned_id b.2 (every-IsPlain _ first))
        (λ l u w.
          bind-Does (write_leaf 0 (drop cut (put_walk es x))) _ u
            (Wrote u (l ∷ rest) (leaf_page (drop cut (put_walk es x))))
            (Inserted s 1 (put_walk es x) lo hi rest) IsRefusal
            (write_leaf-Wrote u 0 (l ∷ rest) (drop cut (put_walk es x)) w.took.accounts b.3
              (every-IsPlain _ second))
            (λ r v y. record {
              forest =
                  and_child (leaf_node l (take cut (put_walk es x))) (key_at (put_walk es x) cut)
                    (one_child (leaf_node r (drop cut (put_walk es x))));
              shows = (refl, refl, refl, (Wrote-Holds (rw w.took.reserved pos) y).0);
              stored = (
                Still-Holds y (ground arith) (Wrote-Holds pos w),
                Wrote-Holds (rw w.took.reserved pos) y,
              );
              ordered = (
                m.beyond,
                m.under,
                (m.left_sorted, m.left_from, m.left_under),
                (m.right_sorted, m.right_from, m.right_under),
              );
              plain = (first, key_at-short (put_walk es x) cut b.1 plain, second);
              full = (refl, refl);
              put = take-append-drop cut (put_walk es x);
              accounts = Accounts-count (l ∷ r ∷ rest) (λ a. ground arith) y.took.accounts;
              kept = λ a c. y.took.kept a (ground arith) ∙ w.took.kept a c;
              reserved = y.took.reserved ∙ w.took.reserved;
            }))

pub insert_leaf-Inserted :
    (s : Pages) (fuel id : ℕ) (es : List Kv) (lo hi : Option (List ℕ)) (x : Kv) (rest : List ℕ)
    → 0 < s.pager.reserved
    → 0 < id
    → Accounts s.pager (id ∷ rest)
    → Ordered lo hi (leaf_node id es)
    → From lo x.key
    → Under hi x.key
    → All IsPlain es
    → IsPlain x
    → Does (insert_leaf fuel id es x) s (Inserted s 1 (put_walk es x) lo hi rest) IsRefusal
unfolding insert_leaf
insert_leaf-Inserted s fuel id es lo hi x rest pos id_pos h (sorted, from, under) fr un plain px =
    rw
      (
        released_plain fuel (get_entry es x.key) s
            (λ old q. find-IsPlain es x.key old plain (sym (get_entry-find es sorted x.key) ∙ q)),
        put_entry-put_walk es sorted x,
      )
      (elim (Bool-cases (leb (leaf_bytes longer) capacity_bytes)) [
        | inl p ↦ rw p (
            leaf_fits s id es lo hi x rest pos id_pos h sorter fromer underer plainer
              (ground arith))
        | inr p ↦ rw p (
            leaf_cut s id es lo hi x rest pos id_pos h sorter fromer underer plainer
              (split_leaf longer) (split_leaf_best longer))
      ])
  where
    longer : List Kv
    longer = put_walk es x

    sorter : IsSorted (keys_of (put_walk es x))
    sorter = put_walk-IsSorted es x sorted

    fromer : All (From lo) (keys_of (put_walk es x))
    fromer = keys-put_walk (From lo) es x from fr

    underer : All (Under hi) (keys_of (put_walk es x))
    underer = keys-put_walk (Under hi) es x under un

    plainer : All IsPlain (put_walk es x)
    plainer = All-put_walk IsPlain es x plain px
