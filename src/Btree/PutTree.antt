-- ===== src/Btree/PutTree.antt =====
-- insert and Put of internal/btree/tree.go on a whole tree of pages.
use sapedb.Base.{
  ℕ, zero, suc, ◌≤◌, ◌<◌, ◌≡◌, sym, ap, ◌∙◌, false, Option, List, ◌∷◌, ◌++◌, ◌==◌, Result, ok, err,
  arith,
}
use sapedb.Base.Ids.{count, count-append, count-cons}
use sapedb.Btree.Node.{Kv, Branch}
use sapedb.Btree.Sorted.{rank_through, child_for-rank_through}
use sapedb.Btree.Leaf.{put_walk}
use sapedb.Btree.Pages.{Pages, Fault, leaf_page, branch_page, ◌>>=◌, index, index-some, bind_ok}
use sapedb.Btree.Tree.{Grown, insert, grown_branch, replace_at, insert_at, insert_branch}
use sapedb.Btree.Shape.{
  Tree, Forest, leaf_node, branch_node, one_child, and_child, root, roots, separators, entries,
  entries_of, depth, From, Under, Ordered, Stored, StoredAll,
}
use sapedb.Btree.Flat.{separators-IsSorted}
use sapedb.Btree.Lookup.{read-Holds}
use sapedb.Btree.Plain.{IsPair, Full, FullAll, ids, ids_of, IsPlain, Plain, PlainAll, Frame}
use sapedb.Btree.Place.{Place, child_of}
use sapedb.Btree.Insert.{Shows, Inserted, insert_leaf-Inserted}
use sapedb.Btree.InsertNode.{node_of, insert_branch-Inserted}
use sapedb.Btree.Writes.{Spec, Does, bind-Does, IsRefusal}
use sapedb.Pager.Accounts.{Accounts, Accounts-count}

node_eq : (a b : Branch) → a.keys ≡ b.keys → a.children ≡ b.children → a ≡ b
node_eq a b p q = cc

-- The node that insert makes of what an insertion into a child answered.
grown_branch-replace :
    (f : Forest) (x : Kv) (lo hi : Option (List ℕ)) (c : Place f x lo hi) (forest : Forest)
    (g : Grown)
    → Shows forest g
    → grown_branch (node_of f) (rank_through (separators f) x.key) g ≡ node_of (c.replace forest)
unfolding grown_branch
grown_branch-replace f x lo hi c (one_child l) g (p, q) = rw q (
    node_eq _ _ (sym (c.one-separators l))
      (ap (replace_at (roots f) (rank_through (separators f) x.key)) (sym p) ∙ sym (c.one-roots l)))
grown_branch-replace f x lo hi c (and_child l k (one_child r)) g (p, q, v, z) = rw (not_zero) (
    node_eq _ _
      (ap (insert_at (separators f) (rank_through (separators f) x.key)) (sym q)
        ∙ sym (c.two-separators l k r))
      (rw (← p, ← v) (sym (c.two-roots l k r))))
  where
    not_zero : (g.right == 0) ≡ false
    not_zero = ground arith
grown_branch-replace f x lo hi c (and_child l k (and_child r j h)) g none_such =
    absurd (omega arith)

pub map_Spec :
    {A : Type 0} (P R : A → Pages → Type 0) (Q : Fault → Type 0) (r : Result Fault A) (t : Pages)
    → ((v : A) (u : Pages) → P v u → R v u)
    → Spec P Q r t
    → Spec R Q r t
map_Spec P R Q (ok v) t f h = f v t h
map_Spec P R Q (err e) t f h = h

-- The way back: the node takes the children that the insertion below it left.
node_after :
    (s u : Pages) (id n : ℕ) (f : Forest) (lo hi : Option (List ℕ)) (x : Kv) (rest : List ℕ)
    (c : Place f x lo hi) (g : Grown)
    → 0 < s.pager.reserved
    → 0 < id
    → StoredAll s f
    → PlainAll f
    → FullAll n f
    → IsPair f
    → Inserted s n (put_walk (entries c.child) x) c.low c.high (id ∷ c.others ++ rest) g u
    → Does
        (insert_branch id (grown_branch (node_of f) (rank_through (separators f) x.key) g))
        u
        (Inserted s (suc n) (put_walk (entries_of f) x) lo hi rest)
        IsRefusal
node_after s u id n f lo hi x rest c g pos id_pos st p full pair i =
    rw (grown_branch-replace f x lo hi c i.forest g i.shows) (
      map_Spec (Inserted u (suc n) (entries_of (c.replace i.forest)) lo hi rest)
        (Inserted s (suc n) (put_walk (entries_of f) x) lo hi rest) IsRefusal _ _
        (λ v w j. record {
          forest = j.forest;
          shows = j.shows;
          stored = j.stored;
          ordered = j.ordered;
          plain = j.plain;
          full = j.full;
          put = j.put ∙ c.replace-entries i.forest i.put;
          accounts = j.accounts;
          kept = λ a b.
              j.kept a b
              ∙ i.kept a
                  (omega (arith, count-cons a id (c.others ++ rest), count-append a c.others rest));
          reserved = j.reserved ∙ i.reserved;
        })
        (insert_branch-Inserted u id n (c.replace i.forest) lo hi rest (rw i.reserved pos) id_pos
          (Accounts-count (id ∷ ids_of (c.replace i.forest) ++ rest)
            (λ a. omega (
              arith,
              count-append a (ids_of i.forest) (id ∷ c.others ++ rest),
              count-cons a id (c.others ++ rest),
              count-append a c.others rest,
              count-cons a id (ids_of (c.replace i.forest) ++ rest),
              count-append a (ids_of (c.replace i.forest)) rest,
              c.replace-pages a i.forest,
            ))
            i.accounts)
          (c.replace-stored s u i.forest frame st i.stored) (c.replace-ordered i.forest i.ordered)
          (c.replace-plain i.forest p i.plain) (c.replace-full n i.forest full i.full)
          (c.replace-pair i.forest pair)))
  where
    used : (a : ℕ) → 0 < count a c.others → 0 < count a (id ∷ c.others ++ rest)
    used a b = omega (arith, count-cons a id (c.others ++ rest), count-append a c.others rest)

    frame : Frame s u c.others
    frame a b = (
      ground (
        arith,
        i.accounts.each a,
        count-append a (ids_of i.forest) (id ∷ c.others ++ rest),
        used a b,
      ),
      i.kept a (used a b),
    )

pub insert-Inserted :
    (fuel n : ℕ) (t : Tree) (s : Pages) (lo hi : Option (List ℕ)) (x : Kv) (rest : List ℕ)
    → 0 < s.pager.reserved
    → Accounts s.pager (ids t ++ rest)
    → Stored s t
    → Ordered lo hi t
    → Plain t
    → From lo x.key
    → Under hi x.key
    → IsPlain x
    → depth t ≤ fuel
    → Full n t
    → Does (insert fuel (root t) x) s (Inserted s n (put_walk (entries t) x) lo hi rest) IsRefusal
unfolding insert
insert-Inserted zero n (leaf_node id es) s lo hi x rest pos h st o p fr un px d fl =
    absurd (omega arith)
insert-Inserted zero n (branch_node id f) s lo hi x rest pos h st o p fr un px d fl =
    absurd (omega arith)
insert-Inserted (suc fuel) n (leaf_node id es) s lo hi x rest pos h st o p fr un px d fl =
    rw (read-Holds s id (leaf_page es) st, fl)
      (insert_leaf-Inserted s (suc fuel) id es lo hi x rest pos st.0 h o fr un p px)
insert-Inserted (suc fuel) n (branch_node id f) s lo hi x rest pos h st o p fr un px d fl =
    rw
      (
        read-Holds s id (branch_page (node_of f)) st.0,
        fl.1,
        child_for-rank_through (separators f) x.key (separators-IsSorted f lo hi o),
      )
      (rw
        (bind_ok (index (roots f) at)
          (λ child. insert fuel child x >>= λ g. insert_branch id (grown_branch (node_of f) at g))
          (index-some (roots f) at s c.child_at))
        (bind-Does (insert fuel (root c.child) x)
          (λ g. insert_branch id (grown_branch (node_of f) at g)) s
          (Inserted s fl.0 (put_walk (entries c.child) x) c.low c.high (id ∷ c.others ++ rest))
          (Inserted s (suc fl.0) (put_walk (entries_of f) x) lo hi rest) IsRefusal
          (insert-Inserted fuel fl.0 c.child s c.low c.high x (id ∷ c.others ++ rest) pos
            (Accounts-count (ids c.child ++ (id ∷ c.others ++ rest))
              (λ a. omega (
                arith,
                count-cons a id (ids_of f ++ rest),
                count-append a (ids_of f) rest,
                c.pages a,
                count-append a (ids c.child) (id ∷ c.others ++ rest),
                count-cons a id (c.others ++ rest),
                count-append a c.others rest,
              ))
              h)
            (c.stored s st.1) c.ordered (c.plain p) c.from c.under px (omega (arith, c.small))
            (c.full fl.0 fl.3))
          (λ g u i. node_after s u id fl.0 f lo hi x rest c g pos st.0.0 st.1 p fl.3 fl.2 i)))
  where
    c : Place f x lo hi
    c = child_of x f lo hi o fr un

    at : ℕ
    at = rank_through (separators f) x.key
