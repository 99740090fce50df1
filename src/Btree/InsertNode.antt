-- ===== src/Btree/InsertNode.antt =====
-- The node case of insert of internal/btree/tree.go on a tree of pages.
use sapedb.Base.{
  All, length-take, length-drop, ℕ, suc, ◌+◌, ◌≤◌, ◌<◌, ◌≡◌, refl, sym, ap, ◌∙◌, true, false, ◌&&◌,
  Option, none, some, List, [], ◌∷◌, ◌++◌, drop, length, leb, ◌==◌, arith, inl, inr, Bool-cases,
}
use sapedb.Base.Ids.{count, count-append, count-cons}
use sapedb.Btree.Node.{Branch, max_key, separator_at, branch_bytes, capacity_bytes, split_branch}
use sapedb.Btree.Even.{split_even}
use sapedb.Btree.SplitBranch.{left_branch, right_branch, IsBestBranchCut, split_branch_best}
use sapedb.Btree.Pages.{Pages, Page, branch_page, every, ◌>>=◌, done, write_branch}
use sapedb.Btree.Tree.{insert_branch, write_branches}
use sapedb.Btree.Shape.{
  Forest, branch_node, one_child, and_child, roots, separators, entries_of, OrderedAll, StoredAll,
}
use sapedb.Btree.Plain.{IsPair, FullAll, ids_of, PlainAll, Frame, StoredAll-Frame}
use sapedb.Btree.Place.{join, count-join, entries-join}
use sapedb.Btree.Halves.{
  halve, OrderedAll-join, StoredAll-join, PlainAll-join, FullAll-join, length-IsPair,
}
use sapedb.Btree.Insert.{Inserted, Wrote-Holds, Still-Holds}
use sapedb.Btree.Writes.{Does, bind-Does, IsRefusal, owned, Wrote, write_branch-Wrote}
use sapedb.Pager.Accounts.{Accounts, Accounts-count}

abbrev pub node_of : Forest → Branch
node_of f = record { keys = separators f; children = roots f }

All-short : (f : Forest) → PlainAll f → All (λ k. length k ≤ max_key) (separators f)
All-short (one_child t) h = tt
All-short (and_child t k f) h = (h.1, All-short f h.2)

pub length-roots : (f : Forest) → length (roots f) ≡ length (separators f) + 1
length-roots (one_child t) = refl
length-roots (and_child t k f) = omega (arith, length-roots f)

pub every-short :
    (f : Forest) → PlainAll f → every (λ key. leb (length key) max_key) (separators f) ≡ true
unfolding every
every-short (one_child t) h = refl
every-short (and_child t k f) h = rw (every-short f h.2) (short k h.1)
  where
    short : (k : List ℕ) → length k ≤ max_key → (leb (length k) max_key && true) ≡ true
    short k l = ground arith

-- A written page, and pages that were used.
pub Wrote-Frame :
    {s : Pages} {used : List ℕ} {page : Page} {id : ℕ} {u : Pages} (us : List ℕ)
    → Wrote s used page id u
    → ((a : ℕ) → 0 < count a us → 0 < count a used)
    → Frame s u us
Wrote-Frame {used = used} {u = u} us w k a c = (small_a a (k a c), w.took.kept a (k a c))
  where
    small_a : (a : ℕ) → 0 < count a used → a < u.pager.meta.page_count
    small_a a c = ground (arith, w.took.accounts.each a)

keys_bytes : (a b : Branch) → a.keys ≡ b.keys → branch_bytes a ≡ branch_bytes b
unfolding branch_bytes
keys_bytes a b h = rw h refl

next_place : (c : ℕ) → suc c ≡ c + 1
next_place c = omega arith

-- Children that two writes leave alone.
twice :
    {s u v : Pages} {used : List ℕ} {page page' : Page} {l r : ℕ} (f : Forest)
    → Wrote s used page l u
    → Wrote u (l ∷ used) page' r v
    → ((a : ℕ) → 0 < count a (ids_of f) → 0 < count a used)
    → StoredAll s f
    → StoredAll v f
twice {s} {u} {v} {used = used} {l = l} f w y k h =
    StoredAll-Frame f u v
      (Wrote-Frame (ids_of f) y (λ a c. omega (arith, count-cons a l used, k a c)))
      (StoredAll-Frame f s u (Wrote-Frame (ids_of f) w k) h)

module _ (s : Pages) (id n : ℕ) (f : Forest) (lo hi : Option (List ℕ)) (rest : List ℕ)
    (pos : 0 < s.pager.reserved) (id_pos : 0 < id) (h : Accounts s.pager (id ∷ ids_of f ++ rest))
    (stored : StoredAll s f) (ordered : OrderedAll lo hi f) (plain : PlainAll f)
    (full : FullAll n f) (pair : IsPair f) where
  owned_id : Accounts s.pager (owned id (ids_of f ++ rest))
  owned_id = rw not_zero h
    where
      not_zero : (id == 0) ≡ false
      not_zero = ground arith

  node_fits :
      branch_bytes (node_of f) ≤ capacity_bytes
      → Does
          (write_branch id (node_of f) >>= λ n.
            done (record { left = n; separator = []; right = 0 }))
          s
          (Inserted s (suc n) (entries_of f) lo hi rest)
          IsRefusal
  node_fits fits =
      bind-Does (write_branch id (node_of f)) _ s
        (Wrote s (ids_of f ++ rest) (branch_page (node_of f)))
        (Inserted s (suc n) (entries_of f) lo hi rest) IsRefusal
        (write_branch-Wrote s id (ids_of f ++ rest) (node_of f) owned_id (length-roots f) fits
          (every-short f plain))
        (λ m u w. record {
          forest = one_child (branch_node m f);
          shows = (refl, refl);
          stored = (
            Wrote-Holds pos w,
            StoredAll-Frame f s u
                (Wrote-Frame (ids_of f) w (λ a c. omega (arith, count-append a (ids_of f) rest)))
                stored,
          );
          ordered = ordered;
          plain = plain;
          full = (n, refl, pair, full);
          put = refl;
          accounts = w.took.accounts;
          kept = λ a c. w.took.kept a (omega (arith, count-append a (ids_of f) rest));
          reserved = w.took.reserved;
        })

  module _ (one : Forest) (k : List ℕ) (two : Forest) (joined : join one k two ≡ f) where
    pages-joined : (a : ℕ) → count a (ids_of f) ≡ count a (ids_of one) + count a (ids_of two)
    pages-joined a = ap (λ g. count a (ids_of g)) (sym joined) ∙ count-join a one k two

    first_used : (a : ℕ) → 0 < count a (ids_of one) → 0 < count a (ids_of f ++ rest)
    first_used a c = omega (arith, count-append a (ids_of f) rest, pages-joined a)

    second_used : (a : ℕ) → 0 < count a (ids_of two) → 0 < count a (ids_of f ++ rest)
    second_used a c = omega (arith, count-append a (ids_of f) rest, pages-joined a)

    two_nodes :
        branch_bytes (node_of one) ≤ capacity_bytes
        → branch_bytes (node_of two) ≤ capacity_bytes
        → IsPair one
        → IsPair two
        → Does
            (do
              l ← write_branch id (node_of one)
              r ← write_branch 0 (node_of two)
              done (record { left = l; separator = k; right = r }))
            s
            (Inserted s (suc n) (entries_of f) lo hi rest)
            IsRefusal
    two_nodes fits fits' pair_one pair_two =
        let o = OrderedAll-join one k two lo hi (rw (← joined) at ordered) in
        let st = StoredAll-join s one k two (rw (← joined) at stored) in
        let q = FullAll-join n one k two (rw (← joined) at full) in
        let p = PlainAll-join one k two (rw (← joined) at plain) in
        bind-Does (write_branch id (node_of one)) _ s
          (Wrote s (ids_of f ++ rest) (branch_page (node_of one)))
          (Inserted s (suc n) (entries_of f) lo hi rest) IsRefusal
          (write_branch-Wrote s id (ids_of f ++ rest) (node_of one) owned_id (length-roots one) fits
            (every-short one p.0))
          (λ l u w.
            bind-Does (write_branch 0 (node_of two)) _ u
              (Wrote u (l ∷ ids_of f ++ rest) (branch_page (node_of two)))
              (Inserted s (suc n) (entries_of f) lo hi rest) IsRefusal
              (write_branch-Wrote u 0 (l ∷ ids_of f ++ rest) (node_of two) w.took.accounts
                (length-roots two) fits' (every-short two p.2))
              (λ r v y. record {
                forest = and_child (branch_node l one) k (one_child (branch_node r two));
                shows = (refl, refl, refl, (Wrote-Holds (rw w.took.reserved pos) y).0);
                stored = (
                  (Still-Holds y (ground arith) (Wrote-Holds pos w), twice one w y first_used st.0),
                  (Wrote-Holds (rw w.took.reserved pos) y, twice two w y second_used st.1),
                );
                ordered = (o.1, o.2, o.0, o.3);
                plain = (p.0, p.1, p.2);
                full = ((n, refl, pair_one, q.0), (n, refl, pair_two, q.1));
                put = sym (entries-join one k two) ∙ ap entries_of joined;
                accounts =
                    Accounts-count
                      (ids_of (and_child (branch_node l one) k (one_child (branch_node r two)))
                        ++ rest)
                      (λ a. omega (
                        arith,
                        count-append a (ids_of f) rest,
                        pages-joined a,
                        count-cons a r (l ∷ ids_of f ++ rest),
                        count-cons a l (ids_of f ++ rest),
                        count-append a ((l ∷ ids_of one) ++ (r ∷ ids_of two)) rest,
                        count-append a (l ∷ ids_of one) (r ∷ ids_of two),
                        count-cons a l (ids_of one),
                        count-cons a r (ids_of two),
                      ))
                      y.took.accounts;
                kept = λ a c.
                    y.took.kept a (
                      omega
                        (arith, count-cons a l (ids_of f ++ rest), count-append a (ids_of f) rest))
                    ∙ w.took.kept a (omega (arith, count-append a (ids_of f) rest));
                reserved = y.took.reserved ∙ w.took.reserved;
              }))

  node_cut :
      (o : Option ℕ)
      → IsBestBranchCut (node_of f) o
      → capacity_bytes < branch_bytes (node_of f)
      → Does
          (write_branches id (node_of f) o)
          s
          (Inserted s (suc n) (entries_of f) lo hi rest)
          IsRefusal
  unfolding write_branches
  node_cut none b over = inr (inr refl)
  node_cut (some cut) (b, better) over =
      let m = halve f cut b.0 in
      let e = split_even (node_of f) (All-short f plain) over cut (b, better) in
      rw (← m.left_separators, ← m.left_roots, ← m.right_separators, ← m.right_roots)
        (two_nodes m.left (separator_at (separators f) cut) m.right m.joined
          (omega (
            arith,
            keys_bytes (node_of m.left) (left_branch (node_of f) cut) m.left_separators,
            b.1,
          ))
          (omega (
            arith,
            keys_bytes (node_of m.right) (right_branch (node_of f) cut)
                (m.right_separators ∙ ap (λ i. drop i (separators f)) (next_place cut)),
            b.2,
          ))
          (length-IsPair m.left
            (omega (arith, e.0, b.0, ap length m.left_separators, length-take cut (separators f))))
          (length-IsPair m.right (
            omega
              (arith, e.1, ap length m.right_separators, length-drop (suc cut) (separators f)))))

-- The node with the children that an insertion left, as one node or two.
pub insert_branch-Inserted :
    (s : Pages) (id n : ℕ) (f : Forest) (lo hi : Option (List ℕ)) (rest : List ℕ)
    → 0 < s.pager.reserved
    → 0 < id
    → Accounts s.pager (id ∷ ids_of f ++ rest)
    → StoredAll s f
    → OrderedAll lo hi f
    → PlainAll f
    → FullAll n f
    → IsPair f
    → Does (insert_branch id (node_of f)) s (Inserted s (suc n) (entries_of f) lo hi rest) IsRefusal
unfolding insert_branch
insert_branch-Inserted s id n f lo hi rest pos id_pos h st o p d pair =
    elim (Bool-cases (leb (branch_bytes (node_of f)) capacity_bytes)) [
      | inl q ↦ rw q (node_fits s id n f lo hi rest pos id_pos h st o p d pair (ground arith))
      | inr q ↦ rw q (
          node_cut s id n f lo hi rest pos id_pos h st o p d pair (split_branch (node_of f))
            (split_branch_best (node_of f)) (ground arith))
    ]
