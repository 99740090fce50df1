-- ===== src/Btree/Place.antt =====
-- Where a key goes among the children of a node of internal/btree, and the node with other children
-- in that place.
use sapedb.Base.{
  ℕ, suc, ◌+◌, ◌≤◌, ◌<◌, ◌≡◌, refl, sym, ap, ◌∙◌, true, false, Option, some, List, [], ◌∷◌, ◌++◌,
  get_elem?, length, append_assoc, arith, Bool-cases, inl, inr,
}
use sapedb.Base.Ids.{count, count-append}
use sapedb.Base.Lex.{key_lt}
use sapedb.Btree.Node.{Kv, max_key}
use sapedb.Btree.Sorted.{rank_through}
use sapedb.Btree.Leaf.{put_walk}
use sapedb.Btree.Pages.{Pages}
use sapedb.Btree.Tree.{replace_at, insert_at}
use sapedb.Btree.Shape.{
  Tree, Forest, one_child, and_child, root, roots, separators, entries, entries_of, depth, depth_of,
  From, Under, Beyond, Ordered, OrderedAll, Stored, StoredAll,
}
use sapedb.Btree.Flat.{entries-Under, entries_of-From, Under-trans}
use sapedb.Btree.Plain.{
  IsPair, Full, FullAll, ids, ids_of, Plain, PlainAll, Frame, Frame-left, Frame-right, Stored-Frame,
  StoredAll-Frame, put_walk-append_left, put_walk-append_right,
}

-- Two rows of children, with a separator between them.
abbrev pub join : Forest → List ℕ → Forest → Forest
join (one_child t) k g = and_child t k g
join (and_child t j f) k g = and_child t j (join f k g)

pub count-join :
    (a : ℕ) (f : Forest) (k : List ℕ) (g : Forest)
    → count a (ids_of (join f k g)) ≡ count a (ids_of f) + count a (ids_of g)
count-join a (one_child t) k g = count-append a (ids t) (ids_of g)
count-join a (and_child t j f) k g = omega (
  arith,
  count-append a (ids t) (ids_of (join f k g)),
  count-append a (ids t) (ids_of f),
  count-join a f k g,
)

join-OrderedAll :
    (f : Forest) (k : List ℕ) (g : Forest) (lo hi : Option (List ℕ))
    → OrderedAll lo (some k) f
    → Beyond lo k
    → Under hi k
    → OrderedAll (some k) hi g
    → OrderedAll lo hi (join f k g)
join-OrderedAll (one_child t) k g lo hi o b u p = (b, u, o, p)
join-OrderedAll (and_child t j f) k g lo hi o b u p =
    (o.0, Under-trans hi k j u o.1, o.2, join-OrderedAll f k g (some j) hi o.3 o.1 u p)

join-FullAll :
    (n : ℕ) (f : Forest) (k : List ℕ) (g : Forest)
    → FullAll n f
    → FullAll n g
    → FullAll n (join f k g)
join-FullAll n (one_child t) k g h i = (h, i)
join-FullAll n (and_child t j f) k g h i = (h.0, join-FullAll n f k g h.1 i)

join-IsPair : (f : Forest) (k : List ℕ) (g : Forest) → IsPair (join f k g)
join-IsPair (one_child t) k g = tt
join-IsPair (and_child t j f) k g = tt

join-StoredAll :
    (s : Pages) (f : Forest) (k : List ℕ) (g : Forest)
    → StoredAll s f
    → StoredAll s g
    → StoredAll s (join f k g)
join-StoredAll s (one_child t) k g h i = (h, i)
join-StoredAll s (and_child t j f) k g h i = (h.0, join-StoredAll s f k g h.1 i)

join-PlainAll :
    (f : Forest) (k : List ℕ) (g : Forest)
    → PlainAll f
    → length k ≤ max_key
    → PlainAll g
    → PlainAll (join f k g)
join-PlainAll (one_child t) k g h l i = (h, l, i)
join-PlainAll (and_child t j f) k g h l i = (h.0, h.1, join-PlainAll f k g h.2 l i)

pub entries-join :
    (f : Forest) (k : List ℕ) (g : Forest) → entries_of (join f k g) ≡ entries_of f ++ entries_of g
entries-join (one_child t) k g = refl
entries-join (and_child t j f) k g =
    ap (λ es. entries t ++ es) (entries-join f k g)
    ∙ sym (append_assoc (entries t) (entries_of f) (entries_of g))

-- The child that an entry goes to, and the node with a row of children in its stead.
pub record Place (f : Forest) (x : Kv) (lo hi : Option (List ℕ)) : Type 0 where
  pub child : Tree
  pub low : Option (List ℕ)
  pub high : Option (List ℕ)
  pub others : List ℕ
  pub replace : Forest → Forest
  pub child_at : get_elem? (roots f) (rank_through (separators f) x.key) ≡ some (root child)
  pub ordered : Ordered low high child
  pub from : From low x.key
  pub under : Under high x.key
  pub small : depth child ≤ depth_of f
  pub pages : (a : ℕ) → count a (ids_of f) ≡ count a (ids child) + count a others
  pub stored : (s : Pages) → StoredAll s f → Stored s child
  pub plain : PlainAll f → Plain child
  pub replace-pages :
      (a : ℕ) (g : Forest) → count a (ids_of (replace g)) ≡ count a (ids_of g) + count a others
  pub replace-ordered : (g : Forest) → OrderedAll low high g → OrderedAll lo hi (replace g)
  pub full : (n : ℕ) → FullAll n f → Full n child
  pub replace-full : (n : ℕ) (g : Forest) → FullAll n f → FullAll n g → FullAll n (replace g)
  pub replace-pair : (g : Forest) → IsPair f → IsPair (replace g)
  pub replace-stored :
      (s t : Pages) (g : Forest)
      → Frame s t others
      → StoredAll s f
      → StoredAll t g
      → StoredAll t (replace g)
  pub replace-plain : (g : Forest) → PlainAll f → PlainAll g → PlainAll (replace g)
  pub replace-entries :
      (g : Forest)
      → entries_of g ≡ put_walk (entries child) x
      → entries_of (replace g) ≡ put_walk (entries_of f) x
  pub one-separators : (t : Tree) → separators (replace (one_child t)) ≡ separators f
  pub one-roots :
      (t : Tree)
      → roots (replace (one_child t))
        ≡ replace_at (roots f) (rank_through (separators f) x.key) (root t)
  pub two-separators :
      (t : Tree) (k : List ℕ) (u : Tree)
      → separators (replace (and_child t k (one_child u)))
        ≡ insert_at (separators f) (rank_through (separators f) x.key) k
  pub two-roots :
      (t : Tree) (k : List ℕ) (u : Tree)
      → roots (replace (and_child t k (one_child u)))
        ≡ insert_at
            (replace_at (roots f) (rank_through (separators f) x.key) (root t))
            (suc (rank_through (separators f) x.key))
            (root u)

no_pair : ¬ (0 < 0)
no_pair p = omega arith

only_child :
    (x : Kv) (lo hi : Option (List ℕ)) (t : Tree)
    → Ordered lo hi t
    → From lo x.key
    → Under hi x.key
    → Place (one_child t) x lo hi
unfolding replace_at
only_child x lo hi t o fr un = record {
  child = t;
  low = lo;
  high = hi;
  others = [];
  replace = λ g. g;
  child_at = refl;
  ordered = o;
  from = fr;
  under = un;
  small = omega arith;
  pages = λ a. omega arith;
  stored = λ s h. h;
  plain = λ h. h;
  replace-pages = λ a g. omega arith;
  replace-ordered = λ g h. h;
  full = λ n h. h;
  replace-full = λ n g h k. k;
  replace-pair = λ g p. absurd (no_pair p);
  replace-stored = λ s u g k h i. i;
  replace-plain = λ g h i. i;
  replace-entries = λ g h. h;
  one-separators = λ u. refl;
  one-roots = λ u. refl;
  two-separators = λ u k v. refl;
  two-roots = λ u k v. refl;
}

before_child :
    (x : Kv) (lo hi : Option (List ℕ)) (t : Tree) (k : List ℕ) (f : Forest)
    → OrderedAll lo hi (and_child t k f)
    → From lo x.key
    → key_lt x.key k ≡ true
    → Place (and_child t k f) x lo hi
unfolding replace_at
before_child x lo hi t k f o fr p = record {
  child = t;
  low = lo;
  high = some k;
  others = ids_of f;
  replace = λ g. join g k f;
  child_at = rw p refl;
  ordered = o.2;
  from = fr;
  under = p;
  small = omega arith;
  pages = λ a. count-append a (ids t) (ids_of f);
  stored = λ s h. h.0;
  plain = λ h. h.0;
  replace-pages = λ a g. count-join a g k f;
  replace-ordered = λ g h. join-OrderedAll g k f lo hi h o.0 o.1 o.3;
  full = λ n h. h.0;
  replace-full = λ n g h j. join-FullAll n g k f j h.1;
  replace-pair = λ g p. join-IsPair g k f;
  replace-stored = λ s u g j h i. join-StoredAll u g k f i (StoredAll-Frame f s u j h.1);
  replace-plain = λ g h i. join-PlainAll g k f i h.1 h.2;
  replace-entries = λ g h.
      entries-join g k f
      ∙ ap (λ es. es ++ entries_of f) h
      ∙ sym (
          put_walk-append_left k x (entries t) (entries_of f) p
            (entries_of-From f (some k) hi o.3));
  one-separators = λ u. refl;
  one-roots = λ u. rw p refl;
  two-separators = λ u j v. rw p refl;
  two-roots = λ u j v. rw p refl;
}

behind_child :
    (x : Kv) (lo hi : Option (List ℕ)) (t : Tree) (k : List ℕ) (f : Forest)
    → OrderedAll lo hi (and_child t k f)
    → key_lt x.key k ≡ false
    → Place f x (some k) hi
    → Place (and_child t k f) x lo hi
unfolding replace_at
behind_child x lo hi t k f o p c = record {
  child = c.child;
  low = c.low;
  high = c.high;
  others = ids t ++ c.others;
  replace = λ g. and_child t k (c.replace g);
  child_at = rw p c.child_at;
  ordered = c.ordered;
  from = c.from;
  under = c.under;
  small = omega (arith, c.small);
  pages = λ a.
      omega (arith, count-append a (ids t) (ids_of f), count-append a (ids t) c.others, c.pages a);
  stored = λ s h. c.stored s h.1;
  plain = λ h. c.plain h.2;
  replace-pages = λ a g. omega (
    arith,
    count-append a (ids t) (ids_of (c.replace g)),
    count-append a (ids t) c.others,
    c.replace-pages a g,
  );
  replace-ordered = λ g h. (o.0, o.1, o.2, c.replace-ordered g h);
  full = λ n h. c.full n h.1;
  replace-full = λ n g h j. (h.0, c.replace-full n g h.1 j);
  replace-pair = λ g p. tt;
  replace-stored = λ s u g j h i. (
    Stored-Frame t s u (Frame-left s u (ids t) c.others j) h.0,
    c.replace-stored s u g (Frame-right s u (ids t) c.others j) h.1 i,
  );
  replace-plain = λ g h i. (h.0, h.1, c.replace-plain g h.2 i);
  replace-entries = λ g h.
      ap (λ es. entries t ++ es) (c.replace-entries g h)
      ∙ sym (
          put_walk-append_right k x (entries t) (entries_of f) p (entries-Under t lo (some k) o.2));
  one-separators = λ u. ap (λ ks. k ∷ ks) (c.one-separators u);
  one-roots = λ u. rw p (ap (λ rs. root t ∷ rs) (c.one-roots u));
  two-separators = λ u j v. rw p (ap (λ ks. k ∷ ks) (c.two-separators u j v));
  two-roots = λ u j v. rw p (ap (λ rs. root t ∷ rs) (c.two-roots u j v));
}

pub child_of :
    (x : Kv) (f : Forest) (lo hi : Option (List ℕ))
    → OrderedAll lo hi f
    → From lo x.key
    → Under hi x.key
    → Place f x lo hi
child_of x (one_child t) lo hi o fr un = only_child x lo hi t o fr un
child_of x (and_child t k f) lo hi o fr un = elim (Bool-cases (key_lt x.key k)) [
  | inl p ↦ before_child x lo hi t k f o fr p
  | inr p ↦ behind_child x lo hi t k f o p (child_of x f (some k) hi o.3 p un)
]
