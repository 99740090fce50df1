-- ===== src/Btree/Plain.antt =====
-- Trees of internal/btree whose values stand beside their keys: their pages, what the encoders ask
-- of their entries, and their copies among changed pages.
use sapedb.Base.{
  ℕ, suc, sym, ◌≤◌, ◌<◌, ◌≡◌, refl, ap, ◌∙◌, true, false, some, List, [], ◌∷◌, ◌++◌, length, All,
  arith, Bool-cases, inl, inr,
}
use sapedb.Base.Ids.{count, count-append, count-cons}
use sapedb.Base.Lex.{key_lt, key_eq, key_eq-true, key_lt_irrefl}
use sapedb.Btree.Node.{Kv, max_key}
use sapedb.Btree.Sorted.{keys_of}
use sapedb.Btree.Leaf.{put_walk}
use sapedb.Btree.Pages.{Pages, Page, reads_back}
use sapedb.Btree.Shape.{
  Tree, Forest, depth, depth_of, leaf_node, branch_node, one_child, and_child, Stored, StoredAll,
  Holds, From, Under, lt_le,
}
use sapedb.Btree.Flat.{key_over}

-- The pages of a tree.
abbrev mutual
  pub ids : Tree → List ℕ
  ids (leaf_node id es) = id ∷ []
  ids (branch_node id f) = id ∷ ids_of f

  pub ids_of : Forest → List ℕ
  ids_of (one_child t) = ids t
  ids_of (and_child t k f) = ids t ++ ids_of f

abbrev pub IsPlain : Kv → Type 0
IsPlain e = (e.head ≡ 0) × (reads_back e ≡ true)

abbrev mutual
  pub Plain : Tree → Type 0
  Plain (leaf_node id es) = All IsPlain es
  Plain (branch_node id f) = PlainAll f

  pub PlainAll : Forest → Type 0
  PlainAll (one_child t) = Plain t
  PlainAll (and_child t k f) = Plain t × (length k ≤ max_key) × PlainAll f

abbrev pub IsPair : Forest → Type 0
IsPair (one_child t) = 0 < 0
IsPair (and_child t k f) = Unit

-- All leaves `n` levels down, and two children or more in every node.
abbrev mutual
  pub Full : ℕ → Tree → Type 0
  Full n (leaf_node id es) = n ≡ 1
  Full n (branch_node id f) = (m : ℕ) × (n ≡ suc m) × IsPair f × FullAll m f

  pub FullAll : ℕ → Forest → Type 0
  FullAll n (one_child t) = Full n t
  FullAll n (and_child t k f) = Full n t × FullAll n f

-- Such a tree has `n` levels.
mutual
  pub Full-depth : (n : ℕ) (t : Tree) → Full n t → depth t ≡ n
  Full-depth n (leaf_node id es) h = sym h
  Full-depth n (branch_node id f) (m, p, q, h) = ap suc (FullAll-depth m f h) ∙ sym p

  pub FullAll-depth : (n : ℕ) (f : Forest) → FullAll n f → depth_of f ≡ n
  FullAll-depth n (one_child t) h = Full-depth n t h
  FullAll-depth n (and_child t k f) h = omega (arith, Full-depth n t h.0, FullAll-depth n f h.1)

-- Pages that are as they were, and in the file.
abbrev pub Frame : Pages → Pages → List ℕ → Type 0
Frame s t used =
    (a : ℕ) → 0 < count a used → (a < t.pager.meta.page_count) × (t.page_at a ≡ s.page_at a)

Holds-Frame :
    (s t : Pages) (id : ℕ) (page : Page) (used : List ℕ)
    → Frame s t used
    → 0 < count id used
    → Holds s id page
    → Holds t id page
Holds-Frame s t id page used k c h = (h.0, (k id c).0, (k id c).1 ∙ h.2)

pub Frame-left : (s t : Pages) (us vs : List ℕ) → Frame s t (us ++ vs) → Frame s t us
Frame-left s t us vs k a c = k a (omega (arith, count-append a us vs))

pub Frame-right : (s t : Pages) (us vs : List ℕ) → Frame s t (us ++ vs) → Frame s t vs
Frame-right s t us vs k a c = k a (omega (arith, count-append a us vs))

mutual
  pub Stored-Frame : (u : Tree) (s t : Pages) → Frame s t (ids u) → Stored s u → Stored t u
  Stored-Frame (leaf_node id es) s t k h = Holds-Frame s t id _ (id ∷ []) k (ground arith) h
  Stored-Frame (branch_node id f) s t k h = (
    Holds-Frame s t id _ (id ∷ ids_of f) k (ground arith) h.0,
    StoredAll-Frame f s t (λ a c. k a (omega (arith, count-cons a id (ids_of f)))) h.1,
  )

  pub StoredAll-Frame :
      (f : Forest) (s t : Pages) → Frame s t (ids_of f) → StoredAll s f → StoredAll t f
  StoredAll-Frame (one_child u) s t k h = Stored-Frame u s t k h
  StoredAll-Frame (and_child u j f) s t k h = (
    Stored-Frame u s t (Frame-left s t (ids u) (ids_of f) k) h.0,
    StoredAll-Frame f s t (Frame-right s t (ids u) (ids_of f) k) h.1,
  )

-- Putting an entry into two lists that a key divides.
put_walk-first :
    (k : List ℕ) (x : Kv) (ys : List Kv)
    → key_lt x.key k ≡ true
    → All (From (some k)) (keys_of ys)
    → put_walk ys x ≡ x ∷ ys
put_walk-first k x [] l h = refl
put_walk-first k x (y ∷ ys) l h = rw (key_over k x.key y.key l h.0, unequal) refl
  where
    unequal : key_eq y.key x.key ≡ false
    unequal = elim (Bool-cases (key_eq y.key x.key)) [
      | inl p ↦ cc (key_eq-true y.key x.key p, lt_le x.key k y.key l h.0, key_lt_irrefl x.key)
      | inr p ↦ p
    ]

pub put_walk-append_left :
    (k : List ℕ) (x : Kv) (xs ys : List Kv)
    → key_lt x.key k ≡ true
    → All (From (some k)) (keys_of ys)
    → put_walk (xs ++ ys) x ≡ put_walk xs x ++ ys
put_walk-append_left k x [] ys l h = put_walk-first k x ys l h
put_walk-append_left k x (z ∷ xs) ys l h = elim (Bool-cases (key_lt z.key x.key)) [
  | inl p ↦ rw p (ap (λ r. z ∷ r) (put_walk-append_left k x xs ys l h))
  | inr p ↦ rw p (elim (Bool-cases (key_eq z.key x.key)) [ inl q ↦ rw q refl | inr q ↦ rw q refl ])
]

pub put_walk-append_right :
    (k : List ℕ) (x : Kv) (xs ys : List Kv)
    → key_lt x.key k ≡ false
    → All (Under (some k)) (keys_of xs)
    → put_walk (xs ++ ys) x ≡ xs ++ put_walk ys x
put_walk-append_right k x [] ys l u = refl
put_walk-append_right k x (z ∷ xs) ys l u =
    rw (lt_le z.key k x.key u.0 l) (ap (λ r. z ∷ r) (put_walk-append_right k x xs ys l u.1))
