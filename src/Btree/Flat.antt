-- ===== src/Btree/Flat.antt =====
-- The entries of a tree of internal/btree in one list: their bounds, their order, and the searches
-- in two lists that a separator divides.
use sapedb.Base.{
  ℕ, ◌≡◌, refl, true, false, Option, none, some, List, [], ◌∷◌, ◌++◌, All, Bool-cases, inl, inr, ap,
}
use sapedb.Base.Lex.{key_lt, key_lt_trans}
use sapedb.Btree.Node.{Kv}
use sapedb.Btree.Sorted.{IsSorted, keys_of}
use sapedb.Btree.Leaf.{find}
use sapedb.Btree.LeafMap.{find_above}
use sapedb.Btree.Shape.{
  Tree, Forest, leaf_node, branch_node, one_child, and_child, entries, entries_of, separators, From,
  Beyond, Under, Ordered, OrderedAll, lt_le,
}

keys_of-append : (xs ys : List Kv) → keys_of (xs ++ ys) ≡ keys_of xs ++ keys_of ys
keys_of-append [] ys = refl
keys_of-append (x ∷ xs) ys = ap (λ l. x.key ∷ l) (keys_of-append xs ys)

-- A property of all keys of two lists.
pub All-both :
    (P : List ℕ → Type 0) (xs ys : List Kv)
    → All P (keys_of xs)
    → All P (keys_of ys)
    → All P (keys_of (xs ++ ys))
All-both P [] ys h k = k
All-both P (x ∷ xs) ys h k = (h.0, All-both P xs ys h.1 k)

All-map :
    (P Q : List ℕ → Type 0) (f : (k : List ℕ) → P k → Q k) (ks : List (List ℕ))
    → All P ks
    → All Q ks
All-map P Q f [] h = tt
All-map P Q f (k ∷ ks) h = (f k h.0, All-map P Q f ks h.1)

pub Under-trans :
    (hi : Option (List ℕ)) (k j : List ℕ) → Under hi k → key_lt j k ≡ true → Under hi j
Under-trans none k j u l = tt
Under-trans (some b) k j u l = key_lt_trans j k b l u

From-trans : (lo : Option (List ℕ)) (k j : List ℕ) → Beyond lo k → key_lt j k ≡ false → From lo j
From-trans none k j b l = tt
From-trans (some a) k j b l = elim (Bool-cases (key_lt j a)) [
  | inl p ↦ cc (key_lt_trans j a k p b, l)
  | inr p ↦ p
]

-- The keys of a subtree stand within its bounds.
mutual
  pub entries-From :
      (t : Tree) (lo hi : Option (List ℕ)) → Ordered lo hi t → All (From lo) (keys_of (entries t))
  entries-From (leaf_node id es) lo hi o = o.1
  entries-From (branch_node id f) lo hi o = entries_of-From f lo hi o

  pub entries_of-From :
      (f : Forest) (lo hi : Option (List ℕ))
      → OrderedAll lo hi f
      → All (From lo) (keys_of (entries_of f))
  entries_of-From (one_child t) lo hi o = entries-From t lo hi o
  entries_of-From (and_child t k f) lo hi o =
      All-both (From lo) (entries t) (entries_of f) (entries-From t lo (some k) o.2) (
        All-map (From (some k)) (From lo) (λ j l. From-trans lo k j o.0 l) (keys_of (entries_of f))
          (entries_of-From f (some k) hi o.3))

mutual
  pub entries-Under :
      (t : Tree) (lo hi : Option (List ℕ)) → Ordered lo hi t → All (Under hi) (keys_of (entries t))
  entries-Under (leaf_node id es) lo hi o = o.2
  entries-Under (branch_node id f) lo hi o = entries_of-Under f lo hi o

  pub entries_of-Under :
      (f : Forest) (lo hi : Option (List ℕ))
      → OrderedAll lo hi f
      → All (Under hi) (keys_of (entries_of f))
  entries_of-Under (one_child t) lo hi o = entries-Under t lo hi o
  entries_of-Under (and_child t k f) lo hi o =
      All-both (Under hi) (entries t) (entries_of f)
        (All-map (Under (some k)) (Under hi) (λ j l. Under-trans hi k j o.1 l) (keys_of (entries t))
          (entries-Under t lo (some k) o.2))
        (entries_of-Under f (some k) hi o.3)

-- Two ascending lists divided by a key are one.
All-lt :
    (j k : List ℕ) (ks : List (List ℕ))
    → key_lt j k ≡ true
    → All (From (some k)) ks
    → All (λ i. key_lt j i ≡ true) ks
All-lt j k [] l h = tt
All-lt j k (i ∷ ks) l h = (lt_le j k i l h.0, All-lt j k ks l h.1)

append-IsSorted :
    (k : List ℕ) (xs ys : List Kv)
    → IsSorted (keys_of xs)
    → IsSorted (keys_of ys)
    → All (Under (some k)) (keys_of xs)
    → All (From (some k)) (keys_of ys)
    → IsSorted (keys_of (xs ++ ys))
append-IsSorted k [] ys s r u h = r
append-IsSorted k (x ∷ xs) ys s r u h = (
  All-both (λ i. key_lt x.key i ≡ true) xs ys s.0 (All-lt x.key k (keys_of ys) u.0 h),
  append-IsSorted k xs ys s.1 r u.1 h,
)

mutual
  pub entries-IsSorted :
      (t : Tree) (lo hi : Option (List ℕ)) → Ordered lo hi t → IsSorted (keys_of (entries t))
  entries-IsSorted (leaf_node id es) lo hi o = o.0
  entries-IsSorted (branch_node id f) lo hi o = entries_of-IsSorted f lo hi o

  entries_of-IsSorted :
      (f : Forest) (lo hi : Option (List ℕ))
      → OrderedAll lo hi f
      → IsSorted (keys_of (entries_of f))
  entries_of-IsSorted (one_child t) lo hi o = entries-IsSorted t lo hi o
  entries_of-IsSorted (and_child t k f) lo hi o =
      append-IsSorted k (entries t) (entries_of f) (entries-IsSorted t lo (some k) o.2)
        (entries_of-IsSorted f (some k) hi o.3) (entries-Under t lo (some k) o.2)
        (entries_of-From f (some k) hi o.3)

-- So do the separators of a node.
separators-All :
    (f : Forest) (k : List ℕ) (hi : Option (List ℕ))
    → OrderedAll (some k) hi f
    → All (λ j. key_lt k j ≡ true) (separators f)
separators-All (one_child t) k hi o = tt
separators-All (and_child t j f) k hi o = (
  o.0,
  All-map (λ i. key_lt j i ≡ true) (λ i. key_lt k i ≡ true) (λ i l. key_lt_trans k j i o.0 l)
      (separators f) (separators-All f j hi o.3),
)

pub separators-IsSorted :
    (f : Forest) (lo hi : Option (List ℕ)) → OrderedAll lo hi f → IsSorted (separators f)
separators-IsSorted (one_child t) lo hi o = tt
separators-IsSorted (and_child t k f) lo hi o =
    (separators-All f k hi o.3, separators-IsSorted f (some k) hi o.3)

-- A key below the one that divides two lists is looked for in the first, any other in the second.
pub find-append_left :
    (k key : List ℕ) (xs ys : List Kv)
    → key_lt key k ≡ true
    → All (From (some k)) (keys_of ys)
    → find (xs ++ ys) key ≡ find xs key
find-append_left k key [] ys l h = find_above key ys (All-lt key k (keys_of ys) l h)
find-append_left k key (x ∷ xs) ys l h = rw (find-append_left k key xs ys l h) refl

pub find-append_right :
    (k key : List ℕ) (xs ys : List Kv)
    → key_lt key k ≡ false
    → All (Under (some k)) (keys_of xs)
    → find (xs ++ ys) key ≡ find ys key
find-append_right k key [] ys l u = refl
find-append_right k key (x ∷ xs) ys l u =
    rw (lt_le x.key k key u.0 l, find-append_right k key xs ys l u.1) refl

-- Above a key that is above another, no key is below that one.
pub key_over : (k key j : List ℕ) → key_lt key k ≡ true → key_lt j k ≡ false → key_lt j key ≡ false
key_over k key j l h = elim (Bool-cases (key_lt j key)) [
  | inl p ↦ cc (key_lt_trans j key k p l, h)
  | inr p ↦ p
]
