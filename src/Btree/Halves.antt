-- ===== src/Btree/Halves.antt =====
-- The two halves of a leaf and of a node that internal/btree splits, and the key between them.
use sapedb.Base.{
  ℕ, zero, suc, ◌≤◌, ◌<◌, ◌≡◌, refl, ap, true, Option, none, some, List, [], ◌∷◌, take, drop,
  length, All, arith,
}
use sapedb.Base.Lex.{key_lt, key_lt_trans, key_lt_irrefl, key_lt_asym}
use sapedb.Btree.Node.{Kv, max_key, key_at, separator_at}
use sapedb.Btree.Sorted.{IsSorted, keys_of}
use sapedb.Btree.Pages.{Pages, reads_back}
use sapedb.Btree.Shape.{
  Forest, one_child, and_child, root, roots, separators, From, Under, Beyond, OrderedAll, StoredAll,
  le_lt,
}
use sapedb.Btree.Plain.{IsPlain, PlainAll, IsPair, FullAll}
use sapedb.Btree.Place.{join}

pub All-take : {A : Type 0} (P : A → Type 0) (c : ℕ) (xs : List A) → All P xs → All P (take c xs)
All-take P zero xs h = tt
All-take P (suc c) [] h = tt
All-take P (suc c) (x ∷ xs) h = (h.0, All-take P c xs h.1)

pub All-drop : {A : Type 0} (P : A → Type 0) (c : ℕ) (xs : List A) → All P xs → All P (drop c xs)
All-drop P zero xs h = h
All-drop P (suc c) [] h = tt
All-drop P (suc c) (x ∷ xs) h = All-drop P c xs h.1

keys_of-take : (c : ℕ) (es : List Kv) → keys_of (take c es) ≡ take c (keys_of es)
keys_of-take zero es = refl
keys_of-take (suc c) [] = refl
keys_of-take (suc c) (e ∷ es) = ap (λ ks. e.key ∷ ks) (keys_of-take c es)

keys_of-drop : (c : ℕ) (es : List Kv) → keys_of (drop c es) ≡ drop c (keys_of es)
keys_of-drop zero es = refl
keys_of-drop (suc c) [] = refl
keys_of-drop (suc c) (e ∷ es) = keys_of-drop c es

-- A key of the entries has what they all have.
All-key_at :
    (P : List ℕ → Type 0) (es : List Kv) (c : ℕ)
    → c < length es
    → All P (keys_of es)
    → P (key_at es c)
unfolding key_at
All-key_at P [] c l h = absurd (omega arith)
All-key_at P (e ∷ es) zero l h = h.0
All-key_at P (e ∷ es) (suc c) l h = All-key_at P es c (omega arith) h.1

take-Under :
    (es : List Kv) (c : ℕ)
    → c < length es
    → IsSorted (keys_of es)
    → All (Under (some (key_at es c))) (keys_of (take c es))
unfolding key_at
take-Under [] c l s = absurd (omega arith)
take-Under (e ∷ es) zero l s = tt
take-Under (e ∷ es) (suc c) l s = (
  All-key_at (λ k. key_lt e.key k ≡ true) es c (omega arith) s.0,
  take-Under es c (omega arith) s.1,
)

take-IsSorted : (es : List Kv) (c : ℕ) → IsSorted (keys_of es) → IsSorted (keys_of (take c es))
take-IsSorted es zero s = tt
take-IsSorted [] (suc c) s = tt
take-IsSorted (e ∷ es) (suc c) s = (
  rw keys_of-take (All-take (λ k. key_lt e.key k ≡ true) c (keys_of es) s.0),
  take-IsSorted es c s.1,
)

not_under :
    (k : List ℕ) (ks : List (List ℕ)) → All (λ j. key_lt k j ≡ true) ks → All (From (some k)) ks
not_under k [] h = tt
not_under k (j ∷ ks) h = (key_lt_asym k j h.0, not_under k ks h.1)

drop-From :
    (es : List Kv) (c : ℕ)
    → c < length es
    → IsSorted (keys_of es)
    → All (From (some (key_at es c))) (keys_of (drop c es))
unfolding key_at
drop-From [] c l s = absurd (omega arith)
drop-From (e ∷ es) zero l s = (key_lt_irrefl e.key, not_under e.key (keys_of es) s.0)
drop-From (e ∷ es) (suc c) l s = drop-From es c (omega arith) s.1

drop-IsSorted : (es : List Kv) (c : ℕ) → IsSorted (keys_of es) → IsSorted (keys_of (drop c es))
drop-IsSorted es zero s = s
drop-IsSorted [] (suc c) s = tt
drop-IsSorted (e ∷ es) (suc c) s = drop-IsSorted es c s.1

Beyond-first :
    (lo : Option (List ℕ)) (es : List Kv) (c : ℕ)
    → 1 ≤ c
    → c < length es
    → IsSorted (keys_of es)
    → All (From lo) (keys_of es)
    → Beyond lo (key_at es c)
unfolding key_at
Beyond-first none es c p l s h = tt
Beyond-first (some b) [] c p l s h = absurd (omega arith)
Beyond-first (some b) (e ∷ es) zero p l s h = absurd (omega arith)
Beyond-first (some b) (e ∷ es) (suc c) p l s h =
    le_lt b e.key (key_at es c) h.0 (All-key_at (λ k. key_lt e.key k ≡ true) es c (omega arith) s.0)

short_key : (e : Kv) → reads_back e ≡ true → length e.key ≤ max_key
unfolding reads_back
short_key e h = ground arith

pub key_at-short :
    (es : List Kv) (c : ℕ) → c < length es → All IsPlain es → length (key_at es c) ≤ max_key
unfolding key_at
key_at-short [] c l h = absurd (omega arith)
key_at-short (e ∷ es) zero l h = short_key e h.0.1
key_at-short (e ∷ es) (suc c) l h = key_at-short es c (omega arith) h.1

-- The entries of a leaf on the two sides of a cut.
pub record LeafHalves (es : List Kv) (c : ℕ) (lo hi : Option (List ℕ)) : Type 0 where
  pub beyond : Beyond lo (key_at es c)
  pub under : Under hi (key_at es c)
  pub left_sorted : IsSorted (keys_of (take c es))
  pub left_from : All (From lo) (keys_of (take c es))
  pub left_under : All (Under (some (key_at es c))) (keys_of (take c es))
  pub right_sorted : IsSorted (keys_of (drop c es))
  pub right_from : All (From (some (key_at es c))) (keys_of (drop c es))
  pub right_under : All (Under hi) (keys_of (drop c es))

pub leaf_halves :
    (es : List Kv) (c : ℕ) (lo hi : Option (List ℕ))
    → 1 ≤ c
    → c < length es
    → IsSorted (keys_of es)
    → All (From lo) (keys_of es)
    → All (Under hi) (keys_of es)
    → LeafHalves es c lo hi
leaf_halves es c lo hi p l s f u = record {
  beyond = Beyond-first lo es c p l s f;
  under = All-key_at (Under hi) es c l u;
  left_sorted = take-IsSorted es c s;
  left_from = rw keys_of-take (All-take (From lo) c (keys_of es) f);
  left_under = take-Under es c l s;
  right_sorted = drop-IsSorted es c s;
  right_from = drop-From es c l s;
  right_under = rw keys_of-drop (All-drop (Under hi) c (keys_of es) u);
}

-- The children of a node on the two sides of the separator that goes to the parent.
pub record Halves (f : Forest) (c : ℕ) : Type 0 where
  pub left : Forest
  pub right : Forest
  pub joined : join left (separator_at (separators f) c) right ≡ f
  pub left_separators : separators left ≡ take c (separators f)
  pub left_roots : roots left ≡ take (suc c) (roots f)
  pub right_separators : separators right ≡ drop (suc c) (separators f)
  pub right_roots : roots right ≡ drop (suc c) (roots f)

pub halve : (f : Forest) (c : ℕ) → c < length (separators f) → Halves f c
unfolding separator_at
halve (one_child t) c l = absurd (omega arith)
halve (and_child t k f) zero l = record {
  left = one_child t;
  right = f;
  joined = refl;
  left_separators = refl;
  left_roots = refl;
  right_separators = refl;
  right_roots = refl;
}
halve (and_child t k f) (suc c) l =
    let h = halve f c (omega arith) in
    record {
      left = and_child t k h.left;
      right = h.right;
      joined = ap (and_child t k) h.joined;
      left_separators = ap (λ ks. k ∷ ks) h.left_separators;
      left_roots = ap (λ rs. root t ∷ rs) h.left_roots;
      right_separators = h.right_separators;
      right_roots = h.right_roots;
    }

pub OrderedAll-join :
    (f : Forest) (k : List ℕ) (g : Forest) (lo hi : Option (List ℕ))
    → OrderedAll lo hi (join f k g)
    → OrderedAll lo (some k) f × Beyond lo k × Under hi k × OrderedAll (some k) hi g
OrderedAll-join (one_child t) k g lo hi o = (o.2, o.0, o.1, o.3)
OrderedAll-join (and_child t j f) k g lo hi o =
    let (a, b, c, d) = OrderedAll-join f k g (some j) hi o.3 in
    ((o.0, b, o.2, a), Beyond-trans lo j k o.0 b, c, d)
  where
    Beyond-trans :
        (lo : Option (List ℕ)) (j k : List ℕ) → Beyond lo j → key_lt j k ≡ true → Beyond lo k
    Beyond-trans none j k b l = tt
    Beyond-trans (some a) j k b l = key_lt_trans a j k b l

pub StoredAll-join :
    (s : Pages) (f : Forest) (k : List ℕ) (g : Forest)
    → StoredAll s (join f k g)
    → StoredAll s f × StoredAll s g
StoredAll-join s (one_child t) k g h = (h.0, h.1)
StoredAll-join s (and_child t j f) k g h = let (a, b) = StoredAll-join s f k g h.1 in ((h.0, a), b)

pub PlainAll-join :
    (f : Forest) (k : List ℕ) (g : Forest)
    → PlainAll (join f k g)
    → PlainAll f × (length k ≤ max_key) × PlainAll g
PlainAll-join (one_child t) k g h = (h.0, h.1, h.2)
PlainAll-join (and_child t j f) k g h =
    let (a, b, c) = PlainAll-join f k g h.2 in ((h.0, h.1, a), b, c)

pub FullAll-join :
    (n : ℕ) (f : Forest) (k : List ℕ) (g : Forest)
    → FullAll n (join f k g)
    → FullAll n f × FullAll n g
FullAll-join n (one_child t) k g h = (h.0, h.1)
FullAll-join n (and_child t j f) k g h = let (a, b) = FullAll-join n f k g h.1 in ((h.0, a), b)

pub length-IsPair : (f : Forest) → 0 < length (separators f) → IsPair f
length-IsPair (one_child t) l = l
length-IsPair (and_child t k f) l = tt
