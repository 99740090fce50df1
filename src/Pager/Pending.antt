-- ===== src/Pager/Pending.antt =====
-- The pages that wait for readers, in internal/pager/freelist.go, summed up over transactions.
use sapedb.Base.{
  ℕ, ◌+◌, ◌≤◌, ◌≡◌, refl, ap, ◌∙◌, inl, inr, List, [], ◌∷◌, ◌++◌, map, length, ◌==◌, if◌then◌else◌,
  arith, Bool-cases, length-append, length-map,
}
use sapedb.Base.Ids.{count, count-append}
use sapedb.Pager.Freelist.{
  pending_at, delete_pending, append_pending, total_pending, insert_sorted, transactions,
}
use sapedb.Pager.Counts.{count_pending}
use sapedb.Pager.Commit.{pending_entries}
use sapedb.Pager.ReadBack.{pages_of}

abbrev pub keys_of : List (ℕ × List ℕ) → List ℕ
keys_of m = map (λ e. e.0) m

abbrev pub IsMap : List (ℕ × List ℕ) → Type 0
IsMap m = (t : ℕ) → count t (keys_of m) ≤ 1

count-append_keys :
    (t k : ℕ) (ids : List ℕ) (m : List (ℕ × List ℕ))
    → IsMap m
    → count t (keys_of (append_pending m k ids)) ≤ (if k == t then 1 else count t (keys_of m))
unfolding append_pending
count-append_keys t k ids [] h = ground arith
count-append_keys t k ids ((j, js) ∷ m) h =
    ground (arith, h t, count-append_keys t k ids m (λ s. ground (arith, h s)))

pub append_pending-IsMap :
    (k : ℕ) (ids : List ℕ) (m : List (ℕ × List ℕ)) → IsMap m → IsMap (append_pending m k ids)
append_pending-IsMap k ids m h t = ground (arith, count-append_keys t k ids m h, h t)

count-delete_keys :
    (t k : ℕ) (m : List (ℕ × List ℕ)) → count t (keys_of (delete_pending m k)) ≤ count t (keys_of m)
unfolding delete_pending
count-delete_keys t k [] = omega arith
count-delete_keys t k ((j, js) ∷ m) = ground (arith, count-delete_keys t k m)

pub delete_pending-IsMap : (k : ℕ) (m : List (ℕ × List ℕ)) → IsMap m → IsMap (delete_pending m k)
delete_pending-IsMap k m h t = omega (arith, count-delete_keys t k m, h t)

count-insert_sorted :
    (t k : ℕ) (ts : List ℕ) → count t (insert_sorted k ts) ≡ (if k == t then 1 else 0) + count t ts
unfolding insert_sorted
count-insert_sorted t k [] = ground arith
count-insert_sorted t k (u ∷ us) = ground (arith, count-insert_sorted t k us)

pub count-transactions :
    (t : ℕ) (m : List (ℕ × List ℕ)) → count t (transactions m) ≡ count t (keys_of m)
unfolding transactions
count-transactions t [] = refl
count-transactions t ((k, ids) ∷ m) =
    ground (arith, count-insert_sorted t k (transactions m), count-transactions t m)

-- A measure of lists of pages, summed over some transactions, and over all.
module _ (w : List ℕ → ℕ) where
  abbrev pub sum_at : List (ℕ × List ℕ) → List ℕ → ℕ
  sum_at m [] = 0
  sum_at m (t ∷ ts) = w (pending_at m t) + sum_at m ts

  abbrev pub sum_all : List (ℕ × List ℕ) → ℕ
  sum_all [] = 0
  sum_all ((t, ids) ∷ m) = w ids + sum_all m

  sum_at-insert_sorted :
      (m : List (ℕ × List ℕ)) (t : ℕ) (ts : List ℕ)
      → sum_at m (insert_sorted t ts) ≡ w (pending_at m t) + sum_at m ts
  unfolding insert_sorted
  sum_at-insert_sorted m t [] = refl
  sum_at-insert_sorted m t (u ∷ us) = ground (arith, sum_at-insert_sorted m t us)

  sum_at_skip :
      (k : ℕ) (ids : List ℕ) (m : List (ℕ × List ℕ)) (ts : List ℕ)
      → count k ts ≡ 0
      → sum_at ((k, ids) ∷ m) ts ≡ sum_at m ts
  unfolding pending_at
  sum_at_skip k ids m [] h = refl
  sum_at_skip k ids m (t ∷ ts) h = elim (Bool-cases (k == t)) [
    | inl e ↦ absurd (ground arith)
    | inr e ↦ rw e (ap (λ n. w (pending_at m t) + n) (sum_at_skip k ids m ts (ground arith)))
  ]

  pub sum_at-transactions :
      (m : List (ℕ × List ℕ)) → IsMap m → sum_at m (transactions m) ≡ sum_all m
  unfolding transactions pending_at
  sum_at-transactions [] h = refl
  sum_at-transactions ((k, ids) ∷ m) h =
      let alone : count k (transactions m) ≡ 0 = ground (arith, h k, count-transactions k m) in
      sum_at-insert_sorted ((k, ids) ∷ m) k (transactions m)
      ∙ omega (
        arith,
        first,
        sum_at_skip k ids m (transactions m) alone,
        sum_at-transactions m (λ t. ground (arith, h t)),
      )
    where
      first : w (pending_at ((k, ids) ∷ m) k) ≡ w ids
      first = ap w (ground arith)

length-pending_entries :
    (m : List (ℕ × List ℕ)) (ts : List ℕ) → length (pending_entries m ts) ≡ sum_at length m ts
unfolding pending_entries
length-pending_entries m [] = refl
length-pending_entries m (t ∷ ts) = omega (
  arith,
  length-append (map (λ a. (t, a)) (pending_at m t)) (pending_entries m ts),
  length-map {B = ℕ × ℕ} (pending_at m t) (λ a. (t, a)),
  length-pending_entries m ts,
)

pub pages_of-append : (xs ys : List (ℕ × ℕ)) → pages_of (xs ++ ys) ≡ pages_of xs ++ pages_of ys
pages_of-append [] ys = refl
pages_of-append (x ∷ xs) ys = ap (λ l. x.1 ∷ l) (pages_of-append xs ys)

pub pages_of-map : (t : ℕ) (ids : List ℕ) → pages_of (map (λ a. (t, a)) ids) ≡ ids
pages_of-map t [] = refl
pages_of-map t (id ∷ ids) = ap (λ l. id ∷ l) (pages_of-map t ids)

pub count-pages_of :
    (a : ℕ) (xs ys : List (ℕ × ℕ))
    → count a (pages_of (xs ++ ys)) ≡ count a (pages_of xs) + count a (pages_of ys)
count-pages_of a xs ys = rw (pages_of-append xs ys) (count-append a (pages_of xs) (pages_of ys))

count-pending_entries :
    (a : ℕ) (m : List (ℕ × List ℕ)) (ts : List ℕ)
    → count a (pages_of (pending_entries m ts)) ≡ sum_at (count a) m ts
unfolding pending_entries
count-pending_entries a m [] = refl
count-pending_entries a m (t ∷ ts) = omega (
  arith,
  count-pages_of a (map (λ x. (t, x)) (pending_at m t)) (pending_entries m ts),
  ap (count a) (pages_of-map t (pending_at m t)),
  count-pending_entries a m ts,
)

sum_all-count : (a : ℕ) (m : List (ℕ × List ℕ)) → sum_all (count a) m ≡ count_pending a m
sum_all-count a [] = refl
sum_all-count a ((t, ids) ∷ m) = omega (arith, sum_all-count a m)

sum_all-length : (m : List (ℕ × List ℕ)) → sum_all length m ≡ total_pending m
unfolding total_pending
sum_all-length [] = refl
sum_all-length ((t, ids) ∷ m) = omega (arith, sum_all-length m)

pub length-all_pending :
    (m : List (ℕ × List ℕ))
    → IsMap m
    → length (pending_entries m (transactions m)) ≡ total_pending m
length-all_pending m h =
    length-pending_entries m (transactions m) ∙ sum_at-transactions length m h ∙ sum_all-length m

pub count-all_pending :
    (a : ℕ) (m : List (ℕ × List ℕ))
    → IsMap m
    → count a (pages_of (pending_entries m (transactions m))) ≡ count_pending a m
count-all_pending a m h =
    count-pending_entries a m (transactions m)
    ∙ sum_at-transactions (count a) m h
    ∙ sum_all-count a m
