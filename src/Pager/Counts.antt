-- ===== src/Pager/Counts.antt =====
-- How often a page stands in the lists of a pager, and what each operation does to that.
use sapedb.Base.{
  ℕ, ◌+◌, ◌≡◌, refl, ◌∙◌, inl, inr, List, [], ◌∷◌, length, ◌==◌, if◌then◌else◌, arith, Bool-cases,
}
use sapedb.Base.Ids.{count, count-append}
use sapedb.Pager.Freelist.{
  Pager, pending_at, delete_pending, append_pending, promote_one, promote_loop, promote,
  transactions, oldest_held, last_of, but_last,
}

abbrev pub count_pending : ℕ → List (ℕ × List ℕ) → ℕ
count_pending a [] = 0
count_pending a ((t, ids) ∷ m) = count a ids + count_pending a m

-- How often a page is on the list, in any of its three parts.
abbrev pub held : Pager → ℕ → ℕ
held p a = count a p.ready + count_pending a p.pending + count a p.freeing

pub count-delete_pending :
    (a k : ℕ) (m : List (ℕ × List ℕ))
    → count_pending a (delete_pending m k) + count a (pending_at m k) ≡ count_pending a m
unfolding delete_pending pending_at
count-delete_pending a k [] = omega arith
count-delete_pending a k ((t, ids) ∷ m) = ground (arith, count-delete_pending a k m)

pub count-append_pending :
    (a k : ℕ) (ids : List ℕ) (m : List (ℕ × List ℕ))
    → count_pending a (append_pending m k ids) ≡ count_pending a m + count a ids
unfolding append_pending
count-append_pending a k ids [] = omega arith
count-append_pending a k ids ((t, js) ∷ m) =
    ground (arith, count-append_pending a k ids m, count-append a js ids)

pub count-but_last :
    (a x : ℕ) (xs : List ℕ)
    → count a (but_last x xs) + (if last_of x xs == a then 1 else 0) ≡ count a (x ∷ xs)
unfolding but_last last_of
count-but_last a x [] = ground arith
count-but_last a x (y ∷ ys) = ground (arith, count-but_last a y ys)

-- What `promote` leaves alone.
pub record Kept (p q : Pager) : Type 0 where
  pub meta : q.meta ≡ p.meta
  pub max_pages : q.max_pages ≡ p.max_pages
  pub committed : q.committed ≡ p.committed
  pub taken : q.taken ≡ p.taken
  pub freeing : q.freeing ≡ p.freeing
  pub seen : q.seen ≡ p.seen
  pub chain : q.chain ≡ p.chain
  pub readers : q.readers ≡ p.readers
  pub reserved : q.reserved ≡ p.reserved
  pub next_meta : q.next_meta ≡ p.next_meta
  pub is_led : q.is_led ≡ p.is_led

promote_one-Kept : (o : ℕ) (p : Pager) (t : ℕ) → Kept p (promote_one o p t)
unfolding promote_one
promote_one-Kept o p t = ground arith

held-promote_one : (o : ℕ) (p : Pager) (t a : ℕ) → held (promote_one o p t) a ≡ held p a
unfolding promote_one
held-promote_one o p t a =
    ground
      (arith, count-append a p.ready (pending_at p.pending t), count-delete_pending a t p.pending)

Kept-trans : (p q r : Pager) → Kept p q → Kept q r → Kept p r
Kept-trans p q r h k = record {
  meta = k.meta ∙ h.meta;
  max_pages = k.max_pages ∙ h.max_pages;
  committed = k.committed ∙ h.committed;
  taken = k.taken ∙ h.taken;
  freeing = k.freeing ∙ h.freeing;
  seen = k.seen ∙ h.seen;
  chain = k.chain ∙ h.chain;
  readers = k.readers ∙ h.readers;
  reserved = k.reserved ∙ h.reserved;
  next_meta = k.next_meta ∙ h.next_meta;
  is_led = k.is_led ∙ h.is_led;
}

promote_loop-Kept : (o : ℕ) (p : Pager) (ts : List ℕ) → Kept p (promote_loop o p ts)
unfolding promote_loop
promote_loop-Kept o p [] = ground arith
promote_loop-Kept o p (t ∷ ts) =
    Kept-trans p (promote_one o p t) _ (promote_one-Kept o p t)
      (promote_loop-Kept o (promote_one o p t) ts)

held-promote_loop :
    (o : ℕ) (p : Pager) (ts : List ℕ) (a : ℕ) → held (promote_loop o p ts) a ≡ held p a
unfolding promote_loop
held-promote_loop o p [] a = refl
held-promote_loop o p (t ∷ ts) a =
    held-promote_loop o (promote_one o p t) ts a ∙ held-promote_one o p t a

pub promote-Kept : (p : Pager) → Kept p (promote p)
unfolding promote
promote-Kept p = elim (Bool-cases (length p.pending == 0)) [
  | inl h ↦ rw h (ground arith)
  | inr h ↦ rw h (promote_loop-Kept (oldest_held p) p (transactions p.pending))
]

-- `promote` moves pages within the list.
pub held-promote : (p : Pager) (a : ℕ) → held (promote p) a ≡ held p a
unfolding promote
held-promote p a = elim (Bool-cases (length p.pending == 0)) [
  | inl h ↦ rw h
  | inr h ↦ rw h (held-promote_loop (oldest_held p) p (transactions p.pending) a)
]
