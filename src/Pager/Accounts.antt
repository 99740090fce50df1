-- ===== src/Pager/Accounts.antt =====
-- The accounts of internal/pager: the pages of a file that are in use or on the free list, under
-- Allocate and Free.
use sapedb.Base.{
  ℕ, ◌+◌, ◌≤◌, ◌<◌, ◌≡◌, refl, ap, ◌∙◌, true, false, ◌&&◌, ◌||◌, inl, inr, List, [], ◌∷◌, ltb, leb,
  ◌==◌, if◌then◌else◌, Result, ok, err, arith, Bool-cases,
}
use sapedb.Base.Ids.{
  count, count-append, count-cons, has, has-without, erase, count-erase, count-erase,
}
use sapedb.Pager.Freelist.{
  Error, quota, Pager, free, dirty, promote, last_of, hand_out, allocate, grow, create, create_led,
  new_pager, reuse,
}
use sapedb.Pager.Counts.{held, count-but_last, Kept, promote-Kept, held-promote}

-- `used` are the pages that something points at: the tree's, its values', and the list's own.
pub record Accounts (p : Pager) (used : List ℕ) : Type 0 where
  pub each :
      (a : ℕ)
      → count a used + held p a ≡ (if leb p.reserved a && ltb a p.meta.page_count then 1 else 0)
  pub marked : (a : ℕ) → has a p.seen ≡ true → 0 < held p a
  pub sized : p.reserved ≤ p.meta.page_count

pub create-Accounts : (max_pages : ℕ) → Accounts (create max_pages) []
unfolding create new_pager
create-Accounts max_pages = record {
  each = λ a. ground arith;
  marked = λ a m. cc;
  sized = omega arith;
}

pub create_led-Accounts : (max_pages : ℕ) → Accounts (create_led max_pages) []
unfolding create_led new_pager
create_led-Accounts max_pages = record {
  each = λ a. ground arith;
  marked = λ a m. cc;
  sized = omega arith;
}

-- What `Free` leaves alone.
pub record FreeKept (p q : Pager) : Type 0 where
  pub meta : q.meta ≡ p.meta
  pub reserved : q.reserved ≡ p.reserved
  pub committed : q.committed ≡ p.committed
  pub taken : q.taken ≡ p.taken
  pub pending : q.pending ≡ p.pending
  pub chain : q.chain ≡ p.chain
  pub readers : q.readers ≡ p.readers
  pub next_meta : q.next_meta ≡ p.next_meta
  pub is_led : q.is_led ≡ p.is_led
  pub max_pages : q.max_pages ≡ p.max_pages

pub free-FreeKept : (p : Pager) (id : ℕ) → FreeKept p (free p id)
unfolding free
free-FreeKept p id = ground arith

module _ (p : Pager) (id : ℕ) (fresh : (ltb id p.reserved || has id p.seen) ≡ false) where
  pub held-free : (a : ℕ) → held (free p id) a ≡ held p a + (if id == a then 1 else 0)
  unfolding free
  held-free a = rw fresh (elim (Bool-cases (dirty p id)) [
    | inl d ↦ rw d (omega (arith, count-append a p.ready (id ∷ []), count-cons a id []))
    | inr d ↦ rw d (omega (arith, count-append a p.freeing (id ∷ []), count-cons a id []))
  ])

  pub seen-free : (free p id).seen ≡ id ∷ p.seen
  unfolding free
  seen-free = rw fresh (elim (Bool-cases (dirty p id)) [ inl d ↦ rw d | inr d ↦ rw d ])

module _ {p : Pager} {used : List ℕ} (h : Accounts p used) where
  pub free_fresh : (id : ℕ) → 0 < count id used → (ltb id p.reserved || has id p.seen) ≡ false
  free_fresh id u = ground (arith, h.each id, h.marked id)

  pub free-Accounts : (id : ℕ) → 0 < count id used → Accounts (free p id) (erase id used)
  free-Accounts id u =
      let k = free-FreeKept p id in
      let f = free_fresh id u in
      record {
        each = λ a.
            rw (k.meta, k.reserved)
              (omega (arith, held-free p id f a, count-erase id a used u) ∙ h.each a);
        marked = λ a m. marked a (rw (seen-free p id f) at m);
        sized = rw (k.meta, k.reserved) h.sized;
      }
    where
      marked : (a : ℕ) → has a (id ∷ p.seen) ≡ true → 0 < held (free p id) a
      marked a m = ground (arith, held-free p id (free_fresh id u) a, h.marked a)

-- What `Allocate` answers: a page that nothing uses, now in use; or, at the limit, an error that
-- changes nothing of this.
abbrev pub Answered : Pager → List ℕ → Result Error ℕ → Pager → Type 0
Answered p used (ok id) q = (count id used ≡ 0) × (p.reserved ≤ id) × Accounts q (id ∷ used)
Answered p used (err e) q =
    (e ≡ quota) × (0 < p.max_pages) × (p.max_pages ≤ p.meta.page_count) × Accounts q used

module _ {p : Pager} {used : List ℕ} (h : Accounts p used) where
  grow-Accounts : Accounts (grow p) (p.meta.page_count ∷ used)
  unfolding grow
  grow-Accounts = record {
    each = λ a. ground (arith, h.each a, h.sized);
    marked = h.marked;
    sized = omega arith;
  }

  page_count-unused : count p.meta.page_count used ≡ 0
  page_count-unused = ground (arith, h.each p.meta.page_count)

  module _ (x : ℕ) (xs : List ℕ) (e : p.ready ≡ x ∷ xs) where
    held-reuse : (a : ℕ) → held (reuse p x xs) a + (if last_of x xs == a then 1 else 0) ≡ held p a
    unfolding reuse
    held-reuse a = omega (arith, count-but_last a x xs, ap (count a) e)

    reuse-Accounts : Accounts (reuse p x xs) (last_of x xs ∷ used)
    unfolding reuse
    reuse-Accounts = record {
      each = λ a. omega (arith, count-cons a (last_of x xs) used, held-reuse a) ∙ h.each a;
      marked = λ a m. ground (arith, held-reuse a, h.marked a, has-without (last_of x xs) a p.seen);
      sized = h.sized;
    }

    last-unused : (count (last_of x xs) used ≡ 0) × (p.reserved ≤ last_of x xs)
    last-unused = ground (arith, held-reuse (last_of x xs), h.each (last_of x xs))

hand_out-Answered :
    {used : List ℕ} (p : Pager) (l : List ℕ)
    → p.ready ≡ l
    → Accounts p used
    → Answered p used (hand_out p l).0 (hand_out p l).1
unfolding hand_out
hand_out-Answered p [] e h =
    elim (Bool-cases (ltb 0 p.max_pages && leb p.max_pages p.meta.page_count)) [
      | inl full ↦ rw full (refl, ground arith, ground arith, h)
      | inr room ↦ rw room (page_count-unused h, h.sized, grow-Accounts h)
    ]
hand_out-Answered p (x ∷ xs) e h =
    let (u, r) = last-unused h x xs e in (u, r, reuse-Accounts h x xs e)

promote-Accounts : {p : Pager} {used : List ℕ} → Accounts p used → Accounts (promote p) used
promote-Accounts {p} h =
    let k = promote-Kept p in
    record {
      each = λ a. rw (k.meta, k.reserved, held-promote) (h.each a);
      marked = λ a m. rw held-promote (h.marked a (rw k.seen at m));
      sized = rw (k.meta, k.reserved) h.sized;
    }

Answered-Kept :
    {p q : Pager} (s : Pager) (used : List ℕ) (r : Result Error ℕ)
    → Kept p q
    → Answered q used r s
    → Answered p used r s
Answered-Kept s used (ok id) k (u, r, h) = (u, rw (← k.reserved) r, h)
Answered-Kept s used (err e) k (q, m, n, h) =
    (q, rw (← k.max_pages) m, rw (← k.max_pages, ← k.meta) n, h)

-- `Allocate` hands out a page that nothing uses and is in the file from then on, or fails at the
-- page limit; either way the accounts still hold.
pub allocate-Answered :
    (p : Pager) (used : List ℕ) → Accounts p used → Answered p used (allocate p).0 (allocate p).1
unfolding allocate
allocate-Answered p used h =
    let q = promote p in
    Answered-Kept (hand_out q q.ready).1 used (hand_out q q.ready).0 (promote-Kept p)
      (hand_out-Answered q q.ready refl (promote-Accounts h))

-- The accounts are about how often a page is used, not about an order.
pub Accounts-count :
    {p : Pager} {u : List ℕ} (v : List ℕ)
    → ((a : ℕ) → count a u ≡ count a v)
    → Accounts p u
    → Accounts p v
Accounts-count v e h = record {
  each = λ a. omega (arith, e a) ∙ h.each a;
  marked = h.marked;
  sized = h.sized;
}
