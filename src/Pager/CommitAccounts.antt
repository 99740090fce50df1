-- ===== src/Pager/CommitAccounts.antt =====
-- `Commit` of internal/pager/pager.go, and the accounts of used and free pages.
use sapedb.Base.{
  ℕ, zero, suc, ◌+◌, ◌≡◌, sym, ap, ◌∙◌, inl, inr, List, [], ◌∷◌, ◌++◌, length, ltb, leb,
  if◌then◌else◌, Result, ok, err, arith, Bool-cases,
}
use sapedb.Base.Ids.{count, count-append, count-cons}
use mathlib.Core.List.{reverse}
use sapedb.Pager.Freelist.{Error, led, Pager, free, allocate}
use sapedb.Pager.Counts.{count-append_pending}
use sapedb.Pager.Accounts.{Accounts, Answered, free-Accounts, allocate-Answered, Accounts-count}
use sapedb.Pager.Commit.{
  Outcomes, FileCall, free_all, roll, after_allocate, take_pages, needed_pages, write_freelist,
  write_list, after_list, write_pages, list_pages, list_entries, finish_commit, next_meta_of,
  prepare, commit,
}

free_all-Accounts :
    (p : Pager) (ids tree : List ℕ) → Accounts p (ids ++ tree) → Accounts (free_all p ids) tree
unfolding free_all
free_all-Accounts p [] tree h = h
free_all-Accounts p (id ∷ ids) tree h =
    free_all-Accounts (free p id) ids tree
      (Accounts-count (ids ++ tree) (λ a. ground arith) (free-Accounts h id (ground arith)))

roll-Accounts : (p : Pager) (used : List ℕ) → Accounts p used → Accounts (roll p) used
unfolding roll
roll-Accounts p used h = elim (Bool-cases (ltb 0 (length p.freeing))) [
  | inr e ↦ rw e h
  | inl e ↦ rw e (record {
    each = λ a.
        omega (arith, count-append_pending a (p.meta.tx_id + 1) p.freeing p.pending) ∙ h.each a;
    marked = λ a m.
        omega (arith, count-append_pending a (p.meta.tx_id + 1) p.freeing p.pending, h.marked a m);
    sized = h.sized;
  })
]

-- What the loop answers that takes the pages of the list.
abbrev pub Taken : List ℕ → Result Error (List ℕ) → Pager → Type 0
Taken tree (ok ids) q = Accounts q (ids ++ tree)
Taken tree (err e) q = Unit

after_allocate-Taken :
    (p : Pager) (ids tree : List ℕ) (next : ℕ → Result Error (List ℕ) × Pager) (r : Result Error ℕ)
    (q : Pager)
    → Answered p (ids ++ tree) r q
    → ((id : ℕ) → Accounts q ((ids ++ (id ∷ [])) ++ tree) → Taken tree (next id).0 (next id).1)
    → Taken tree (after_allocate next r q).0 (after_allocate next r q).1
after_allocate-Taken p ids tree next (err e) q w k = tt
after_allocate-Taken p ids tree next (ok id) q (u, r, h) k =
    k id (Accounts-count _ (λ a. moved a id) h)
  where
    moved : (a id : ℕ) → count a (id ∷ (ids ++ tree)) ≡ count a ((ids ++ (id ∷ [])) ++ tree)
    moved a id = omega (
      arith,
      count-cons a id (ids ++ tree),
      count-cons a id [],
      count-append a ids tree,
      count-append a (ids ++ (id ∷ [])) tree,
      count-append a ids (id ∷ []),
    )

pub take_pages-Taken :
    (fuel : ℕ) (p : Pager) (ids tree : List ℕ)
    → Accounts p (ids ++ tree)
    → Taken tree (take_pages fuel p ids).0 (take_pages fuel p ids).1
unfolding take_pages
take_pages-Taken zero p ids tree h = tt
take_pages-Taken (suc fuel) p ids tree h = elim (Bool-cases (leb (needed_pages p) (length ids))) [
  | inl e ↦ rw e h
  | inr e ↦ rw e (
      after_allocate-Taken p ids tree _ (allocate p).0 (allocate p).1
        (allocate-Answered p (ids ++ tree) h)
        (λ id k. take_pages-Taken fuel (allocate p).1 (ids ++ (id ∷ [])) tree k))
]

write_list-Taken :
    (o : Outcomes) (tree : List ℕ) (r : Result Error (List ℕ)) (q : Pager)
    → Taken tree r q
    → Taken tree (write_list o r q).0 (write_list o r q).1
write_list-Taken o tree (err e) q h = tt
write_list-Taken o tree (ok ids) q h =
    elim (Bool-cases (write_pages o (reverse (list_pages ids (list_entries q)))).0) [
      | inl e ↦ rw e h
      | inr e ↦ rw e tt
    ]

pub write_freelist-Taken :
    (o : Outcomes) (q : Pager) (tree : List ℕ)
    → Accounts q tree
    → Taken tree (write_freelist o q).0 (write_freelist o q).1
unfolding write_freelist
write_freelist-Taken o q tree h =
    write_list-Taken o tree _ _ (take_pages-Taken (suc (suc (needed_pages q))) q [] tree h)

finish_commit-Accounts :
    (o : Outcomes) (p q : Pager) (root : ℕ) (ids tree : List ℕ)
    → Accounts q (ids ++ tree)
    → (finish_commit o (next_meta_of p q root ids) ids q).0 ≡ ok tt
    → Accounts
        (finish_commit o (next_meta_of p q root ids) ids q).1
        ((finish_commit o (next_meta_of p q root ids) ids q).1.chain ++ tree)
unfolding finish_commit next_meta_of
finish_commit-Accounts o p q root ids tree h e = ground arith

after_list-Accounts :
    (o : Outcomes) (p : Pager) (root : ℕ) (tree : List ℕ) (r : Result Error (List ℕ)) (q : Pager)
    (calls : List FileCall)
    → Taken tree r q
    → (after_list o p root r q calls).0 ≡ ok tt
    → Accounts (after_list o p root r q calls).1 ((after_list o p root r q calls).1.chain ++ tree)
after_list-Accounts o p root tree (err e) q calls h s = cc
after_list-Accounts o p root tree (ok ids) q calls h s =
    finish_commit-Accounts o p q root ids tree h s

-- What a commit runs, unless another process leads.
abbrev pub written : Outcomes → Pager → ℕ → Result Error (Unit {0}) × Pager × List FileCall
written o p root = let (r, q, calls) = write_freelist o (prepare p) in after_list o p root r q calls

pub commit-written :
    (o : Outcomes) (p : Pager) (root : ℕ)
    → (commit o p root).0 ≡ ok tt
    → commit o p root ≡ written o p root
unfolding commit
commit-written o p root e = elim (Bool-cases p.is_led) [
  | inl l ↦ cc (ap (λ b. (if b then (err led, p, []) else written o p root).0) l, e)
  | inr l ↦ ap (λ b. if b then (err led, p, []) else written o p root) l
]

pub prepare-Accounts :
    (p : Pager) (tree : List ℕ) → Accounts p (p.chain ++ tree) → Accounts (prepare p) tree
unfolding prepare
prepare-Accounts p tree h =
    roll-Accounts (free_all p p.chain) tree (free_all-Accounts p p.chain tree h)

written-Accounts :
    (o : Outcomes) (p : Pager) (root : ℕ) (tree : List ℕ)
    → Accounts p (p.chain ++ tree)
    → (written o p root).0 ≡ ok tt
    → Accounts (written o p root).1 ((written o p root).1.chain ++ tree)
unfolding prepare
written-Accounts o p root tree h e =
    after_list-Accounts o p root tree (write_freelist o (prepare p)).0 _ _
      (write_freelist-Taken o (prepare p) tree (prepare-Accounts p tree h)) e

-- If the pages that the tree points at and those of the list are accounted for, they still are
-- after a commit that succeeds, with the new list in the place of the old.
pub commit-Accounts :
    (o : Outcomes) (p : Pager) (root : ℕ) (tree : List ℕ)
    → Accounts p (p.chain ++ tree)
    → (commit o p root).0 ≡ ok tt
    → Accounts (commit o p root).1 ((commit o p root).1.chain ++ tree)
commit-Accounts o p root tree h e =
    let w = commit-written o p root e in
    rw w (written-Accounts o p root tree h (ap (λ c. c.0) (sym w) ∙ e))
