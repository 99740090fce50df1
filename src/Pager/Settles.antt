-- ===== src/Pager/Settles.antt =====
-- The loop of `writeFreelist` of internal/pager/freelist.go, and how long it runs.
use sapedb.Base.{
  ℕ, zero, suc, ◌+◌, ◌≤◌, ◌<◌, ◌≡◌, refl, ap, ◌∙◌, ◌&&◌, inl, inr, List, [], ◌∷◌, ◌++◌, length, ltb,
  leb, ◌==◌, arith, Bool-cases, length-append, leb→lt, Result, ok, err,
}
use sapedb.Pager.Freelist.{
  Error, stuck, Pager, allocate, promote, promote_one, promote_loop, hand_out, grow, reuse,
  transactions, oldest_held, free_count, total_pending, pending_at, delete_pending, but_last,
}
use sapedb.Pager.Commit.{
  Outcomes, after_allocate, take_pages, needed_pages, write_freelist, write_list, write_pages,
  list_pages, list_entries,
}
use mathlib.Core.List.{reverse}

total-delete_pending :
    (k : ℕ) (m : List (ℕ × List ℕ))
    → total_pending (delete_pending m k) + length (pending_at m k) ≡ total_pending m
unfolding total_pending delete_pending pending_at
total-delete_pending k [] = omega arith
total-delete_pending k ((j, ids) ∷ m) = ground (arith, total-delete_pending k m)

length-but_last : (x : ℕ) (xs : List ℕ) → length (but_last x xs) ≡ length xs
unfolding but_last
length-but_last x [] = refl
length-but_last x (y ∷ ys) = omega (arith, length-but_last y ys)

free_count-promote_one :
    (oldest : ℕ) (p : Pager) (t : ℕ) → free_count (promote_one oldest p t) ≡ free_count p
unfolding promote_one free_count
free_count-promote_one oldest p t =
    ground (arith, length-append p.ready (pending_at p.pending t), total-delete_pending t p.pending)

free_count-promote_loop :
    (oldest : ℕ) (p : Pager) (ts : List ℕ) → free_count (promote_loop oldest p ts) ≡ free_count p
unfolding promote_loop
free_count-promote_loop oldest p [] = refl
free_count-promote_loop oldest p (t ∷ ts) =
    free_count-promote_loop oldest (promote_one oldest p t) ts ∙ free_count-promote_one oldest p t

pub free_count-promote : (p : Pager) → free_count (promote p) ≡ free_count p
unfolding promote
free_count-promote p = elim (Bool-cases (length p.pending == 0)) [
  | inl e ↦ rw e
  | inr e ↦ rw e (free_count-promote_loop (oldest_held p) p (transactions p.pending))
]

free_count-hand_out :
    (p : Pager) (l : List ℕ) → p.ready ≡ l → free_count (hand_out p l).1 ≤ free_count p
unfolding hand_out grow reuse free_count
free_count-hand_out p [] e = ground arith
free_count-hand_out p (x ∷ xs) e = omega (arith, length-but_last x xs, ap length e)

pub free_count-allocate : (p : Pager) → free_count (allocate p).1 ≤ free_count p
unfolding allocate
free_count-allocate p =
    omega (arith, free_count-hand_out (promote p) (promote p).ready refl, free_count-promote p)

needed_pages-allocate : (p : Pager) → needed_pages (allocate p).1 ≤ needed_pages p
unfolding needed_pages
needed_pages-allocate p = omega (arith, free_count-allocate p)

-- An answer that is a page, pages, or an error of the code's own.
abbrev pub Went : {A : Type 0} → Result Error A → Type 0
Went (ok v) = Unit
Went (err e) = ¬ (e ≡ stuck)

hand_out-Went : (p : Pager) (l : List ℕ) → Went (hand_out p l).0
unfolding hand_out
hand_out-Went p [] = elim (Bool-cases (ltb 0 p.max_pages && leb p.max_pages p.meta.page_count)) [
  | inl full ↦ rw full (λ e. cc e)
  | inr room ↦ rw room tt
]
hand_out-Went p (x ∷ xs) = tt

allocate-Went : (p : Pager) → Went (allocate p).0
unfolding allocate
allocate-Went p = hand_out-Went (promote p) (promote p).ready

after_allocate-Went :
    (next : ℕ → Result Error (List ℕ) × Pager) (a : Result Error ℕ) (q : Pager)
    → Went a
    → ((id : ℕ) → Went (next id).0)
    → Went (after_allocate next a q).0
after_allocate-Went next (err e) q w h = w
after_allocate-Went next (ok id) q w h = h id

take_pages-Went :
    (fuel : ℕ) (p : Pager) (ids : List ℕ)
    → 0 < fuel
    → needed_pages p < fuel + length ids
    → Went (take_pages fuel p ids).0
unfolding take_pages
take_pages-Went zero p ids some_fuel enough = absurd (omega arith)
take_pages-Went (suc fuel) p ids some_fuel enough =
    elim (Bool-cases (leb (needed_pages p) (length ids))) [
      | inl e ↦ rw e tt
      | inr e ↦ rw e (
          after_allocate-Went _ (allocate p).0 (allocate p).1 (allocate-Went p) (λ id.
            take_pages-Went fuel (allocate p).1 (ids ++ (id ∷ []))
              (omega (arith, leb→lt (needed_pages p) (length ids) e))
              (omega (arith, needed_pages-allocate p, length-append ids (id ∷ [])))))
    ]

write_list-Went :
    (o : Outcomes) (r : Result Error (List ℕ)) (q : Pager) → Went r → Went (write_list o r q).0
write_list-Went o (err e) q w = w
write_list-Went o (ok ids) q w =
    elim (Bool-cases (write_pages o (reverse (list_pages ids (list_entries q)))).0) [
      | inl e ↦ rw e tt
      | inr e ↦ rw e (λ s. cc s)
    ]

-- The loop of `writeFreelist` ends: the rounds it has are enough, in every state.
pub write_freelist_total : (o : Outcomes) (p : Pager) → Went (write_freelist o p).0
unfolding write_freelist
write_freelist_total o p =
    write_list-Went o _ _
      (take_pages-Went (suc (suc (needed_pages p))) p [] (omega arith) (omega arith))
