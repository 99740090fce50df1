-- ===== src/Pager/Rolled.antt =====
-- The state in which `Commit` of internal/pager/pager.go writes the free list.
use sapedb.Base.{
  ℕ, zero, suc, ◌+◌, ◌≤◌, ◌≡◌, refl, ap, ◌∙◌, false, not, ◌&&◌, inl, inr, List, [], ◌∷◌, ◌++◌, map,
  length, ltb, leb, ◌==◌, arith, Bool-cases, length-append, leb→le, Result, ok, err, ◌*◌,
  length-map,
}
use sapedb.Base.Ids.{count}
use sapedb.Pager.Freelist.{
  Error, Pager, free, allocate, promote, promote_one, promote_loop, hand_out, grow, reuse,
  transactions, oldest_held, free_count,
}
use sapedb.Pager.Counts.{held, promote-Kept}
use sapedb.Pager.Accounts.{free-FreeKept}
use sapedb.Pager.Commit.{
  free_all, roll, prepare, after_allocate, take_pages, needed_pages, free_per_page, list_entries,
  pending_entries,
}
use sapedb.Pager.ReadBack.{pages_of}
use sapedb.Pager.Pending.{
  IsMap, append_pending-IsMap, delete_pending-IsMap, length-all_pending, count-all_pending,
  count-pages_of, pages_of-map,
}

pub record Rolled (reserved : ℕ) (p : Pager) : Type 0 where
  pub is_map : IsMap p.pending
  pub empty : p.freeing ≡ []
  pub reserved_eq : p.reserved ≡ reserved

promote_one-IsMap :
    (oldest : ℕ) (p : Pager) (t : ℕ) → IsMap p.pending → IsMap (promote_one oldest p t).pending
unfolding promote_one
promote_one-IsMap oldest p t h = elim (Bool-cases (ltb p.meta.tx_id t)) [
  | inl e ↦ rw e h
  | inr e ↦ rw e (elim (Bool-cases (not (oldest == 0) && ltb oldest t)) [
    | inl f ↦ rw f h
    | inr f ↦ rw f (delete_pending-IsMap t p.pending h)
  ])
]

promote_loop-IsMap :
    (oldest : ℕ) (p : Pager) (ts : List ℕ)
    → IsMap p.pending
    → IsMap (promote_loop oldest p ts).pending
unfolding promote_loop
promote_loop-IsMap oldest p [] h = h
promote_loop-IsMap oldest p (t ∷ ts) h =
    promote_loop-IsMap oldest (promote_one oldest p t) ts (promote_one-IsMap oldest p t h)

pub promote-IsMap : (p : Pager) → IsMap p.pending → IsMap (promote p).pending
unfolding promote
promote-IsMap p h = elim (Bool-cases (length p.pending == 0)) [
  | inl e ↦ rw e h
  | inr e ↦ rw e (promote_loop-IsMap (oldest_held p) p (transactions p.pending) h)
]

hand_out-Rolled : (r : ℕ) (p : Pager) (l : List ℕ) → Rolled r p → Rolled r (hand_out p l).1
unfolding hand_out grow reuse
hand_out-Rolled r p [] h =
    elim (Bool-cases (ltb 0 p.max_pages && leb p.max_pages p.meta.page_count)) [
      | inl e ↦ rw e h
      | inr e ↦ rw e (record { is_map = h.is_map; empty = h.empty; reserved_eq = h.reserved_eq })
    ]
hand_out-Rolled r p (x ∷ xs) h = record {
  is_map = h.is_map;
  empty = h.empty;
  reserved_eq = h.reserved_eq;
}

pub allocate-Rolled : (r : ℕ) (p : Pager) → Rolled r p → Rolled r (allocate p).1
unfolding allocate
allocate-Rolled r p h =
    let k = promote-Kept p in
    hand_out-Rolled r (promote p) (promote p).ready (record {
      is_map = promote-IsMap p h.is_map;
      empty = k.freeing ∙ h.empty;
      reserved_eq = k.reserved ∙ h.reserved_eq;
    })

-- The pages that the loop took, and what they are for.
abbrev pub Settled : ℕ → Result Error (List ℕ) → Pager → Type 0
Settled r (ok ids) q = Rolled r q × (needed_pages q ≤ length ids)
Settled r (err e) q = Unit

after_allocate-Settled :
    (r : ℕ) (next : ℕ → Result Error (List ℕ) × Pager) (a : Result Error ℕ) (q : Pager)
    → ((id : ℕ) → Settled r (next id).0 (next id).1)
    → Settled r (after_allocate next a q).0 (after_allocate next a q).1
after_allocate-Settled r next (err e) q h = tt
after_allocate-Settled r next (ok id) q h = h id

pub take_pages-Settled :
    (fuel r : ℕ) (p : Pager) (ids : List ℕ)
    → Rolled r p
    → Settled r (take_pages fuel p ids).0 (take_pages fuel p ids).1
unfolding take_pages
take_pages-Settled zero r p ids h = tt
take_pages-Settled (suc fuel) r p ids h = elim (Bool-cases (leb (needed_pages p) (length ids))) [
  | inl e ↦ rw e (h, leb→le (needed_pages p) (length ids) e)
  | inr e ↦ rw e (
      after_allocate-Settled r _ (allocate p).0 (allocate p).1
        (λ id. take_pages-Settled fuel r (allocate p).1 (ids ++ (id ∷ [])) (allocate-Rolled r p h)))
]

free_all-kept :
    (p : Pager) (ids : List ℕ)
    → ((free_all p ids).pending ≡ p.pending) × ((free_all p ids).reserved ≡ p.reserved)
unfolding free_all
free_all-kept p [] = (refl, refl)
free_all-kept p (id ∷ ids) =
    let k = free-FreeKept p id in
    let (m, r) = free_all-kept (free p id) ids in (m ∙ k.pending, r ∙ k.reserved)

roll-Rolled : (r : ℕ) (p : Pager) → p.reserved ≡ r → IsMap p.pending → Rolled r (roll p)
unfolding roll
roll-Rolled r p kept h = elim (Bool-cases (ltb 0 (length p.freeing))) [
  | inl e ↦ rw e (record {
    is_map = append_pending-IsMap (p.meta.tx_id + 1) p.freeing p.pending h;
    empty = refl;
    reserved_eq = kept;
  })
  | inr e ↦ rw e (record { is_map = h; empty = nothing p.freeing e; reserved_eq = kept })
]
  where
    nothing : (l : List ℕ) → ltb 0 (length l) ≡ false → l ≡ []
    nothing [] e = refl
    nothing (x ∷ xs) e = absurd (ground arith)

pub prepare-Rolled :
    (reserved : ℕ) (p : Pager)
    → p.reserved ≡ reserved
    → IsMap p.pending
    → Rolled reserved (prepare p)
unfolding prepare
prepare-Rolled reserved p kept h =
    let (m, r) = free_all-kept p p.chain in
    roll-Rolled reserved (free_all p p.chain) (r ∙ kept) (rw m h)

-- The entries of the list are the free pages, each as often as it is free.
pub length-list_entries : (q : Pager) → IsMap q.pending → length (list_entries q) ≡ free_count q
unfolding list_entries free_count
length-list_entries q h = omega (
  arith,
  length-append (map (λ a. (0, a)) q.ready) (pending_entries q.pending (transactions q.pending)),
  length-map {B = ℕ × ℕ} q.ready (λ a. (0, a)),
  length-all_pending q.pending h,
)

pub count-list_entries :
    (r : ℕ) (q : Pager) → Rolled r q → (a : ℕ) → count a (pages_of (list_entries q)) ≡ held q a
unfolding list_entries
count-list_entries r q h a = omega (
  arith,
  count-pages_of a (map (λ x. (0, x)) q.ready) (pending_entries q.pending (transactions q.pending)),
  ap (count a) (pages_of-map 0 q.ready),
  count-all_pending a q.pending h.is_map,
  ap (count a) h.empty,
)

-- They fit the pages that were taken for them.
pub list_entries-fit :
    (q : Pager) (n : ℕ)
    → IsMap q.pending
    → needed_pages q ≤ n
    → length (list_entries q) ≤ free_per_page * n
unfolding needed_pages
list_entries-fit q n h enough = omega (arith, length-list_entries q h)
