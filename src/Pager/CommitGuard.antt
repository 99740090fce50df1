-- ===== src/Pager/CommitGuard.antt =====
-- `Commit` of internal/pager/pager.go, and a page that a snapshot sees.
use sapedb.Base.{
  ℕ, zero, suc, ◌+◌, ◌≤◌, ◌<◌, ◌≡◌, refl, ◌∙◌, Bool, true, false, inl, inr, List, [], ◌∷◌, ◌++◌,
  length, ltb, leb, if◌then◌else◌, arith, Bool-cases, Result, ok, err, All, All-append,
}
use sapedb.Pager.Freelist.{
  Error, led, Pager, free, allocate, promote, hand_out, grow, reuse, readers_at,
}
use sapedb.Pager.Counts.{promote-Kept}
use sapedb.Pager.Accounts.{free-FreeKept}
use sapedb.Pager.Guard.{Guarded, Spares, allocate-Guarded, free-Guarded, append_pending-Waits}
use sapedb.Pager.Commit.{
  ListPage, Outcomes, FileCall, list_page, sync, meta_page, free_all, roll, prepare, after_allocate,
  take_pages, needed_pages, list_pages, list_entries, write_pages, write_list, write_freelist,
  install, finish_commit, next_meta_of, after_list, commit,
}
use mathlib.Core.List.{reverse_aux}

-- The page is guarded by a snapshot that is held.
abbrev pub Held : ℕ → ℕ → Pager → Type 0
Held s a p = Guarded s a p × (0 < readers_at p.readers s)

hand_out-readers : (p : Pager) (l : List ℕ) → (hand_out p l).1.readers ≡ p.readers
unfolding hand_out grow reuse
hand_out-readers p [] = ground arith
hand_out-readers p (x ∷ xs) = refl

allocate-readers : (p : Pager) → (allocate p).1.readers ≡ p.readers
unfolding allocate
allocate-readers p =
    let k = promote-Kept p in hand_out-readers (promote p) (promote p).ready ∙ k.readers

pub allocate-Held :
    (s a : ℕ) (p : Pager) → Held s a p → Spares a (allocate p).0 × Held s a (allocate p).1
allocate-Held s a p (g, held) =
    let (spared, after) = allocate-Guarded s a p g in
    (spared, (after, rw (allocate-readers p) held))

pub free-Held : (s a : ℕ) (p : Pager) (id : ℕ) → Held s a p → Held s a (free p id)
free-Held s a p id (g, held) =
    let k = free-FreeKept p id in (free-Guarded s a p id g, rw k.readers held)

free_all-Held : (s a : ℕ) (p : Pager) (ids : List ℕ) → Held s a p → Held s a (free_all p ids)
unfolding free_all
free_all-Held s a p [] h = h
free_all-Held s a p (id ∷ ids) h = free_all-Held s a (free p id) ids (free-Held s a p id h)

roll-Held : (s a : ℕ) (p : Pager) → Held s a p → Held s a (roll p)
unfolding roll
roll-Held s a p (g, held) = elim (Bool-cases (ltb 0 (length p.freeing))) [
  | inr e ↦ rw e (g, held)
  | inl e ↦ rw e (
    record {
      below = g.below;
      counted = g.counted;
      fresh = g.fresh;
      unready = g.unready;
      waits =
          append_pending-Waits s a (p.meta.tx_id + 1) p.freeing p.pending (omega (arith, g.past))
            g.waits;
      past = g.past;
      pinned = g.pinned;
      numbered = g.numbered;
    },
    held,
  )
]

prepare-Held : (s a : ℕ) (p : Pager) → Held s a p → Held s a (prepare p)
unfolding prepare
prepare-Held s a p h = roll-Held s a (free_all p p.chain) (free_all-Held s a p p.chain h)

abbrev Avoids : ℕ → Result Error (List ℕ) → Type 0
Avoids a (ok ids) = All (λ id. ¬ (id ≡ a)) ids
Avoids a (err e) = Unit

after_allocate-Held :
    (s a : ℕ) (next : ℕ → Result Error (List ℕ) × Pager) (r : Result Error ℕ) (q : Pager)
    → Spares a r
    → Held s a q
    → ((id : ℕ) → ¬ (id ≡ a) → Avoids a (next id).0 × Held s a (next id).1)
    → Avoids a (after_allocate next r q).0 × Held s a (after_allocate next r q).1
after_allocate-Held s a next (err e) q spared h k = (tt, h)
after_allocate-Held s a next (ok id) q spared h k = k id spared

take_pages-Held :
    (fuel s a : ℕ) (p : Pager) (ids : List ℕ)
    → Held s a p
    → All (λ id. ¬ (id ≡ a)) ids
    → Avoids a (take_pages fuel p ids).0 × Held s a (take_pages fuel p ids).1
unfolding take_pages
take_pages-Held zero s a p ids h k = (tt, h)
take_pages-Held (suc fuel) s a p ids h k = elim (Bool-cases (leb (needed_pages p) (length ids))) [
  | inl e ↦ rw e (k, h)
  | inr e ↦
      let (spared, after) = allocate-Held s a p h in
      rw e (
        after_allocate-Held s a _ (allocate p).0 (allocate p).1 spared after (λ id other.
          take_pages-Held fuel s a (allocate p).1 (ids ++ (id ∷ [])) after
            (All-append (λ x. ¬ (x ≡ a)) ids (id ∷ []) k (other, tt))))
]

-- A call of the file that does not write the page.
abbrev pub Leaves : ℕ → FileCall → Type 0
Leaves a (list_page id page) = ¬ (id ≡ a)
Leaves a (meta_page id meta) = Unit
Leaves a sync = Unit

abbrev Others : ℕ → List (ℕ × ListPage) → Type 0
Others a pages = All (λ w. ¬ (w.0 ≡ a)) pages

list_pages-Others :
    (a : ℕ) (ids : List ℕ) (entries : List (ℕ × ℕ))
    → All (λ id. ¬ (id ≡ a)) ids
    → Others a (list_pages ids entries)
unfolding list_pages
list_pages-Others a [] entries h = tt
list_pages-Others a (id ∷ ids) entries (h, hs) = (h, list_pages-Others a ids _ hs)

reverse_aux-Others :
    (a : ℕ) (xs ys : List (ℕ × ListPage)) → Others a xs → Others a ys → Others a (reverse_aux xs ys)
reverse_aux-Others a [] ys h k = k
reverse_aux-Others a (x ∷ xs) ys (h, hs) k = reverse_aux-Others a xs (x ∷ ys) hs (h, k)

write_pages-Leaves :
    (o : Outcomes) (a : ℕ) (pages : List (ℕ × ListPage))
    → Others a pages
    → All (Leaves a) (write_pages o pages).1
unfolding write_pages
write_pages-Leaves o a [] h = tt
write_pages-Leaves o a ((id, page) ∷ pages) (h, hs) = elim (Bool-cases (o.write id)) [
  | inl e ↦ rw e (h, write_pages-Leaves o a pages hs)
  | inr e ↦ rw e (h, tt)
]

-- The calls of a commit, and the state after it.
abbrev Spared : {R : Type 0} → ℕ → ℕ → R × Pager × List FileCall → Type 0
Spared s a done = Held s a done.1 × All (Leaves a) done.2

write_list-Spared :
    (o : Outcomes) (s a : ℕ) (r : Result Error (List ℕ)) (q : Pager)
    → Avoids a r
    → Held s a q
    → Spared s a (write_list o r q)
write_list-Spared o s a (err e) q k h = (h, tt)
write_list-Spared o s a (ok ids) q k h = (
  h,
  write_pages-Leaves o a _
      (reverse_aux-Others a (list_pages ids (list_entries q)) [] (list_pages-Others a ids _ k) tt),
)

install-Held :
    (s a : ℕ) (p q : Pager) (root : ℕ) (ids : List ℕ)
    → s ≤ p.meta.tx_id
    → Held s a q
    → Held s a (install (next_meta_of p q root ids) ids q)
unfolding next_meta_of
install-Held s a p q root ids past (g, held) = (
  record {
    below = omega (arith, g.below, g.counted);
    counted = omega arith;
    fresh = refl;
    unready = g.unready;
    waits = g.waits;
    past = omega arith;
    pinned = inl held;
    numbered = g.numbered;
  },
  held,
)

finish_commit-Spared :
    (o : Outcomes) (s a : ℕ) (p q : Pager) (root : ℕ) (ids : List ℕ)
    → s ≤ p.meta.tx_id
    → Held s a q
    → Spared s a (finish_commit o (next_meta_of p q root ids) ids q)
unfolding finish_commit
finish_commit-Spared o s a p q root ids past h = elim (Bool-cases o.data_sync) [
  | inr e ↦ rw e (h, (tt, tt))
  | inl e ↦ rw e (elim (Bool-cases o.meta_write) [
    | inr f ↦ rw f (h, (tt, (tt, tt)))
    | inl f ↦ rw f (elim (Bool-cases o.meta_sync) [
      | inr g ↦ rw g (h, (tt, (tt, (tt, tt))))
      | inl g ↦ rw g (install-Held s a p q root ids past h, (tt, (tt, (tt, tt))))
    ])
  ])
]

after_list-Spared :
    (o : Outcomes) (s a : ℕ) (p : Pager) (root : ℕ) (r : Result Error (List ℕ)) (q : Pager)
    (calls : List FileCall)
    → s ≤ p.meta.tx_id
    → Held s a q
    → All (Leaves a) calls
    → Spared s a (after_list o p root r q calls)
after_list-Spared o s a p root (err e) q calls past h k = (h, k)
after_list-Spared o s a p root (ok ids) q calls past h k =
    let (after, more) = finish_commit-Spared o s a p q root ids past h in
    (after, All-append (Leaves a) calls _ k more)

write_freelist-Spared :
    (o : Outcomes) (s a : ℕ) (p : Pager) → Held s a p → Spared s a (write_freelist o p)
unfolding write_freelist
write_freelist-Spared o s a p h =
    let (k, after) = take_pages-Held (suc (suc (needed_pages p))) s a p [] h tt in
    write_list-Spared o s a _ _ k after

either_Spared :
    {R : Type 0} (s a : ℕ) (b : Bool) (x y : R × Pager × List FileCall)
    → Spared s a x
    → Spared s a y
    → Spared s a (if b then x else y)
either_Spared s a true x y h k = h
either_Spared s a false x y h k = k

-- A commit keeps a page that a snapshot sees guarded, and does not write over it.
pub commit-Spared :
    (o : Outcomes) (s a : ℕ) (p : Pager) (root : ℕ)
    → Held s a p
    → Held s a (commit o p root).1 × All (Leaves a) (commit o p root).2
unfolding commit
commit-Spared o s a p root h =
    let (after, k) = write_freelist-Spared o s a (prepare p) (prepare-Held s a p h) in
    either_Spared s a p.is_led (err led, p, []) _ (h, tt)
      (after_list-Spared o s a p root _ _ _ h.0.past after k)
