-- ===== src/Pager/CommitOnce.antt =====
-- The commit as a whole: which place its meta page goes to, and what a crash leaves.
use sapedb.Base.{
  ℕ, zero, suc, ◌+◌, ◌-◌, ◌≤◌, ◌≡◌, refl, ap, ◌∙◌, Bool, true, false, ◌⊎◌, inl, inr, List, [], ◌∷◌,
  ◌++◌, length, leb, if◌then◌else◌, arith, Bool-cases, Result, ok, err, All, append-nil,
}
use sapedb.Pager.Freelist.{Error, Meta, Pager, led, free, allocate, promote, hand_out, grow, reuse}
use sapedb.Pager.Counts.{promote-Kept}
use sapedb.Pager.Accounts.{free-FreeKept}
use sapedb.Pager.Commit.{
  Outcomes, FileCall, sync, meta_page, list_page, prepare, free_all, roll, after_allocate,
  take_pages, needed_pages, write_list, write_freelist, next_meta_of, after_list, commit,
}
use sapedb.Pager.Reading.{Disk}
use sapedb.Pager.Crash.{
  replay, surviving, EveryCrash, choice, Outcome, IsListCall, surviving-IsListCall, choice-replay,
}
use sapedb.Pager.CommitCrash.{
  finish_commit-EveryCrash, write_freelist-IsListCall, EveryCrash-lists, quiet,
}

hand_out-next_meta : (p : Pager) (l : List ℕ) → (hand_out p l).1.next_meta ≡ p.next_meta
unfolding hand_out grow reuse
hand_out-next_meta p [] = ground arith
hand_out-next_meta p (x ∷ xs) = refl

allocate-next_meta : (p : Pager) → (allocate p).1.next_meta ≡ p.next_meta
unfolding allocate
allocate-next_meta p =
    let k = promote-Kept p in hand_out-next_meta (promote p) (promote p).ready ∙ k.next_meta

after_allocate-next_meta :
    (slot : ℕ) (next : ℕ → Result Error (List ℕ) × Pager) (r : Result Error ℕ) (q : Pager)
    → q.next_meta ≡ slot
    → ((id : ℕ) → (next id).1.next_meta ≡ slot)
    → (after_allocate next r q).1.next_meta ≡ slot
after_allocate-next_meta slot next (err e) q h k = h
after_allocate-next_meta slot next (ok id) q h k = k id

take_pages-next_meta :
    (fuel : ℕ) (p : Pager) (ids : List ℕ) → (take_pages fuel p ids).1.next_meta ≡ p.next_meta
unfolding take_pages
take_pages-next_meta zero p ids = refl
take_pages-next_meta (suc fuel) p ids = elim (Bool-cases (leb (needed_pages p) (length ids))) [
  | inl e ↦ rw e
  | inr e ↦ rw e (
      after_allocate-next_meta p.next_meta _ (allocate p).0 (allocate p).1 (allocate-next_meta p)
        (λ id. take_pages-next_meta fuel (allocate p).1 (ids ++ (id ∷ [])) ∙ allocate-next_meta p))
]

free_all-next_meta : (p : Pager) (ids : List ℕ) → (free_all p ids).next_meta ≡ p.next_meta
unfolding free_all
free_all-next_meta p [] = refl
free_all-next_meta p (id ∷ ids) =
    let k = free-FreeKept p id in free_all-next_meta (free p id) ids ∙ k.next_meta

prepare-next_meta : (p : Pager) → (prepare p).next_meta ≡ p.next_meta
unfolding prepare roll
prepare-next_meta p = ground (arith, free_all-next_meta p p.chain)

write_list-next_meta :
    (o : Outcomes) (r : Result Error (List ℕ)) (q : Pager) → (write_list o r q).1 ≡ q
write_list-next_meta o (err e) q = refl
write_list-next_meta o (ok ids) q = refl

write_freelist-next_meta :
    (o : Outcomes) (p : Pager) → (write_freelist o (prepare p)).1.next_meta ≡ p.next_meta
unfolding write_freelist
write_freelist-next_meta o p =
    let fuel = suc (suc (needed_pages (prepare p))) in
    ap (λ q. q.next_meta) (write_list-next_meta o (take_pages fuel (prepare p) []).0 _)
    ∙ take_pages-next_meta fuel (prepare p) []
    ∙ prepare-next_meta p

-- The old choice of the file, or the new transaction with every page that was written before it.
abbrev pub OldOrNew : Outcomes → Disk → Pager → ℕ → Disk → Type 0
OldOrNew o d p root after =
    (choice after ≡ choice d)
    ⊎ ((new : Meta) × (new.tx_id ≡ p.meta.tx_id + 1)
        × (new.root ≡ root)
        × (choice after ≡ ok (new, 1 - p.next_meta))
        × (after.page_at ≡ (replay d (write_freelist o (prepare p)).2).page_at))

EveryCrash-map :
    (P Q : Disk → Type 0) (d : Disk) (sent calls : List FileCall)
    → ((after : Disk) → P after → Q after)
    → EveryCrash P d sent calls
    → EveryCrash Q d sent calls
EveryCrash-map P Q d sent [] f h = λ ks. f _ (h ks)
EveryCrash-map P Q d sent (sync ∷ calls) f (h, hs) =
    (λ ks. f _ (h ks), EveryCrash-map P Q (replay d sent) [] calls f hs)
EveryCrash-map P Q d sent (list_page id page ∷ calls) f (h, hs) =
    (λ ks. f _ (h ks), EveryCrash-map P Q d (sent ++ (list_page id page ∷ [])) calls f hs)
EveryCrash-map P Q d sent (meta_page slot meta ∷ calls) f (h, hs) =
    (λ ks. f _ (h ks), EveryCrash-map P Q d (sent ++ (meta_page slot meta ∷ [])) calls f hs)

module _ (o : Outcomes) (d : Disk) (p : Pager) (root : ℕ) (old : Meta) (low : p.next_meta ≤ 1)
    (chosen : choice d ≡ ok (old, p.next_meta)) (now : old.tx_id ≡ p.meta.tx_id) where
  after_list-EveryCrash :
      (r : Result Error (List ℕ)) (q : Pager) (calls : List FileCall)
      → All IsListCall calls
      → q.next_meta ≡ p.next_meta
      → calls ≡ (write_freelist o (prepare p)).2
      → EveryCrash (OldOrNew o d p root) d [] (after_list o p root r q calls).2
  unfolding next_meta_of
  after_list-EveryCrash (err e) q calls lists same is_written = rw (← append-nil calls) (
      EveryCrash-lists (OldOrNew o d p root) d still [] calls [] tt lists
        (λ ks. still (surviving ks calls) (surviving-IsListCall ks calls lists)))
    where
      still :
          (some_calls : List FileCall)
          → All IsListCall some_calls
          → OldOrNew o d p root (replay d some_calls)
      still some_calls h = inl (choice-replay d some_calls h)
  after_list-EveryCrash (ok ids) q calls lists same is_written =
      EveryCrash-map _ (OldOrNew o d p root) d [] _ weaken (
        EveryCrash-lists (Outcome d calls (next_meta_of p q root ids) q.next_meta) d
          (quiet o d p q root ids old calls lists (rw same low) (rw same chosen) now) [] calls _ tt
          lists
          (finish_commit-EveryCrash o d p q root ids old calls lists (rw same low) (rw same chosen)
            now))
    where
      weaken :
          (after : Disk)
          → Outcome d calls (next_meta_of p q root ids) q.next_meta after
          → OldOrNew o d p root after
      weaken after (inl kept) = inl kept
      weaken after (inr (e, pages)) =
          inr (next_meta_of p q root ids, refl, refl, rw same at e, rw is_written at pages)

  either_EveryCrash :
      {R : Type 0} (b : Bool) (x y : R × Pager × List FileCall)
      → EveryCrash (OldOrNew o d p root) d [] x.2
      → EveryCrash (OldOrNew o d p root) d [] y.2
      → EveryCrash (OldOrNew o d p root) d [] (if b then x else y).2
  either_EveryCrash true x y h k = h
  either_EveryCrash false x y h k = k

  nothing_done : EveryCrash (OldOrNew o d p root) d [] []
  nothing_done [] = inl refl
  nothing_done (k ∷ ks) = inl refl

  -- A commit is one write. Whatever fails, and wherever a crash falls, any of the writes since the
  -- last sync being lost: `loadMeta` then chooses what it chose before the commit, or the meta page
  -- of the next transaction with its root, with every page of the list in the file.
  pub commit_once : EveryCrash (OldOrNew o d p root) d [] (commit o p root).2
  unfolding commit
  commit_once =
      let after =
        after_list-EveryCrash (write_freelist o (prepare p)).0 (write_freelist o (prepare p)).1
          (write_freelist o (prepare p)).2 (write_freelist-IsListCall o (prepare p))
          (write_freelist-next_meta o p) refl in
      either_EveryCrash p.is_led (err led, p, []) _ nothing_done after
