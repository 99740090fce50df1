-- ===== src/Pager/CommitCrash.antt =====
-- The calls of `Commit` of internal/pager/pager.go, one by one, under a crash.
use sapedb.Base.{
  ℕ, zero, suc, ◌-◌, ◌≤◌, ◌<◌, ◌≡◌, refl, ◌∙◌, Bool, true, false, inl, inr, List, [], ◌∷◌, ◌++◌,
  arith, Bool-cases, Result, ok, err, All, All-append, append_assoc, append-nil,
}
use sapedb.Pager.Freelist.{Error, Meta, Pager}
use sapedb.Pager.Commit.{
  ListPage, Outcomes, FileCall, list_page, sync, meta_page, write_pages, write_list, write_freelist,
  list_pages, list_entries, finish_commit, next_meta_of, take_pages, needed_pages,
}
use sapedb.Pager.Reading.{Disk, newer_meta}
use sapedb.Pager.Crash.{
  apply, replay, surviving, EveryCrash, choice, Outcome, IsListCall, surviving-IsListCall,
  choice-replay, choice_first, choice_second,
}
use mathlib.Core.List.{reverse}

-- A meta page of a later transaction, in the place that was not chosen, is chosen.
choice_later :
    (d : Disk) (old new : Meta) (slot : ℕ)
    → slot ≤ 1
    → choice d ≡ ok (old, slot)
    → old.tx_id < new.tx_id
    → choice (apply d (meta_page slot new)) ≡ ok (new, 1 - slot)
unfolding newer_meta
choice_later d old new zero h e later =
    let kept = choice_second (d.meta_at 0) (d.meta_at 1) old e in rw kept (ground arith)
choice_later d old new (suc zero) h e later =
    let kept = choice_first (d.meta_at 0) (d.meta_at 1) old e in rw kept (ground arith)
choice_later d old new (suc (suc n)) h e later = absurd (omega arith)

module _ (P : Disk → Type 0) (d : Disk)
    (quiet : (calls : List FileCall) → All IsListCall calls → P (replay d calls)) where
  pub EveryCrash-lists :
      (sent calls rest : List FileCall)
      → All IsListCall sent
      → All IsListCall calls
      → EveryCrash P d (sent ++ calls) rest
      → EveryCrash P d sent (calls ++ rest)
  EveryCrash-lists sent [] rest h k then_rest = rw (append-nil sent) at then_rest
  EveryCrash-lists sent (list_page id page ∷ calls) rest h (k, ks) then_rest = (
    λ keep. quiet (surviving keep sent) (surviving-IsListCall keep sent h),
    EveryCrash-lists (sent ++ (list_page id page ∷ [])) calls rest
        (All-append IsListCall sent (list_page id page ∷ []) h (k, tt)) ks
        (rw (append_assoc sent (list_page id page ∷ []) calls) then_rest),
  )
  EveryCrash-lists sent (meta_page slot meta ∷ calls) rest h (k, ks) then_rest = absurd k
  EveryCrash-lists sent (sync ∷ calls) rest h (k, ks) then_rest = absurd k

write_pages-IsListCall :
    (o : Outcomes) (pages : List (ℕ × ListPage)) → All IsListCall (write_pages o pages).1
unfolding write_pages
write_pages-IsListCall o [] = tt
write_pages-IsListCall o ((id, page) ∷ pages) = elim (Bool-cases (o.write id)) [
  | inl e ↦ rw e (tt, write_pages-IsListCall o pages)
  | inr e ↦ rw e (tt, tt)
]

write_list-IsListCall :
    (o : Outcomes) (r : Result Error (List ℕ)) (q : Pager) → All IsListCall (write_list o r q).2
write_list-IsListCall o (err e) q = tt
write_list-IsListCall o (ok ids) q =
    write_pages-IsListCall o (reverse (list_pages ids (list_entries q)))

pub write_freelist-IsListCall : (o : Outcomes) (p : Pager) → All IsListCall (write_freelist o p).2
unfolding write_freelist
write_freelist-IsListCall o p =
    let taken = take_pages (suc (suc (needed_pages p))) p [] in
    write_list-IsListCall o taken.0 taken.1

module _ (o : Outcomes) (d : Disk) (p q : Pager) (root : ℕ) (ids : List ℕ) (old : Meta)
    (calls : List FileCall) (lists : All IsListCall calls) (slot_low : q.next_meta ≤ 1)
    (chosen : choice d ≡ ok (old, q.next_meta)) (now : old.tx_id ≡ p.meta.tx_id) where
  abbrev After : Disk → Type 0
  After = Outcome d calls (next_meta_of p q root ids) q.next_meta

  pub quiet : (some_calls : List FileCall) → All IsListCall some_calls → After (replay d some_calls)
  quiet some_calls h = inl (choice-replay d some_calls h)

  synced : (ks : List Bool) → After (replay (replay d calls) (surviving ks []))
  synced [] = quiet calls lists
  synced (k ∷ ks) = quiet calls lists

  landed : After (apply (replay d calls) (meta_page q.next_meta (next_meta_of p q root ids)))
  unfolding next_meta_of
  landed = inr (
    choice_later (replay d calls) old (next_meta_of p q root ids) q.next_meta slot_low
        (choice-replay d calls lists ∙ chosen) (omega (arith, now)),
    refl,
  )

  meta_open :
      (ks : List Bool)
      → After (
          replay
            (replay d calls)
            (surviving ks (meta_page q.next_meta (next_meta_of p q root ids) ∷ [])))
  meta_open [] = quiet calls lists
  meta_open (true ∷ []) = landed
  meta_open (true ∷ (k ∷ ks)) = landed
  meta_open (false ∷ []) = quiet calls lists
  meta_open (false ∷ (k ∷ ks)) = quiet calls lists

  meta_synced :
      (ks : List Bool)
      → After (
          replay
            (apply (replay d calls) (meta_page q.next_meta (next_meta_of p q root ids)))
            (surviving ks []))
  meta_synced [] = landed
  meta_synced (k ∷ ks) = landed

  unsynced : (ks : List Bool) → After (replay d (surviving ks calls))
  unsynced ks = quiet (surviving ks calls) (surviving-IsListCall ks calls lists)

  pub finish_commit-EveryCrash :
      EveryCrash After d calls (finish_commit o (next_meta_of p q root ids) ids q).2
  unfolding finish_commit
  finish_commit-EveryCrash = elim (Bool-cases o.data_sync) [
    | inr e ↦ rw e (unsynced, synced)
    | inl e ↦ rw e (elim (Bool-cases o.meta_write) [
      | inr f ↦ rw f (unsynced, (synced, meta_open))
      | inl f ↦ rw f (elim (Bool-cases o.meta_sync) [
        | inr g ↦ rw g (unsynced, (synced, (meta_open, meta_synced)))
        | inl g ↦ rw g (unsynced, (synced, (meta_open, meta_synced)))
      ])
    ])
  ]
