-- ===== src/Pager/Rollback.antt =====
-- `Rollback` of internal/pager/pager.go, and the snapshots that are held meanwhile.
use sapedb.Base.{
  ℕ, suc, ◌*◌, ◌≤◌, ◌<◌, ◌≡◌, refl, ap, ◌∙◌, true, List, [], ◌∷◌, ◌++◌, length, ◌==◌, arith, ok,
  All,
}
use sapedb.Pager.Freelist.{Meta, Pager, allocate, promote, hand_out, last_of, readers_at}
use sapedb.Pager.Commit.{head_or_zero, list_pages, free_per_page}
use sapedb.Pager.Reading.{
  Disk, read_freelist, load_meta, newer_meta, after_choice, after_load, rollback,
}
use sapedb.Pager.ReadBack.{pages_of, Holds, IsEntry, IsListPage, read_list-list_pages}
use sapedb.Pager.Pending.{pages_of-append}

last_of-append : (x a : ℕ) (xs : List ℕ) → last_of x (xs ++ (a ∷ [])) ≡ a
unfolding last_of
last_of-append x a [] = refl
last_of-append x a (y ∷ ys) = last_of-append y a ys

hand_out-append : (p : Pager) (a : ℕ) (xs : List ℕ) → (hand_out p (xs ++ (a ∷ []))).0 ≡ ok a
unfolding hand_out last_of
hand_out-append p a [] = refl
hand_out-append p a (x ∷ xs) = ap ok (last_of-append x a xs)

-- Where nothing waits, the last of the ready pages is handed out.
allocate-last :
    (p : Pager) (a : ℕ) (xs : List ℕ)
    → p.pending ≡ []
    → p.ready ≡ xs ++ (a ∷ [])
    → (allocate p).0 ≡ ok a
unfolding allocate promote
allocate-last p a xs none_wait e =
    let idle : (length p.pending == 0) ≡ true = ap (λ l. length l == 0) none_wait in
    rw idle (ap (λ l. (hand_out p l).0) e ∙ hand_out-append p a xs)

module _ (d : Disk) (p : Pager) (meta : Meta) (next : ℕ)
    (newest : newer_meta (d.meta_at 0) (d.meta_at 1) ≡ ok (meta, next)) where
  rollback-read_freelist :
      rollback d p
      ≡ read_freelist d
          (record p { meta = meta; next_meta = next; committed = meta.page_count; taken = [] })
  unfolding rollback load_meta
  rollback-read_freelist = ap (λ r. after_load d p (after_choice p r)) newest

  -- A rollback forgets what the held snapshots hold back. If the last entry of the list in the file
  -- is a page that transaction `t` freed, then a snapshot of an earlier transaction is still held
  -- after the rollback, and the page, which is part of what it sees, is handed out at once.
  pub rollback_forgets :
      (ids : List ℕ) (entries : List (ℕ × ℕ)) (t a s : ℕ)
      → meta.freelist ≡ head_or_zero ids
      → All (IsListPage p.reserved meta.page_count) ids
      → length ids ≤ meta.page_count
      → length (entries ++ ((t, a) ∷ [])) ≤ free_per_page * length ids
      → All (IsEntry meta.page_count) (entries ++ ((t, a) ∷ []))
      → Holds d (list_pages ids (entries ++ ((t, a) ∷ [])))
      → 0 < readers_at p.readers s
      → s < t
      → (0 < readers_at (rollback d p).1.readers s) × ((allocate (rollback d p).1).0 ≡ ok a)
  unfolding read_freelist
  rollback_forgets ids entries t a s head i few fits valid held_by reader older =
      let read =
        read_list-list_pages (suc (suc (suc meta.page_count))) d p.reserved meta.page_count ids
          (entries ++ ((t, a) ∷ [])) [] [] (omega arith) i (omega arith) fits valid held_by in
      rw (rollback-read_freelist, head)
        (
          reader,
          allocate-last _ a (pages_of entries) refl
              (ap (λ r. r.ready) read ∙ pages_of-append entries ((t, a) ∷ [])),
        )
