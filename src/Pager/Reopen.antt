-- ===== src/Pager/Reopen.antt =====
-- A free list that a commit wrote, read back by `Rollback` or when the file is opened.
use sapedb.Base.{
  ℕ, suc, ◌+◌, ◌≤◌, ◌<◌, ◌≡◌, refl, sym, ap, ◌∙◌, true, inl, inr, List, [], ◌∷◌, ◌++◌, length,
  arith, Bool-cases, Result, ok, err, All,
}
use sapedb.Base.Ids.{count, count-append, length_bounded}
use sapedb.Pager.Freelist.{Error, Meta, Pager}
use sapedb.Pager.Counts.{held}
use sapedb.Pager.Accounts.{Accounts}
use sapedb.Pager.Commit.{
  ListPage, FileCall, list_page, sync, meta_page, Outcomes, prepare, write_pages, write_list,
  write_freelist, take_pages, needed_pages, list_entries, list_pages, head_or_zero, after_list,
  install, finish_commit, next_meta_of, commit,
}
use sapedb.Pager.CommitAccounts.{written, commit-written, Taken, take_pages-Taken, prepare-Accounts}
use sapedb.Pager.Reading.{Disk, kind_free, read_freelist, read_list}
use sapedb.Pager.ReadBack.{pages_of, Holds, IsEntry, IsListPage, read_list-list_pages}
use sapedb.Pager.Pending.{IsMap}
use sapedb.Pager.Rolled.{
  Rolled, Settled, take_pages-Settled, prepare-Rolled, count-list_entries, list_entries-fit,
}
use mathlib.Core.List.{reverse, reverse_aux}

-- The file answers what a call wrote.
abbrev pub Kept : Disk → FileCall → Type 0
Kept d (list_page id page) = d.page_at id ≡ ok (record { kind = kind_free; list = page })
Kept d (meta_page id meta) = Unit
Kept d sync = Unit

Holds-reverse_aux :
    (d : Disk) (xs ys : List (ℕ × ListPage)) → Holds d (reverse_aux xs ys) → Holds d xs × Holds d ys
Holds-reverse_aux d [] ys h = (tt, h)
Holds-reverse_aux d (x ∷ xs) ys h =
    let (front, (mid, back)) = Holds-reverse_aux d xs (x ∷ ys) h in ((mid, front), back)

write_pages-Holds :
    (o : Outcomes) (d : Disk) (pages : List (ℕ × ListPage))
    → (write_pages o pages).0 ≡ true
    → All (Kept d) (write_pages o pages).1
    → Holds d pages
unfolding write_pages
write_pages-Holds o d [] e h = tt
write_pages-Holds o d ((id, page) ∷ pages) e h = elim (Bool-cases (o.write id)) [
  | inl w ↦ let (first, rest) = rw w at h in (first, write_pages-Holds o d pages (rw w at e) rest)
  | inr w ↦ (let e' = rw w at e in cc e')
]

in_range :
    {q : Pager} {used : List ℕ}
    → Accounts q used
    → (a : ℕ) → 0 < count a used + held q a
    → (q.reserved ≤ a) × (a < q.meta.page_count)
in_range h a some_where = ground (arith, h.each a)

All-IsEntry :
    (n : ℕ) (xs : List (ℕ × ℕ))
    → ((a : ℕ) → 0 < count a (pages_of xs) → (2 ≤ a) × (a < n))
    → All (IsEntry n) xs
All-IsEntry n [] h = tt
All-IsEntry n ((t, a) ∷ xs) h = (ground (arith, h a), All-IsEntry n xs (λ b k. h b (ground arith)))

All-IsListPage :
    (r n : ℕ) (ids : List ℕ)
    → ((a : ℕ) → 0 < count a ids → (0 < a) × (r ≤ a) × (a < n))
    → All (IsListPage r n) ids
All-IsListPage r n [] h = tt
All-IsListPage r n (id ∷ ids) h =
    (h id (ground arith), All-IsListPage r n ids (λ b k. h b (ground arith)))

finish_commit-install :
    (o : Outcomes) (next : Meta) (ids : List ℕ) (q : Pager)
    → (finish_commit o next ids q).0 ≡ ok tt
    → (finish_commit o next ids q).1 ≡ install next ids q
unfolding finish_commit
finish_commit-install o next ids q e = ground arith

-- What reading the list must give: the same accounts, with all that is free ready.
abbrev pub Reopened : Disk → Pager → List ℕ → Type 0
Reopened d p tree =
    ((read_freelist d p).0 ≡ ok tt)
    × ((read_freelist d p).1.chain ≡ p.chain)
    × Accounts (read_freelist d p).1 ((read_freelist d p).1.chain ++ tree)

module _ (d : Disk) (q : Pager) (ids tree : List ℕ) (h : Accounts q (ids ++ tree)) (s : Rolled 2 q)
    (enough : needed_pages q ≤ length ids)
    (held_by : Holds d (list_pages ids (list_entries q))) where
  entries-IsEntry : All (IsEntry q.meta.page_count) (list_entries q)
  entries-IsEntry = All-IsEntry q.meta.page_count (list_entries q) (λ a k.
      let (low, high) = in_range h a (omega (arith, count-list_entries 2 q s a)) in
      (rw s.reserved_eq at low, high))

  ids-IsListPage : All (IsListPage 2 q.meta.page_count) ids
  ids-IsListPage = All-IsListPage 2 q.meta.page_count ids (λ a k.
      let (low, high) = in_range h a (omega (arith, count-append a ids tree)) in
      (omega (arith, s.reserved_eq), omega (arith, s.reserved_eq), high))

  length-ids : length ids ≤ q.meta.page_count
  length-ids =
      length_bounded q.meta.page_count ids (λ a. ground (arith, h.each a, count-append a ids tree))

  read_list_back :
      read_list (suc (suc (suc q.meta.page_count))) d 2 q.meta.page_count (head_or_zero ids) [] []
      ≡ record { result = ok tt; chain = ids; ready = pages_of (list_entries q) }
  read_list_back =
      read_list-list_pages (suc (suc (suc q.meta.page_count))) d 2 q.meta.page_count ids
        (list_entries q) [] [] (omega (arith, length-ids)) ids-IsListPage
        (omega (arith, length-ids)) (list_entries-fit q (length ids) s.is_map enough)
        entries-IsEntry held_by

  install-Reopened :
      (p : Pager) (root : ℕ) → Reopened d (install (next_meta_of p q root ids) ids q) tree
  unfolding read_freelist next_meta_of
  install-Reopened p root =
      rw (s.reserved_eq, read_list_back)
        (
          refl,
          refl,
          record {
            each = λ a. ground (arith, h.each a, count-list_entries 2 q s a, s.reserved_eq);
            marked = λ a m. cc m;
            sized = rw s.reserved_eq at h.sized;
          },
        )

  finish_commit-Reopened :
      (o : Outcomes) (p : Pager) (root : ℕ)
      → (finish_commit o (next_meta_of p q root ids) ids q).0 ≡ ok tt
      → Reopened d (finish_commit o (next_meta_of p q root ids) ids q).1 tree
  finish_commit-Reopened o p root e =
      rw (finish_commit-install o (next_meta_of p q root ids) ids q e) (install-Reopened p root)

All-front : (P : FileCall → Type 0) (xs ys : List FileCall) → All P (xs ++ ys) → All P xs
All-front P [] ys h = tt
All-front P (x ∷ xs) ys (h, t) = (h, All-front P xs ys t)

-- From the loop of `writeFreelist` to the end of the commit, by what the loop answered.
after_take-Reopened :
    (o : Outcomes) (d : Disk) (p : Pager) (root : ℕ) (tree : List ℕ) (r : Result Error (List ℕ))
    (q : Pager)
    → Taken tree r q
    → Settled 2 r q
    → let (w, q', calls) = write_list o r q in
      (after_list o p root w q' calls).0 ≡ ok tt
      → All (Kept d) (after_list o p root w q' calls).2
      → Reopened d (after_list o p root w q' calls).1 tree
after_take-Reopened o d p root tree (err e) q h s done kept = cc done
after_take-Reopened o d p root tree (ok ids) q h (s, enough) done kept =
    elim (Bool-cases (write_pages o (reverse (list_pages ids (list_entries q)))).0) [
      | inl w ↦ rw w (
          let held_by =
            Holds-reverse_aux d (list_pages ids (list_entries q)) []
              (write_pages-Holds o d _ w (All-front (Kept d) _ _ (rw w at kept))) in
          finish_commit-Reopened d q ids tree h s enough held_by.0 o p root (rw w at done))
      | inr w ↦ (let e' = rw w at done in cc e')
    ]

written-Reopened :
    (o : Outcomes) (d : Disk) (p : Pager) (root : ℕ) (tree : List ℕ)
    → Accounts p (p.chain ++ tree)
    → p.reserved ≡ 2
    → IsMap p.pending
    → (written o p root).0 ≡ ok tt
    → All (Kept d) (written o p root).2
    → Reopened d (written o p root).1 tree
unfolding write_freelist
written-Reopened o d p root tree h two m done kept =
    let fuel = suc (suc (needed_pages (prepare p))) in
    after_take-Reopened o d p root tree (take_pages fuel (prepare p) []).0
      (take_pages fuel (prepare p) []).1
      (take_pages-Taken fuel (prepare p) [] tree (prepare-Accounts p tree h))
      (take_pages-Settled fuel 2 (prepare p) [] (prepare-Rolled 2 p two m)) done kept

-- A commit of an ordinary file that succeeds, whose pages the file then answers as written: reading
-- the free list, as a rollback and the opening of the file do, succeeds, finds the pages of the
-- list, and keeps the accounts, so that no page of the file is lost or free while in use.
pub commit-Reopened :
    (o : Outcomes) (d : Disk) (p : Pager) (root : ℕ) (tree : List ℕ)
    → Accounts p (p.chain ++ tree)
    → p.reserved ≡ 2
    → IsMap p.pending
    → (commit o p root).0 ≡ ok tt
    → All (Kept d) (commit o p root).2
    → Reopened d (commit o p root).1 tree
commit-Reopened o d p root tree h two m done kept =
    let w = commit-written o p root done in
    rw w (written-Reopened o d p root tree h two m (ap (λ c. c.0) (sym w) ∙ done) (rw w at kept))
