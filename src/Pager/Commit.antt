-- ===== src/Pager/Commit.antt =====
-- `writeFreelist` of internal/pager/freelist.go and `Commit` of pager.go. The calls of the file are
-- written down in the order in which they are made; whether each succeeds is an argument.
use sapedb.Base.{
  ℕ, zero, suc, ◌+◌, ◌-◌, ◌/◌, Bool, true, false, List, [], ◌∷◌, ◌++◌, map, length, take, drop, ltb,
  leb, if◌then◌else◌, Result, ok, err,
}
use sapedb.Pager.Freelist.{
  Error, led, file_error, stuck, Meta, Pager, free, allocate, free_count, append_pending,
  pending_at, transactions,
}
use mathlib.Core.List.{reverse}

-- (PageBytes - HeaderBytes - freeHeader) / freeEntry
abbrev pub free_per_page : ℕ
free_per_page = (4096 - 48 - 12) / 16

-- A page of the persisted list: where it goes on, and pairs of a transaction and a page.
pub record ListPage : Type 0 where
  pub next : ℕ
  pub entries : List (ℕ × ℕ)

pub data FileCall : Type 0 where
  list_page : ℕ → ListPage → FileCall
  sync : FileCall
  meta_page : ℕ → Meta → FileCall

-- Which calls of the file succeed.
pub record Outcomes : Type 0 where
  pub write : ℕ → Bool
  pub data_sync : Bool
  pub meta_write : Bool
  pub meta_sync : Bool

-- `for _, id := range p.free.chain { p.Free(id) }`
unfoldable pub free_all : Pager → List ℕ → Pager
free_all p [] = p
free_all p (id ∷ ids) = free_all (free p id) ids

-- What this transaction replaced waits under its own number.
unfoldable pub roll : Pager → Pager
roll p =
    if ltb 0 (length p.freeing)
    then record p { pending = append_pending p.pending (p.meta.tx_id + 1) p.freeing; freeing = [] }
    else p

unfoldable pub needed_pages : Pager → ℕ
needed_pages p = (free_count p + free_per_page - 1) / free_per_page

-- `if err != nil { return err }` behind a call of Allocate.
abbrev pub after_allocate :
    (ℕ → Result Error (List ℕ) × Pager) → Result Error ℕ → Pager → Result Error (List ℕ) × Pager
after_allocate next (ok id) q = next id
after_allocate next (err e) q = (err e, q)

-- The loop that settles the size of the list; `ids` are the pages it has taken.
unfoldable pub take_pages : ℕ → Pager → List ℕ → Result Error (List ℕ) × Pager
take_pages zero p ids = (err stuck, p)
take_pages (suc fuel) p ids =
    let more =
      after_allocate (λ id. take_pages fuel (allocate p).1 (ids ++ (id ∷ []))) (allocate p).0
        (allocate p).1 in
    if leb (needed_pages p) (length ids) then (ok ids, p) else more

unfoldable pub pending_entries : List (ℕ × List ℕ) → List ℕ → List (ℕ × ℕ)
pending_entries m [] = []
pending_entries m (t ∷ ts) = map (λ a. (t, a)) (pending_at m t) ++ pending_entries m ts

unfoldable pub list_entries : Pager → List (ℕ × ℕ)
list_entries p = map (λ a. (0, a)) p.ready ++ pending_entries p.pending (transactions p.pending)

-- `ids[0]`, and the page behind another one.
abbrev pub head_or_zero : List ℕ → ℕ
head_or_zero [] = 0
head_or_zero (id ∷ ids) = id

-- The pages as they are filled, `free_per_page` entries to each.
unfoldable pub list_pages : List ℕ → List (ℕ × ℕ) → List (ℕ × ListPage)
list_pages [] entries = []
list_pages (id ∷ ids) entries =
    (id, record { next = head_or_zero ids; entries = take free_per_page entries })
    ∷ list_pages ids (drop free_per_page entries)

-- The writes up to the first that fails.
unfoldable pub write_pages : Outcomes → List (ℕ × ListPage) → Bool × List FileCall
write_pages o [] = (true, [])
write_pages o ((id, page) ∷ pages) =
    let (done, calls) = write_pages o pages in
    if o.write id then (done, list_page id page ∷ calls) else (false, list_page id page ∷ [])

-- `writeFreelist` behind its loop: the pages of the list, written from the last to the first.
abbrev pub write_list :
    Outcomes → Result Error (List ℕ) → Pager → Result Error (List ℕ) × Pager × List FileCall
write_list o (err e) q = (err e, q, [])
write_list o (ok ids) q =
    let (done, calls) = write_pages o (reverse (list_pages ids (list_entries q))) in
    (if done then ok ids else err file_error, q, calls)

unfoldable pub write_freelist : Outcomes → Pager → Result Error (List ℕ) × Pager × List FileCall
write_freelist o p = let (r, q) = take_pages (suc (suc (needed_pages p))) p [] in write_list o r q

-- The meta page of a commit.
unfoldable pub next_meta_of : Pager → Pager → ℕ → List ℕ → Meta
next_meta_of p q root ids = record p.meta {
  tx_id = p.meta.tx_id + 1;
  root = root;
  clean = false;
  freelist = head_or_zero ids;
  page_count = q.meta.page_count;
}

-- What a commit sets at its end.
abbrev pub install : Meta → List ℕ → Pager → Pager
install next ids q = record q {
  meta = next;
  next_meta = 1 - q.next_meta;
  committed = next.page_count;
  chain = ids;
  seen = [];
  taken = [];
}

-- The end of a commit, once the list is written.
unfoldable pub finish_commit :
    Outcomes → Meta → List ℕ → Pager → Result Error (Unit {0}) × Pager × List FileCall
finish_commit o next ids q =
    let done = install next ids q in
    if o.data_sync
    then (if o.meta_write
        then (if o.meta_sync
            then (ok tt, done, sync ∷ meta_page q.next_meta next ∷ sync ∷ [])
            else (err file_error, q, sync ∷ meta_page q.next_meta next ∷ sync ∷ []))
        else (err file_error, q, sync ∷ meta_page q.next_meta next ∷ []))
    else (err file_error, q, sync ∷ [])

-- The state in which a commit writes the list.
unfoldable pub prepare : Pager → Pager
prepare p = roll (free_all p p.chain)

-- `Commit` behind `writeFreelist`.
abbrev pub after_list :
    Outcomes
    → Pager
    → ℕ
    → Result Error (List ℕ)
    → Pager
    → List FileCall
    → Result Error (Unit {0}) × Pager × List FileCall
after_list o p root (err e) q calls = (err e, q, calls)
after_list o p root (ok ids) q calls =
    let (s, r, more) = finish_commit o (next_meta_of p q root ids) ids q in (s, r, calls ++ more)

unfoldable pub commit : Outcomes → Pager → ℕ → Result Error (Unit {0}) × Pager × List FileCall
commit o p root =
    let (r, q, calls) = write_freelist o (prepare p) in
    let finished = after_list o p root r q calls in if p.is_led then (err led, p, []) else finished
