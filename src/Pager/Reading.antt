-- ===== src/Pager/Reading.antt =====
-- `readFreelist` of internal/pager/freelist.go, and loadMeta, Rollback, Open, Close, Flush and
-- Abandon of pager.go and led.go. A disk is what `readMeta` and `Read` answer about the file.
use sapedb.Base.{
  ℕ, zero, suc, ◌+◌, Bool, true, false, not, ◌&&◌, ◌||◌, List, [], ◌∷◌, ◌++◌, length, ltb, leb,
  ◌==◌, if◌then◌else◌, Result, ok, err,
}
use sapedb.Pager.Freelist.{
  Error, bad_freelist, not_sapedb, bad_format, no_meta, not_led, file_error, stuck, Meta, Pager,
  new_pager,
}
use sapedb.Pager.Commit.{
  ListPage, Outcomes, FileCall, meta_page, sync, free_per_page, prepare, write_freelist,
  head_or_zero,
}

abbrev pub kind_free : ℕ
kind_free = 4

pub record DiskPage : Type 0 where
  pub kind : ℕ
  pub list : ListPage

pub record Disk : Type 0 where
  pub meta_at : ℕ → Result Error Meta
  pub page_at : ℕ → Result Error DiskPage

-- How far the reading of the list came: the error, and the fields `chain` and `ready` by then.
pub record ListRead : Type 0 where
  pub result : Result Error (Unit {0})
  pub chain : List ℕ
  pub ready : List ℕ

-- The entries of a page; what they say of transactions is left behind.
unfoldable pub add_entries : ℕ → List (ℕ × ℕ) → List ℕ → List ℕ → (List ℕ → ListRead) → ListRead
add_entries page_count [] chain ready next = next ready
add_entries page_count ((t, freed) ∷ entries) chain ready next =
    let rest = add_entries page_count entries chain (ready ++ (freed ∷ [])) next in
    if leb freed 1 || leb page_count freed
    then record { result = err bad_freelist; chain = chain; ready = ready }
    else rest

-- The loop's body behind `Read`.
abbrev pub after_read :
    ℕ → ℕ → List ℕ → List ℕ → (ℕ → List ℕ → List ℕ → ListRead) → Result Error DiskPage → ListRead
after_read page_count id chain ready next (err e) = record {
  result = err e;
  chain = chain;
  ready = ready;
}
after_read page_count id chain ready next (ok page) =
    let longer = chain ++ (id ∷ []) in
    if not (page.kind == kind_free)
    then record { result = err bad_freelist; chain = chain; ready = ready }
    else if ltb free_per_page (length page.list.entries)
    then record { result = err bad_freelist; chain = longer; ready = ready }
    else add_entries page_count page.list.entries longer ready (next page.list.next longer)

-- The loop of `readFreelist`, from a page on.
unfoldable pub read_list : ℕ → Disk → ℕ → ℕ → ℕ → List ℕ → List ℕ → ListRead
read_list zero d reserved page_count id chain ready = record {
  result = err stuck;
  chain = chain;
  ready = ready;
}
read_list (suc fuel) d reserved page_count id chain ready =
    let more =
      after_read page_count id chain ready (read_list fuel d reserved page_count) (d.page_at id) in
    if id == 0
    then record { result = ok tt; chain = chain; ready = ready }
    else if ltb id reserved || leb page_count id || ltb page_count (length chain)
    then record { result = err bad_freelist; chain = chain; ready = ready }
    else more

-- A chain of one page more than the file has is refused, and one round sees the end.
unfoldable pub read_freelist : Disk → Pager → Result Error (Unit {0}) × Pager
read_freelist d p =
    let r =
      read_list (suc (suc (suc p.meta.page_count))) d p.reserved p.meta.page_count p.meta.freelist
        [] [] in
    (r.result, record p { ready = r.ready; pending = []; freeing = []; seen = []; chain = r.chain })

-- `errors.Is(err, ErrNotSapedb) || errors.Is(err, ErrFormat)`
unfoldable pub is_foreign : Error → Bool
is_foreign not_sapedb = true
is_foreign bad_format = true
is_foreign e = false

-- The newer of the two meta pages, and the place of the other.
unfoldable pub newer_meta : Result Error Meta → Result Error Meta → Result Error (Meta × ℕ)
newer_meta (err e) (err f) = if is_foreign e then err e else err no_meta
newer_meta (ok first) (err f) = ok (first, 1)
newer_meta (err e) (ok second) = ok (second, 0)
newer_meta (ok first) (ok second) =
    if ltb first.tx_id second.tx_id
      || (second.tx_id == first.tx_id && second.clean && not first.clean)
    then ok (second, 0)
    else ok (first, 1)

-- `loadMeta` behind the choice, and `Rollback` behind `loadMeta`.
abbrev pub after_choice : Pager → Result Error (Meta × ℕ) → Result Error Pager
after_choice p (err e) = err e
after_choice p (ok (meta, next)) =
    ok (record p { meta = meta; next_meta = next; committed = meta.page_count })

unfoldable pub load_meta : Disk → Pager → Result Error Pager
load_meta d p = after_choice p (newer_meta (d.meta_at 0) (d.meta_at 1))

abbrev pub after_load : Disk → Pager → Result Error Pager → Result Error (Unit {0}) × Pager
after_load d p (err e) = (err e, p)
after_load d p (ok q) = read_freelist d (record q { taken = [] })

unfoldable pub rollback : Disk → Pager → Result Error (Unit {0}) × Pager
rollback d p = after_load d p (load_meta d p)

-- `OpenWith`, of a file that has no key.
unfoldable pub open_with : Disk → ℕ → Result Error Pager
open_with d max_pages =
    let empty : Meta = record {
      tx_id = 0;
      root = 0;
      freelist = 0;
      page_count = 0;
      clean = false;
    } in
    elim (load_meta d (new_pager max_pages empty 2 false)) [
      | err e ↦ err e
      | ok p ↦ let (r, q) = read_freelist d p in elim r [ err e ↦ err e | ok done ↦ ok q ]
    ]

-- The calls that `Close` makes before it closes the file.
unfoldable pub close : Outcomes → Pager → List FileCall
close o p =
    if not p.is_led && not p.meta.clean
    then (if o.meta_write
        then meta_page p.next_meta (record p.meta { clean = true }) ∷ sync ∷ []
        else meta_page p.next_meta (record p.meta { clean = true }) ∷ [])
    else []

-- What a led file's leader keeps for it.
pub record Led : Type 0 where
  pub root : ℕ
  pub freelist : ℕ
  pub page_count : ℕ

-- `Flush` behind `writeFreelist`.
abbrev pub after_led_list :
    Outcomes
    → ℕ
    → Result Error (List ℕ)
    → Pager
    → List FileCall
    → Result Error Led × Pager × List FileCall
after_led_list o root (err e) q calls = (err e, q, calls)
after_led_list o root (ok ids) q calls =
    let done : Pager = record q {
      meta = record q.meta { tx_id = q.meta.tx_id + 1; root = root; freelist = head_or_zero ids };
      committed = q.meta.page_count;
      chain = ids;
      seen = [];
      taken = [];
    } in
    let at : Led = record {
      root = root;
      freelist = head_or_zero ids;
      page_count = q.meta.page_count;
    } in
    if o.data_sync
    then (ok at, done, calls ++ (sync ∷ []))
    else (err file_error, q, calls ++ (sync ∷ []))

unfoldable pub flush : Outcomes → Pager → ℕ → Result Error Led × Pager × List FileCall
flush o p root =
    let (r, q, calls) = write_freelist o (prepare p) in
    let finished = after_led_list o root r q calls in
    if p.is_led then finished else (err not_led, p, [])

unfoldable pub abandon : Disk → Pager → Led → Result Error (Unit {0}) × Pager
abandon d p at =
    let page_count = if ltb at.page_count 1 then 1 else at.page_count in
    let back : Pager = record p {
      meta = record p.meta { root = at.root; freelist = at.freelist; page_count = page_count };
      committed = page_count;
      taken = [];
    } in
    if p.is_led then read_freelist d back else (err not_led, p)
