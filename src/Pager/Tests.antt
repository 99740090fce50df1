-- ===== src/Pager/Tests.antt =====
-- Runs of the pager, and its theorems at concrete inputs.
use sapedb.Base.{
  ℕ, ◌<◌, ◌≡◌, refl, true, false, List, [], ◌∷◌, ◌++◌, if◌then◌else◌, err, ok, arith, ◌==◌, Result,
}
use sapedb.Pager.Freelist.{
  Error, no_meta, out_of_range, bad_freelist, Meta, Pager, create, create_led, new_pager, free,
  allocate, promote, hand_out, grow, dirty, free_count, total_pending, append_pending, transactions,
  insert_sorted, pending_at, readers_at, promote_loop, promote_one,
}
use sapedb.Pager.Accounts.{
  Accounts, Answered, create-Accounts, create_led-Accounts, free-Accounts, allocate-Answered,
}
use sapedb.Pager.Commit.{
  Outcomes, FileCall, list_page, meta_page, sync, commit, write_freelist, write_pages, list_pages,
  list_entries, pending_entries, finish_commit, next_meta_of, prepare, roll, free_all, take_pages,
  needed_pages,
}
use sapedb.Pager.CommitAccounts.{commit-Accounts}
use sapedb.Pager.Reading.{Disk, DiskPage, Led, read_list, rollback, flush, abandon, newer_meta}
use sapedb.Pager.ReadBack.{Ended, read_list_total}
use sapedb.Pager.FlushAccounts.{Flushed, flush-Flushed}
use sapedb.Pager.Reopen.{Reopened, commit-Reopened}
use sapedb.Pager.Settles.{Went, write_freelist_total}
use sapedb.Pager.Rollback.{rollback_forgets}
use sapedb.Pager.LedList.{abandon_refuses}

abbrev pub all_well : Outcomes
all_well = record { write = λ id. true; data_sync = true; meta_write = true; meta_sync = true }

-- A file with one page in use.
abbrev pub grown : Pager
grown = (allocate (create 9)).1

pub grown-Accounts : Accounts grown (2 ∷ [])
unfolding allocate promote hand_out grow create new_pager
grown-Accounts = (allocate-Answered (create 9) [] (create-Accounts 9)).2

allocate-Answered_example : Answered grown (2 ∷ []) (allocate grown).0 (allocate grown).1
allocate-Answered_example = allocate-Answered grown (2 ∷ []) grown-Accounts

pub commit_runs : (commit all_well grown 2).0 ≡ ok tt
unfolding allocate promote hand_out grow create new_pager commit write_freelist write_pages
    list_pages list_entries pending_entries finish_commit next_meta_of prepare roll free_all
    take_pages needed_pages free_count total_pending transactions
commit_runs = refl

commit-Accounts_example :
    Accounts (commit all_well grown 2).1 ((commit all_well grown 2).1.chain ++ (2 ∷ []))
unfolding allocate promote hand_out grow create new_pager
commit-Accounts_example = commit-Accounts all_well grown 2 (2 ∷ []) grown-Accounts commit_runs

-- Its first commit.
abbrev pub second : Pager
second = (commit all_well grown 2).1

pub second-Accounts : Accounts second (second.chain ++ (2 ∷ []))
unfolding allocate promote hand_out grow create new_pager
second-Accounts = commit-Accounts all_well grown 2 (2 ∷ []) grown-Accounts commit_runs

write_freelist_total_example : Went (write_freelist all_well (free grown 2)).0
write_freelist_total_example = write_freelist_total all_well (free grown 2)

-- A file that answers every page as a list page that goes on at page 7.
abbrev endless : Disk
endless = record {
  meta_at = λ id. err no_meta;
  page_at = λ id. ok (record { kind = 4; list = record { next = 7; entries = [] } });
}

read_list_total_example : Ended (read_list 12 endless 2 9 7 [] [])
read_list_total_example =
    read_list_total 12 endless 2 9 7 [] [] (λ a h. cc h) (omega arith) (omega arith)

-- A second transaction replaces page 2 by page 3; its list goes to page 4.
abbrev replaced : Pager
replaced = free (allocate (commit all_well grown 2).1).1 2

abbrev file_of : List FileCall → ℕ → Result Error DiskPage
file_of [] id = err out_of_range
file_of (list_page j page ∷ calls) id =
    if j == id then ok (record { kind = 4; list = page }) else file_of calls id
file_of (meta_page j meta ∷ calls) id = file_of calls id
file_of (sync ∷ calls) id = file_of calls id

abbrev file_after : Disk
file_after = record {
  meta_at = λ id. err no_meta;
  page_at = file_of (commit all_well replaced 3).2;
}

replaced-Accounts : Accounts replaced (replaced.chain ++ (3 ∷ []))
unfolding allocate promote hand_out grow create new_pager commit write_freelist write_pages
    list_pages list_entries pending_entries finish_commit next_meta_of prepare roll free_all
    take_pages needed_pages free_count total_pending transactions free dirty
replaced-Accounts =
    free-Accounts (allocate-Answered second (2 ∷ []) second-Accounts).2 2 (omega arith)

commit-Reopened_example : Reopened file_after (commit all_well replaced 3).1 (3 ∷ [])
unfolding allocate promote hand_out grow create new_pager commit write_freelist write_pages
    list_pages list_entries pending_entries finish_commit next_meta_of prepare roll free_all
    take_pages needed_pages free_count total_pending transactions free dirty append_pending
    insert_sorted pending_at promote_loop promote_one
commit-Reopened_example =
    commit-Reopened all_well file_after replaced 3 (3 ∷ []) replaced-Accounts refl
      (λ t. omega arith) refl (refl, (tt, (tt, (tt, tt))))

-- A file at its third transaction, which freed page 2, and a snapshot of the second.
abbrev third : Meta
third = record { tx_id = 3; root = 3; freelist = 4; page_count = 5; clean = false }

abbrev file_third : Disk
file_third = record {
  meta_at = λ id. ok third;
  page_at = λ id. ok (record { kind = 4; list = record { next = 0; entries = (3, 2) ∷ [] } });
}

abbrev watched : Pager
watched = record (create 9) { readers = (2, 1) ∷ [] }

rollback_forgets_example :
    (0 < readers_at (rollback file_third watched).1.readers 2)
    × ((allocate (rollback file_third watched).1).0 ≡ ok 2)
unfolding create new_pager list_pages readers_at newer_meta
rollback_forgets_example =
    rollback_forgets file_third watched third 1 refl (4 ∷ []) [] 3 2 2 refl
      ((omega arith, omega arith, omega arith), tt) (omega arith) (omega arith)
      ((omega arith, omega arith), tt) (refl, tt) (omega arith) (omega arith)

flush-Flushed_example :
    Flushed
      (1 ∷ [])
      1
      (flush all_well (allocate (create_led 9)).1 1).0
      (flush all_well (allocate (create_led 9)).1 1).1
unfolding allocate promote hand_out grow create_led new_pager
flush-Flushed_example =
    flush-Flushed all_well (allocate (create_led 9)).1 1 (1 ∷ [])
      (allocate-Answered (create_led 9) [] (create_led-Accounts 9)).2

-- A led file whose second flush replaced page 1 by page 2, with its list on page 3.
abbrev led_once : Pager
led_once = (flush all_well (allocate (create_led 9)).1 1).1

abbrev led_twice : Result Error Led × Pager × List FileCall
led_twice = flush all_well (free (allocate led_once).1 1) 2

abbrev led_at : Led
led_at = record { root = 2; freelist = 3; page_count = 4 }

abbrev led_file : Disk
led_file = record { meta_at = λ id. err no_meta; page_at = file_of led_twice.2 }

led_twice_runs : led_twice.0 ≡ ok led_at
unfolding allocate promote hand_out grow create_led new_pager flush write_freelist write_pages
    list_pages list_entries pending_entries prepare roll free_all take_pages needed_pages free_count
    total_pending transactions free dirty append_pending insert_sorted pending_at promote_loop
    promote_one
led_twice_runs = refl

abandon_refuses_example : (abandon led_file led_twice.1 led_at).0 ≡ err bad_freelist
unfolding allocate promote hand_out grow create_led new_pager flush write_freelist write_pages
    list_pages list_entries pending_entries prepare roll free_all take_pages needed_pages free_count
    total_pending transactions free dirty append_pending insert_sorted pending_at promote_loop
    promote_one
abandon_refuses_example =
    abandon_refuses led_file led_twice.1 led_at (3 ∷ []) ((3, 1) ∷ []) refl refl (omega arith)
      ((omega arith, omega arith, omega arith), tt) (omega arith) (omega arith) (refl, tt) refl
