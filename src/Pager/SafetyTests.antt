-- ===== src/Pager/SafetyTests.antt =====
-- The theorems on snapshots and crashes at concrete inputs.
use sapedb.Base.{
  ℕ, ◌≡◌, ◌<◌, ◌-◌, ok, refl, true, false, [], ◌∷◌, if◌then◌else◌, err, arith, ◌==◌, All,
}
use sapedb.Pager.Freelist.{
  dirty, no_meta, Meta, Pager, create, new_pager, free, allocate, promote, hand_out, grow,
  free_count, total_pending, transactions, snapshot,
}
use sapedb.Pager.Guard.{Spares}
use sapedb.Pager.Commit.{
  commit, write_freelist, write_pages, list_pages, list_entries, pending_entries, finish_commit,
  next_meta_of, prepare, roll, free_all, take_pages, needed_pages,
}
use sapedb.Pager.CommitGuard.{Leaves}
use sapedb.Pager.Snapshots.{freed, here, next, snapshot_safe}
use sapedb.Pager.Reading.{Disk, newer_meta, close}
use sapedb.Pager.Crash.{EveryCrash, choice, replay}
use sapedb.Pager.CommitOnce.{OldOrNew, commit_once}
use sapedb.Base.Ids.{count}
use sapedb.Pager.Counts.{held}
use sapedb.Pager.Closing.{Opened, close-choice, close_leaks}
use sapedb.Pager.Transaction.{idle, allocating, freeing_page, transaction_safe}
use sapedb.Pager.Tests.{all_well, second, second-Accounts}

-- The second transaction replaces page 2 while a snapshot of the first commit is held.
abbrev replacing : Pager
replacing = free (snapshot second).0 2

snapshot_safe_example :
    Spares 2 (allocate replacing).0 × All (Leaves 2) (commit all_well replacing 3).2
unfolding allocate promote hand_out grow create new_pager commit write_freelist write_pages
    list_pages list_entries pending_entries finish_commit next_meta_of prepare roll free_all
    take_pages needed_pages free_count total_pending transactions
snapshot_safe_example =
    snapshot_safe second replacing (2 ∷ []) 2 all_well 3 second-Accounts (omega arith) refl refl
      (omega arith) tt (next (freed (snapshot second).0 2) here)

-- The file behind it: the meta page of the commit in place 0, that of the creation in place 1.
abbrev meta_of : ℕ → ℕ → Meta
meta_of tx_id page_count = record {
  tx_id = tx_id;
  root = 0;
  freelist = 0;
  page_count = page_count;
  clean = false;
}

abbrev file_second : Disk
file_second = record {
  meta_at = λ slot. if slot == 0 then ok second.meta else ok (meta_of 1 2);
  page_at = λ id. err no_meta;
}

commit_once_example :
    EveryCrash (OldOrNew all_well file_second second 3) file_second [] (commit all_well second 3).2
unfolding allocate promote hand_out grow create new_pager commit write_freelist write_pages
    list_pages list_entries pending_entries finish_commit next_meta_of prepare roll free_all
    take_pages needed_pages free_count total_pending transactions newer_meta
commit_once_example = commit_once all_well file_second second 3 second.meta (omega arith) refl refl

second-Opened : Opened file_second second
unfolding allocate promote hand_out grow create new_pager commit write_freelist write_pages
    list_pages list_entries pending_entries finish_commit next_meta_of prepare roll free_all
    take_pages needed_pages free_count total_pending transactions newer_meta
second-Opened = record {
  old = second.meta;
  low = omega arith;
  chosen = refl;
  same = refl;
  unmarked = refl;
}

close-choice_example :
    choice (replay file_second (close all_well second))
    ≡ ok (record second.meta { clean = true }, 1 - second.next_meta)
unfolding allocate promote hand_out grow create new_pager commit write_freelist write_pages
    list_pages list_entries pending_entries finish_commit next_meta_of prepare roll free_all
    take_pages needed_pages free_count total_pending transactions newer_meta
close-choice_example = close-choice all_well file_second second second-Opened refl refl

longer-Opened : Opened file_second (allocate second).1
unfolding allocate promote hand_out grow create new_pager commit write_freelist write_pages
    list_pages list_entries pending_entries finish_commit next_meta_of prepare roll free_all
    take_pages needed_pages free_count total_pending transactions newer_meta
longer-Opened = record {
  old = second.meta;
  low = omega arith;
  chosen = refl;
  same = refl;
  unmarked = refl;
}

close_leaks_example :
    (m : Meta) × (choice (replay file_second (close all_well (allocate second).1))
      ≡ ok (m, 1 - (allocate second).1.next_meta))
    × (3 < m.page_count)
    × (count 3 (2 ∷ []) ≡ 0)
    × (held second 3 ≡ 0)
unfolding allocate promote hand_out grow create new_pager commit write_freelist write_pages
    list_pages list_entries pending_entries finish_commit next_meta_of prepare roll free_all
    take_pages needed_pages free_count total_pending transactions newer_meta
close_leaks_example =
    close_leaks all_well file_second second (2 ∷ []) 3 second-Accounts refl (omega arith)
      longer-Opened refl refl

-- A transaction that takes a page and gives up page 2.
abbrev working : Pager
working = free (allocate second).1 2

transaction_safe_example : Spares 2 (allocate working).0 × (dirty working 2 ≡ false)
unfolding allocate promote hand_out grow create new_pager commit write_freelist write_pages
    list_pages list_entries pending_entries finish_commit next_meta_of prepare roll free_all
    take_pages needed_pages free_count total_pending transactions
transaction_safe_example =
    transaction_safe second working (2 ∷ []) 2 second-Accounts (omega arith) refl refl tt
      (allocating (freeing_page 2 idle))
