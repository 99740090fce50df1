-- ===== src/Pager/Closing.antt =====
-- `Close`: the mark it leaves, and what it says of a transaction that is not committed.
use sapedb.Base.{ℕ, zero, suc, ◌-◌, ◌≤◌, ◌<◌, ◌≡◌, refl, true, false, List, arith, Result, ok, err}
use sapedb.Base.Ids.{count}
use sapedb.Pager.Freelist.{Error, Meta, Pager, allocate}
use sapedb.Pager.Counts.{held}
use sapedb.Pager.Accounts.{Accounts, Answered, allocate-Answered}
use sapedb.Pager.Commit.{Outcomes, meta_page}
use sapedb.Pager.Reading.{Disk, newer_meta, close}
use sapedb.Pager.Crash.{apply, replay, choice, choice_first, choice_second}

-- A file that holds a pager's last commit in the place it does not write next, not closed since.
pub record Opened (d : Disk) (p : Pager) : Type 0 where
  pub old : Meta
  pub low : p.next_meta ≤ 1
  pub chosen : choice d ≡ ok (old, p.next_meta)
  pub same : old.tx_id ≡ p.meta.tx_id
  pub unmarked : old.clean ≡ false

marked-choice :
    (d : Disk) (old new : Meta) (slot : ℕ)
    → slot ≤ 1
    → choice d ≡ ok (old, slot)
    → old.tx_id ≡ new.tx_id
    → old.clean ≡ false
    → new.clean ≡ true
    → choice (apply d (meta_page slot new)) ≡ ok (new, 1 - slot)
unfolding newer_meta
marked-choice d old new zero h e same plain mark =
    let kept = choice_second (d.meta_at 0) (d.meta_at 1) old e in rw kept (ground arith)
marked-choice d old new (suc zero) h e same plain mark =
    let kept = choice_first (d.meta_at 0) (d.meta_at 1) old e in rw kept (ground arith)
marked-choice d old new (suc (suc n)) h e same plain mark = absurd (omega arith)

-- A file that is closed, its mark being written, is opened next at what the pager had, marked as
-- closed, and the next meta page goes to the other place.
pub close-choice :
    (o : Outcomes) (d : Disk) (p : Pager)
    → Opened d p
    → p.is_led ≡ false
    → p.meta.clean ≡ false
    → choice (replay d (close o p)) ≡ ok (record p.meta { clean = true }, 1 - p.next_meta)
unfolding close
close-choice o d p h own plain =
    let marked =
      marked-choice d h.old (record p.meta { clean = true }) p.next_meta h.low h.chosen h.same
        h.unmarked refl in
    ground (arith, marked, own, plain)

page_in_use :
    (p q : Pager) (used : List ℕ) (id : ℕ) (r : Result Error ℕ)
    → r ≡ ok id
    → Answered p used r q
    → (count id used ≡ 0) × (id < q.meta.page_count)
page_in_use p q used id (err e) same w = cc same
page_in_use p q used id (ok a) same (u, low, h) =
    let one : a ≡ id = cc same in ground (arith, one, h.each id)

-- A file that is closed in the middle of a transaction that made it longer is opened with the new
-- page counted, although nothing uses it and it is on no list.
pub close_leaks :
    (o : Outcomes) (d : Disk) (p : Pager) (used : List ℕ) (id : ℕ)
    → Accounts p used
    → (allocate p).0 ≡ ok id
    → p.meta.page_count ≤ id
    → Opened d (allocate p).1
    → (allocate p).1.is_led ≡ false
    → (allocate p).1.meta.clean ≡ false
    → (next : Meta) × (choice (replay d (close o (allocate p).1))
        ≡ ok (next, 1 - (allocate p).1.next_meta))
      × (id < next.page_count)
      × (count id used ≡ 0)
      × (held p id ≡ 0)
close_leaks o d p used id h answer longer opened own plain =
    let (unused, counted) =
      page_in_use p (allocate p).1 used id (allocate p).0 answer (allocate-Answered p used h) in
    (
      record (allocate p).1.meta { clean = true },
      close-choice o d (allocate p).1 opened own plain,
      counted,
      unused,
      ground (arith, h.each id),
    )
