-- ===== src/Pager/FlushAccounts.antt =====
-- `Flush` of internal/pager/led.go, and the accounts of a led file.
use sapedb.Base.{
  ℕ, ◌≡◌, refl, Bool, true, false, inl, inr, List, [], ◌++◌, if◌then◌else◌, Result, ok, err,
  Bool-cases,
}
use sapedb.Pager.Freelist.{Error, not_led, Pager}
use sapedb.Pager.Accounts.{Accounts}
use sapedb.Pager.Commit.{Outcomes, FileCall, write_freelist, prepare, head_or_zero}
use sapedb.Pager.CommitAccounts.{Taken, write_freelist-Taken, prepare-Accounts}
use sapedb.Pager.Reading.{Led, after_led_list, flush}

-- What a flush leaves when it answers: the accounts, and the leader's record of the file.
abbrev pub Flushed : List ℕ → ℕ → Result Error Led → Pager → Type 0
Flushed tree root (err e) p = Unit
Flushed tree root (ok at) p =
    Accounts p (p.chain ++ tree)
    × (at.root ≡ root)
    × (at.freelist ≡ head_or_zero p.chain)
    × (at.page_count ≡ p.meta.page_count)

after_led_list-Flushed :
    (o : Outcomes) (tree : List ℕ) (root : ℕ) (r : Result Error (List ℕ)) (q : Pager)
    (calls : List FileCall)
    → Taken tree r q
    → Flushed tree root (after_led_list o root r q calls).0 (after_led_list o root r q calls).1
after_led_list-Flushed o tree root (err e) q calls h = tt
after_led_list-Flushed o tree root (ok ids) q calls h = elim (Bool-cases o.data_sync) [
  | inl e ↦ rw e (record { each = h.each; marked = λ a m. cc m; sized = h.sized }, refl, refl, refl)
  | inr e ↦ rw e tt
]

either_Flushed :
    (tree : List ℕ) (root : ℕ) (b : Bool) (x y : Result Error Led × Pager × List FileCall)
    → Flushed tree root x.0 x.1
    → Flushed tree root y.0 y.1
    → Flushed tree root (if b then x else y).0 (if b then x else y).1
either_Flushed tree root true x y h k = h
either_Flushed tree root false x y h k = k

-- A flush that answers keeps the accounts, with the new list in the place of the old, and what it
-- answers is the file's state: its root, the head of the list, and its pages.
pub flush-Flushed :
    (o : Outcomes) (p : Pager) (root : ℕ) (tree : List ℕ)
    → Accounts p (p.chain ++ tree)
    → Flushed tree root (flush o p root).0 (flush o p root).1
unfolding flush
flush-Flushed o p root tree h =
    either_Flushed tree root p.is_led _ (err not_led, p, [])
      (after_led_list-Flushed o tree root (write_freelist o (prepare p)).0 _ _
        (write_freelist-Taken o (prepare p) tree (prepare-Accounts p tree h)))
      tt
