-- ===== src/Pager/Transaction.antt =====
-- One transaction of internal/pager: calls of Allocate and Free in any order, and the pages of the
-- last commit.
use sapedb.Base.{ℕ, ◌<◌, ◌≡◌, refl, ap, false, inr, List, [], arith}
use sapedb.Base.Ids.{count, has}
use sapedb.Pager.Freelist.{Pager, allocate, free, dirty}
use sapedb.Pager.Counts.{held}
use sapedb.Pager.Accounts.{Accounts}
use sapedb.Pager.Guard.{Guarded, Spares, allocate-Guarded, free-Guarded}
use sapedb.Pager.Snapshots.{Numbered, Waits-count}

pub data Work : Pager → Pager → Type 0 where
  idle : {p : Pager} → Work p p
  allocating : {p q : Pager} → Work (allocate p).1 q → Work p q
  freeing_page : {p q : Pager} (id : ℕ) → Work (free p id) q → Work p q

Work-Guarded : (s a : ℕ) {p q : Pager} → Work p q → Guarded s a p → Guarded s a q
Work-Guarded s a idle g = g
Work-Guarded s a (allocating {p} work) g = Work-Guarded s a work (allocate-Guarded s a p g).1
Work-Guarded s a (freeing_page {p} id work) g = Work-Guarded s a work (free-Guarded s a p id g)

committed-Guarded :
    (p : Pager) (used : List ℕ) (a : ℕ)
    → Accounts p used
    → 0 < count a used
    → p.taken ≡ []
    → p.committed ≡ p.meta.page_count
    → Numbered p.readers
    → Guarded p.meta.tx_id a p
committed-Guarded p used a h u clean full k =
    let absent : held p a ≡ 0 = ground (arith, h.each a) in
    let inside : a < p.meta.page_count = ground (arith, h.each a) in
    record {
      below = omega (arith, inside, full);
      counted = omega (arith, full);
      fresh = ap (has a) clean;
      unready = omega (arith, absent);
      waits = Waits-count p.meta.tx_id a p.pending (omega (arith, absent));
      past = omega arith;
      pinned = inr refl;
      numbered = k;
    }

-- Throughout a transaction, whatever it allocates and frees, a page that the last commit has in use
-- is not handed out, and not dirty, so that it is not written again in place: a crash finds it as
-- it was.
pub transaction_safe :
    (p q : Pager) (used : List ℕ) (a : ℕ)
    → Accounts p used
    → 0 < count a used
    → p.taken ≡ []
    → p.committed ≡ p.meta.page_count
    → Numbered p.readers
    → Work p q
    → Spares a (allocate q).0 × (dirty q a ≡ false)
unfolding dirty
transaction_safe p q used a h u clean full k work =
    let g = Work-Guarded p.meta.tx_id a work (committed-Guarded p used a h u clean full k) in
    ((allocate-Guarded p.meta.tx_id a q g).0, ground (arith, g.below, g.fresh))
