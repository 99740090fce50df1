-- ===== src/Pager/Snapshots.antt =====
-- Snapshots over the life of a pager: the operations of pager.go and freelist.go as steps, in any
-- order, and what a snapshot that is held may rely on.
use sapedb.Base.{
  ℕ, ◌+◌, ◌<◌, ◌≡◌, refl, ap, inl, inr, List, [], ◌∷◌, leb, ◌==◌, if◌then◌else◌, arith, Bool-cases,
  All,
}
use sapedb.Base.Ids.{count, has}
use sapedb.Pager.Freelist.{
  Pager, Snapshot, free, allocate, snapshot, release, readers_at, set_readers, delete_readers,
}
use sapedb.Pager.Counts.{count_pending, held}
use sapedb.Pager.Accounts.{Accounts}
use sapedb.Pager.Guard.{Guarded, Spares, Waits}
use sapedb.Pager.Commit.{Outcomes, commit}
use sapedb.Pager.CommitGuard.{Held, Leaves, allocate-Held, free-Held, commit-Spared}

abbrev pub Numbered : List (ℕ × ℕ) → Type 0
Numbered m = All (λ e. 0 < e.0) m

set_readers-Numbered :
    (m : List (ℕ × ℕ)) (t n : ℕ) → 0 < t → Numbered m → Numbered (set_readers m t n)
unfolding set_readers
set_readers-Numbered [] t n h k = (h, tt)
set_readers-Numbered ((j, i) ∷ m) t n h (k, ks) = elim (Bool-cases (j == t)) [
  | inl e ↦ rw e (k, ks)
  | inr e ↦ rw e (k, set_readers-Numbered m t n h ks)
]

delete_readers-Numbered : (m : List (ℕ × ℕ)) (t : ℕ) → Numbered m → Numbered (delete_readers m t)
unfolding delete_readers
delete_readers-Numbered [] t k = tt
delete_readers-Numbered ((j, i) ∷ m) t (k, ks) = elim (Bool-cases (j == t)) [
  | inl e ↦ rw e ks
  | inr e ↦ rw e (k, delete_readers-Numbered m t ks)
]

readers_at-set_readers :
    (m : List (ℕ × ℕ)) (t n s : ℕ)
    → readers_at (set_readers m t n) s ≡ (if t == s then n else readers_at m s)
unfolding readers_at set_readers
readers_at-set_readers [] t n s = ground arith
readers_at-set_readers ((j, i) ∷ m) t n s = ground (arith, readers_at-set_readers m t n s)

positive : (s : ℕ) (m : List (ℕ × ℕ)) → 0 < readers_at m s → Numbered m → 0 < s
unfolding readers_at
positive s [] h k = absurd (omega arith)
positive s ((j, n) ∷ m) h (k, ks) = elim (Bool-cases (j == s)) [
  | inl e ↦ ground arith
  | inr e ↦ positive s m (rw e at h) ks
]

with_readers :
    (s a : ℕ) (p : Pager) (m : List (ℕ × ℕ))
    → Guarded s a p
    → 0 < readers_at m s
    → Numbered m
    → Held s a (record p { readers = m })
with_readers s a p m g h k = (
  record {
    below = g.below;
    counted = g.counted;
    fresh = g.fresh;
    unready = g.unready;
    waits = g.waits;
    past = g.past;
    pinned = inl h;
    numbered = k;
  },
  h,
)

snapshot-Held : (s a : ℕ) (p : Pager) → Held s a p → Held s a (snapshot p).0
unfolding snapshot
snapshot-Held s a p (g, h) =
    let now = p.meta.tx_id in
    let n = readers_at p.readers now + 1 in
    with_readers s a p (set_readers p.readers now n) g
      (ground (arith, readers_at-set_readers p.readers now n s, h))
      (set_readers-Numbered p.readers now n
        (omega (arith, positive s p.readers h g.numbered, g.past)) g.numbered)

release-Held :
    (s a : ℕ) (p : Pager) (r : Snapshot)
    → Held s a p
    → 0 < r.tx_id
    → 0 < readers_at (release p r).readers s
    → Held s a (release p r)
unfolding release
release-Held s a p r (g, h) some_tx kept =
    elim (Bool-cases (leb (readers_at p.readers r.tx_id) 1)) [
      | inl e ↦ rw e (
          with_readers s a p _ g (rw e at kept)
            (delete_readers-Numbered p.readers r.tx_id g.numbered))
      | inr e ↦ rw e (
          with_readers s a p _ g (rw e at kept)
            (set_readers-Numbered p.readers r.tx_id _ some_tx g.numbered))
    ]

-- One call of the pager while a snapshot of transaction `s` is held: its release is no step.
pub data Step (s : ℕ) : Pager → Pager → Type 0 where
  allocated : (p : Pager) → Step s p (allocate p).1
  freed : (p : Pager) (id : ℕ) → Step s p (free p id)
  snapped : (p : Pager) → Step s p (snapshot p).0
  released :
      (p : Pager) (r : Snapshot)
      → 0 < r.tx_id
      → 0 < readers_at (release p r).readers s
      → Step s p (release p r)
  committed : (o : Outcomes) (p : Pager) (root : ℕ) → Step s p (commit o p root).1

pub data Run (s : ℕ) : Pager → Pager → Type 0 where
  here : {p : Pager} → Run s p p
  next : {p q r : Pager} → Step s p q → Run s q r → Run s p r

Step-Held : (s a : ℕ) {p q : Pager} → Step s p q → Held s a p → Held s a q
Step-Held s a (allocated p) h = (allocate-Held s a p h).1
Step-Held s a (freed p id) h = free-Held s a p id h
Step-Held s a (snapped p) h = snapshot-Held s a p h
Step-Held s a (released p r t k) h = release-Held s a p r h t k
Step-Held s a (committed o p root) h = (commit-Spared o s a p root h).0

pub Run-Held : (s a : ℕ) {p q : Pager} → Run s p q → Held s a p → Held s a q
Run-Held s a here h = h
Run-Held s a (next step run) h = Run-Held s a run (Step-Held s a step h)

-- No page of a transaction's lists is `a`, so none that waits is.
pub Waits-count : (s a : ℕ) (m : List (ℕ × List ℕ)) → count_pending a m ≡ 0 → Waits s a m
Waits-count s a [] h = tt
Waits-count s a ((t, ids) ∷ m) h = (λ k. omega arith, Waits-count s a m (omega arith))

-- Between two transactions, what the accounts say is in use is guarded by a snapshot taken then.
pub snapshot-Guarded :
    (p : Pager) (used : List ℕ) (a : ℕ)
    → Accounts p used
    → 0 < count a used
    → p.taken ≡ []
    → p.committed ≡ p.meta.page_count
    → 0 < p.meta.tx_id
    → Numbered p.readers
    → Held p.meta.tx_id a (snapshot p).0
unfolding snapshot
snapshot-Guarded p used a h u clean full some_tx k =
    let now = p.meta.tx_id in
    let n = readers_at p.readers now + 1 in
    let absent : held p a ≡ 0 = ground (arith, h.each a) in
    let inside : a < p.meta.page_count = ground (arith, h.each a) in
    with_readers now a p (set_readers p.readers now n)
      (record {
        below = omega (arith, inside, full);
        counted = omega (arith, full);
        fresh = ap (has a) clean;
        unready = omega (arith, absent);
        waits = Waits-count now a p.pending (omega (arith, absent));
        past = omega arith;
        pinned = inr refl;
        numbered = k;
      })
      (ground (arith, readers_at-set_readers p.readers now n now))
      (set_readers-Numbered p.readers now n some_tx k)

-- A snapshot taken between two transactions keeps its pages. As long as it is held, after whatever
-- allocations, frees, snapshots, releases and commits, those that fail included, a page in use at
-- the time is not handed out, and no commit writes over it.
pub snapshot_safe :
    (p q : Pager) (used : List ℕ) (a : ℕ) (o : Outcomes) (root : ℕ)
    → Accounts p used
    → 0 < count a used
    → p.taken ≡ []
    → p.committed ≡ p.meta.page_count
    → 0 < p.meta.tx_id
    → Numbered p.readers
    → Run p.meta.tx_id (snapshot p).0 q
    → Spares a (allocate q).0 × All (Leaves a) (commit o q root).2
snapshot_safe p q used a o root h u clean full some_tx k run =
    let at_end = Run-Held p.meta.tx_id a run (snapshot-Guarded p used a h u clean full some_tx k) in
    ((allocate-Held p.meta.tx_id a q at_end).0, (commit-Spared o p.meta.tx_id a q root at_end).1)
