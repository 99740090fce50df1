-- ===== src/Pager/Guard.antt =====
-- Pages that a transaction left and a snapshot or a crash may still need: what the lists of
-- internal/pager look like for one, under Allocate and Free.
use sapedb.Base.{
  ℕ, ◌≤◌, ◌<◌, ◌≡◌, refl, sym, ap, ◌∙◌, true, false, not, ◌&&◌, ◌||◌, ◌⊎◌, inl, inr, List, [], ◌∷◌,
  length, ltb, leb, ◌==◌, if◌then◌else◌, arith, Bool-cases, Result, ok, err, All, ==_iff,
}
use sapedb.Base.Ids.{count, has, count-append}
use sapedb.Pager.Freelist.{
  Error, Pager, free, dirty, allocate, promote, promote_one, promote_loop, hand_out, grow, reuse,
  transactions, oldest_held, oldest_loop, readers_at, pending_at, delete_pending, append_pending,
  last_of,
}
use sapedb.Pager.Counts.{count-but_last}

-- No page that a transaction up to `s` freed is `a`.
abbrev pub Waits : ℕ → ℕ → List (ℕ × List ℕ) → Type 0
Waits s a m = All (λ e. e.0 ≤ s → count a e.1 ≡ 0) m

-- Page `a` belongs to what transaction `s` left, and either a snapshot of it is held or it is the
-- last that was committed.
pub record Guarded (s a : ℕ) (p : Pager) : Type 0 where
  pub below : a < p.committed
  pub counted : p.committed ≤ p.meta.page_count
  pub fresh : has a p.taken ≡ false
  pub unready : count a p.ready ≡ 0
  pub waits : Waits s a p.pending
  pub past : s ≤ p.meta.tx_id
  pub pinned : (0 < readers_at p.readers s) ⊎ (s ≡ p.meta.tx_id)
  pub numbered : All (λ e. 0 < e.0) p.readers

oldest_loop_le :
    (o : ℕ) (m : List (ℕ × ℕ))
    → 0 < o
    → All (λ e. 0 < e.0) m
    → (0 < oldest_loop o m) × (oldest_loop o m ≤ o)
unfolding oldest_loop
oldest_loop_le o [] h k = (h, omega arith)
oldest_loop_le o ((t, n) ∷ m) h (k, ks) =
    let next = if o == 0 || ltb t o then t else o in
    let small : (0 < next) × (next ≤ o) = ground arith in
    let (pos, low) = oldest_loop_le next m small.0 ks in (pos, omega (arith, low, small.1))

oldest_loop-readers_at :
    (o s : ℕ) (m : List (ℕ × ℕ))
    → 0 < readers_at m s
    → All (λ e. 0 < e.0) m
    → (0 < oldest_loop o m) × (oldest_loop o m ≤ s)
unfolding oldest_loop readers_at
oldest_loop-readers_at o s [] h k = absurd (omega arith)
oldest_loop-readers_at o s ((t, n) ∷ m) h (k, ks) = elim (Bool-cases (t == s)) [
  | inl e ↦
      let next = if o == 0 || ltb t o then t else o in
      let small : (0 < next) × (next ≤ s) = ground arith in
      let (pos, low) = oldest_loop_le next m small.0 ks in (pos, omega (arith, low, small.1))
  | inr e ↦ oldest_loop-readers_at (if o == 0 || ltb t o then t else o) s m (rw e at h) ks
]

Waits-pending_at :
    (s a t : ℕ) (m : List (ℕ × List ℕ)) → t ≤ s → Waits s a m → count a (pending_at m t) ≡ 0
unfolding pending_at
Waits-pending_at s a t [] h w = refl
Waits-pending_at s a t ((j, ids) ∷ m) h (w, ws) = elim (Bool-cases (j == t)) [
  | inl e ↦ rw e (w (ground arith))
  | inr e ↦ rw e (Waits-pending_at s a t m h ws)
]

delete_pending-Waits :
    (s a t : ℕ) (m : List (ℕ × List ℕ)) → Waits s a m → Waits s a (delete_pending m t)
unfolding delete_pending
delete_pending-Waits s a t [] w = tt
delete_pending-Waits s a t ((j, ids) ∷ m) (w, ws) = elim (Bool-cases (j == t)) [
  | inl e ↦ rw e ws
  | inr e ↦ rw e (w, delete_pending-Waits s a t m ws)
]

pub append_pending-Waits :
    (s a t : ℕ) (ids : List ℕ) (m : List (ℕ × List ℕ))
    → s < t
    → Waits s a m
    → Waits s a (append_pending m t ids)
unfolding append_pending
append_pending-Waits s a t ids [] h w = (λ k. absurd (omega arith), tt)
append_pending-Waits s a t ids ((j, js) ∷ m) h (w, ws) = elim (Bool-cases (j == t)) [
  | inl e ↦ rw e (λ k. absurd (ground arith), ws)
  | inr e ↦ rw e (w, append_pending-Waits s a t ids m h ws)
]

-- A transaction that is promoted is not later than one that is held or the last.
abbrev Due : ℕ → ℕ → Pager → Type 0
Due s oldest p = (s ≡ p.meta.tx_id) ⊎ ((0 < oldest) × (oldest ≤ s))

promote_one-Guarded :
    (s a oldest : ℕ) (p : Pager) (t : ℕ)
    → Due s oldest p
    → Guarded s a p
    → Guarded s a (promote_one oldest p t)
unfolding promote_one
promote_one-Guarded s a oldest p t due g = elim (Bool-cases (ltb p.meta.tx_id t)) [
  | inl e ↦ rw e g
  | inr e ↦ rw e (elim (Bool-cases (not (oldest == 0) && ltb oldest t)) [
    | inl f ↦ rw f g
    | inr f ↦
        let early : t ≤ s = ground arith in
        rw f (record {
          below = g.below;
          counted = g.counted;
          fresh = g.fresh;
          unready = omega (
            arith,
            g.unready,
            count-append a p.ready (pending_at p.pending t),
            Waits-pending_at s a t p.pending early g.waits,
          );
          waits = delete_pending-Waits s a t p.pending g.waits;
          past = g.past;
          pinned = g.pinned;
          numbered = g.numbered;
        })
  ])
]

promote_one-tx_id : (oldest : ℕ) (p : Pager) (t : ℕ) → (promote_one oldest p t).meta ≡ p.meta
unfolding promote_one
promote_one-tx_id oldest p t = ground arith

promote_loop-Guarded :
    (s a oldest : ℕ) (p : Pager) (ts : List ℕ)
    → Due s oldest p
    → Guarded s a p
    → Guarded s a (promote_loop oldest p ts)
unfolding promote_loop
promote_loop-Guarded s a oldest p [] due g = g
promote_loop-Guarded s a oldest p (t ∷ ts) due g =
    promote_loop-Guarded s a oldest (promote_one oldest p t) ts
      (rw (promote_one-tx_id oldest p t) due) (promote_one-Guarded s a oldest p t due g)

promote-Guarded : (s a : ℕ) (p : Pager) → Guarded s a p → Guarded s a (promote p)
unfolding promote oldest_held
promote-Guarded s a p g = elim (Bool-cases (length p.pending == 0)) [
  | inl e ↦ rw e g
  | inr e ↦ rw e (
      promote_loop-Guarded s a (oldest_loop 0 p.readers) p (transactions p.pending)
        (due_now g.pinned) g)
]
  where
    due_now : (0 < readers_at p.readers s) ⊎ (s ≡ p.meta.tx_id) → Due s (oldest_loop 0 p.readers) p
    due_now (inl held) = inr (oldest_loop-readers_at 0 s p.readers held g.numbered)
    due_now (inr last) = inl last

-- What is handed out is another page.
abbrev pub Spares : ℕ → Result Error ℕ → Type 0
Spares a (ok id) = ¬ (id ≡ a)
Spares a (err e) = Unit

hand_out-Guarded :
    (s a : ℕ) (p : Pager) (l : List ℕ)
    → p.ready ≡ l
    → Guarded s a p
    → Spares a (hand_out p l).0 × Guarded s a (hand_out p l).1
unfolding hand_out grow reuse
hand_out-Guarded s a p [] e g =
    elim (Bool-cases (ltb 0 p.max_pages && leb p.max_pages p.meta.page_count)) [
      | inl full ↦ rw full (tt, g)
      | inr room ↦ rw room (
        λ same. omega (arith, g.below, g.counted),
        record {
          below = g.below;
          counted = omega (arith, g.counted);
          fresh = ground (arith, g.fresh, g.below, g.counted);
          unready = g.unready;
          waits = g.waits;
          past = g.past;
          pinned = g.pinned;
          numbered = g.numbered;
        },
      )
    ]
hand_out-Guarded s a p (x ∷ xs) e g =
    let absent : count a (x ∷ xs) ≡ 0 = ap (count a) (sym e) ∙ g.unready in
    let other : (last_of x xs == a) ≡ false = ground (arith, absent, count-but_last a x xs) in
    (
      λ same. ground arith,
      record {
        below = g.below;
        counted = g.counted;
        fresh = ground (arith, g.fresh);
        unready = omega (arith, absent, count-but_last a x xs);
        waits = g.waits;
        past = g.past;
        pinned = g.pinned;
        numbered = g.numbered;
      },
    )

-- `Allocate` does not hand out a guarded page, and keeps it guarded.
pub allocate-Guarded :
    (s a : ℕ) (p : Pager) → Guarded s a p → Spares a (allocate p).0 × Guarded s a (allocate p).1
unfolding allocate
allocate-Guarded s a p g =
    hand_out-Guarded s a (promote p) (promote p).ready refl (promote-Guarded s a p g)

-- Neither does freeing a page, the guarded one included, make it ready.
pub free-Guarded : (s a : ℕ) (p : Pager) (id : ℕ) → Guarded s a p → Guarded s a (free p id)
unfolding free dirty
free-Guarded s a p id g = elim (Bool-cases (ltb id p.reserved || has id p.seen)) [
  | inl e ↦ rw e g
  | inr e ↦ rw e (elim (Bool-cases (leb p.committed id || has id p.taken)) [
    | inl f ↦
        let other : (id == a) ≡ false = not_guarded f in
        rw f (record {
          below = g.below;
          counted = g.counted;
          fresh = g.fresh;
          unready = ground (arith, g.unready, count-append a p.ready (id ∷ []));
          waits = g.waits;
          past = g.past;
          pinned = g.pinned;
          numbered = g.numbered;
        })
    | inr f ↦ rw f (record {
      below = g.below;
      counted = g.counted;
      fresh = g.fresh;
      unready = g.unready;
      waits = g.waits;
      past = g.past;
      pinned = g.pinned;
      numbered = g.numbered;
    })
  ])
]
  where
    not_guarded : (leb p.committed id || has id p.taken) ≡ true → (id == a) ≡ false
    not_guarded f = elim (Bool-cases (id == a)) [
      | inr n ↦ n
      | inl y ↦
          let same : id ≡ a = (==_iff id a).0 y in
          let f' = rw same at f in absurd (ground (arith, f', g.fresh, g.below))
    ]
