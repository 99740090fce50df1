-- ===== src/Btree/Cuts.antt =====
-- The loop that both splits share keeps the most even cut of those that fit.
use sapedb.Base.{
  ℕ, zero, suc, ◌+◌, ◌≤◌, ◌<◌, ◌≡◌, refl, true, false, ◌||◌, ◌⊎◌, inl, inr, Option, none, some,
  arith, ltb, ltb→lt, ltb→le, Bool-cases,
}
use sapedb.Btree.Node.{capacity_bytes, skew_of, better, cut_loop, chosen}
use native.Mathlib.Decide.{dec_lt}
use native.Mathlib.Nat.{add-zero}

module _ (left right : ℕ → ℕ) (lo : ℕ) where
  abbrev pub Fits : ℕ → Type 0
  Fits c = (left c ≤ capacity_bytes) × (right c ≤ capacity_bytes)

  abbrev pub skew : ℕ → ℕ
  skew c = skew_of (left c) (right c)

  -- Of the cuts of [lo, hi) the best so far is one that fits and is the most even, or none fits.
  abbrev IsBest : ℕ → Option (ℕ × ℕ) → Type 0
  IsBest hi none = (c : ℕ) → lo ≤ c → c < hi → ¬ Fits c
  IsBest hi (some (b, s)) =
      (lo ≤ b)
      × (b < hi)
      × Fits b
      × (s ≡ skew b)
      × ((c : ℕ) → lo ≤ c → c < hi → Fits c → s ≤ skew c)

  at_or_below : (c hi : ℕ) → c < suc hi → (c < hi) ⊎ (c ≡ hi)
  at_or_below c hi h = elim (dec_lt c hi) [ yes l ↦ inl l | no g ↦ inr (omega arith) ]

  Fits-test :
      (c : ℕ) → (ltb capacity_bytes (left c) || ltb capacity_bytes (right c)) ≡ false → Fits c
  Fits-test c h = ground arith

  fails_test :
      (c : ℕ) → (ltb capacity_bytes (left c) || ltb capacity_bytes (right c)) ≡ true → ¬ Fits c
  fails_test c h f = ground arith

  none_below :
      (hi c : ℕ)
      → ¬ Fits hi
      → ((c : ℕ) → lo ≤ c → c < hi → ¬ Fits c)
      → lo ≤ c
      → c < suc hi
      → ¬ Fits c
  none_below hi c f h l u = elim (at_or_below c hi u) [ inl p ↦ h c l p | inr e ↦ rw e f ]

  least_below :
      (hi c s : ℕ)
      → (Fits hi → s ≤ skew hi)
      → ((c : ℕ) → lo ≤ c → c < hi → Fits c → s ≤ skew c)
      → lo ≤ c
      → c < suc hi
      → Fits c
      → s ≤ skew c
  least_below hi c s f h l u k = elim (at_or_below c hi u) [
    | inl p ↦ h c l p k
    | inr e ↦ rw e (f (rw e at k))
  ]

  better-IsBest :
      (hi : ℕ) (best : Option (ℕ × ℕ))
      → lo ≤ hi
      → IsBest hi best
      → IsBest (suc hi) (better hi (left hi) (right hi) best)
  unfolding better
  better-IsBest hi none l h =
      elim (Bool-cases (ltb capacity_bytes (left hi) || ltb capacity_bytes (right hi))) [
        | inl p ↦ rw p (λ c. none_below hi c (fails_test hi p) h)
        | inr p ↦ rw p (
          l,
          omega arith,
          Fits-test hi p,
          refl,
          λ c. least_below hi c (skew hi) (λ _. omega arith) (λ d ld ud fd. absurd (h d ld ud fd)),
        )
      ]
  better-IsBest hi (some (b, s)) l (lb, ub, fb, eb, h) =
      elim (Bool-cases (ltb capacity_bytes (left hi) || ltb capacity_bytes (right hi))) [
        | inl p ↦
            rw p
              (lb, omega arith, fb, eb, λ c. least_below hi c s (λ f. absurd (fails_test hi p f)) h)
        | inr p ↦ elim (Bool-cases (ltb (skew hi) s)) [
          | inl q ↦
              rw (p, q)
                (
                  l,
                  omega arith,
                  Fits-test hi p,
                  refl,
                  λ c.
                      least_below hi c (skew hi) (λ _. omega arith)
                        (λ d ld ud fd. omega (arith, ltb→lt _ _ q, h d ld ud fd)),
                )
          | inr q ↦
              rw (p, q) (lb, omega arith, fb, eb, λ c. least_below hi c s (λ f. ltb→le _ _ q) h)
        ]
      ]

  cut_loop-IsBest :
      (rounds hi : ℕ) (best : Option (ℕ × ℕ))
      → lo ≤ hi
      → IsBest hi best
      → IsBest (hi + rounds) (cut_loop left right rounds hi best)
  unfolding cut_loop
  cut_loop-IsBest zero hi best l h = rw add-zero h
  cut_loop-IsBest (suc rounds) hi best l h = rw (move hi rounds) (
      cut_loop-IsBest rounds (suc hi) (better hi (left hi) (right hi) best) (omega arith)
        (better-IsBest hi best l h))
    where
      move : (hi rounds : ℕ) → hi + suc rounds ≡ suc hi + rounds
      move hi rounds = omega arith

  -- What the loop says of the cuts of [lo, hi) when it ends.
  abbrev pub Chosen : ℕ → Option ℕ → Type 0
  Chosen hi none = (c : ℕ) → lo ≤ c → c < hi → ¬ Fits c
  Chosen hi (some b) =
      (lo ≤ b) × (b < hi) × Fits b × ((c : ℕ) → lo ≤ c → c < hi → Fits c → skew b ≤ skew c)

  chosen-Chosen : (hi : ℕ) (r : Option (ℕ × ℕ)) → IsBest hi r → Chosen hi (chosen r)
  unfolding chosen
  chosen-Chosen hi none h = h
  chosen-Chosen hi (some (b, s)) (l, u, f, e, h) =
      (l, u, f, λ c lc uc fc. omega (arith, e, h c lc uc fc))

  pub cut_loop-Chosen :
      (rounds : ℕ) → Chosen (lo + rounds) (chosen (cut_loop left right rounds lo none))
  cut_loop-Chosen rounds =
      chosen-Chosen (lo + rounds) (cut_loop left right rounds lo none)
        (cut_loop-IsBest rounds lo none (omega arith) (λ c l u. absurd (omega arith)))
