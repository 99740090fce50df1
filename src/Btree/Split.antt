-- ===== src/Btree/Split.antt =====
-- `splitLeaf`: which cut it takes, and when there is one.
use sapedb.Base.{
  ℕ, zero, suc, ◌+◌, ◌-◌, ◌≤◌, ◌<◌, ◌≡◌, refl, Option, none, some, List, [], ◌∷◌, length, take,
  drop, All, arith,
}
use mathlib.Core.Path.{ap₂}
use sapedb.Btree.Node.{
  max_key, max_inline, inline_bytes, Kv, capacity_bytes, leaf_header, entry_bytes, leaf_bytes,
  skew_of, prefix_loop, prefix_at, split_leaf,
}
use sapedb.Btree.Sizes.{
  total, prefix_at-prefix_loop, total-take-drop, total-take_all, crossing, leaf_bytes-total,
}
use sapedb.Btree.Cuts.{Fits, skew, Chosen, cut_loop-Chosen}

-- Both sides of a cut fit a page.
abbrev pub CutFits : List Kv → ℕ → Type 0
CutFits es c =
    (1 ≤ c)
    × (c < length es)
    × (leaf_bytes (take c es) ≤ capacity_bytes)
    × (leaf_bytes (drop c es) ≤ capacity_bytes)

abbrev pub cut_skew : List Kv → ℕ → ℕ
cut_skew es c = skew_of (leaf_bytes (take c es)) (leaf_bytes (drop c es))

module _ (es : List Kv) where
  abbrev left : ℕ → ℕ
  left c = leaf_header + prefix_at (prefix_loop entry_bytes 0 es) c

  abbrev right : ℕ → ℕ
  right c =
      leaf_header
      + prefix_at (prefix_loop entry_bytes 0 es) (length es)
      - prefix_at (prefix_loop entry_bytes 0 es) c

  left-take : (c : ℕ) → c ≤ length es → left c ≡ leaf_bytes (take c es)
  left-take c h =
      omega (arith, prefix_at-prefix_loop entry_bytes 0 es c h, leaf_bytes-total (take c es))

  right-drop : (c : ℕ) → c ≤ length es → right c ≡ leaf_bytes (drop c es)
  right-drop c h = omega (
    arith,
    prefix_at-prefix_loop entry_bytes 0 es c h,
    prefix_at-prefix_loop entry_bytes 0 es (length es) (omega arith),
    leaf_bytes-total (drop c es),
    total-take-drop entry_bytes c es,
    total-take-drop entry_bytes (length es) es,
    total-take_all entry_bytes es,
  )

  -- What `splitLeaf` answers: a cut that fits, or that none does.
  abbrev pub IsBestCut : Option ℕ → Type 0
  IsBestCut none = (c : ℕ) → ¬ CutFits es c
  IsBestCut (some b) = CutFits es b × ((c : ℕ) → CutFits es c → cut_skew es b ≤ cut_skew es c)

  Fits-CutFits : (c : ℕ) → 1 ≤ c → c < length es → Fits left right 1 c → CutFits es c
  Fits-CutFits c l u f =
      let p = left-take c (omega arith) in
      let q = right-drop c (omega arith) in (l, u, rw p at (f.0), rw q at (f.1))

  CutFits-Fits : (c : ℕ) → CutFits es c → Fits left right 1 c
  CutFits-Fits c (l, u, f, g) =
      (rw (left-take c (omega arith)) f, rw (right-drop c (omega arith)) g)

  skew-cut_skew : (c : ℕ) → c ≤ length es → skew left right 1 c ≡ cut_skew es c
  skew-cut_skew c h = ap₂ skew_of (left-take c h) (right-drop c h)

  Chosen-IsBestCut : (r : Option ℕ) → Chosen left right 1 (1 + (length es - 1)) r → IsBestCut r
  Chosen-IsBestCut none h = λ c f. h c f.0 (omega arith) (CutFits-Fits c f)
  Chosen-IsBestCut (some b) (l, u, f, h) = (
    Fits-CutFits b l (omega arith) f,
    λ c k. omega (
      arith,
      h c k.0 (omega arith) (CutFits-Fits c k),
      skew-cut_skew b (omega arith),
      skew-cut_skew c (omega arith),
    ),
  )

  -- `splitLeaf` answers a cut whose two sides fit a page each, none being more even, if there is
  -- such a cut; it answers false exactly when there is none.
  pub split_leaf_best : IsBestCut (split_leaf es)
  unfolding split_leaf
  split_leaf_best = Chosen-IsBestCut _ (cut_loop-Chosen left right 1 (length es - 1))

-- An entry within the limits of `Put` takes half a page at most.
entry_limit : (e : Kv) → length e.key ≤ max_key → inline_bytes e ≤ max_inline → entry_bytes e ≤ 2024
unfolding entry_bytes
entry_limit e h k = omega arith

a_cut :
    (es : List Kv)
    → All (λ e. entry_bytes e ≤ 2024) es
    → capacity_bytes < leaf_bytes es
    → leaf_bytes es ≤ 6071
    → (c : ℕ) × CutFits es c
a_cut es a over under =
    let (c, u, p, q, r) =
      crossing entry_bytes 4046 2024 es a (omega (arith, leaf_bytes-total es)) in
    (
      c,
      (
        at_least c r,
        u,
        omega (arith, leaf_bytes-total (take c es)),
        omega (
          arith,
          leaf_bytes-total (drop c es),
          total-take-drop entry_bytes c es,
          leaf_bytes-total es,
        ),
      ),
    )
  where
    at_least : (c : ℕ) → 4046 < total entry_bytes (take c es) + 2024 → 1 ≤ c
    at_least zero r = absurd (omega arith)
    at_least (suc c) r = omega arith

cut_found :
    (es : List Kv) (r : Option ℕ)
    → IsBestCut es r
    → (c : ℕ) × CutFits es c
    → (c : ℕ) × (r ≡ some c) × CutFits es c
cut_found es none h (c, f) = absurd (h c f)
cut_found es (some b) h _ = (b, refl, h.0)

entries_limit :
    (es : List Kv)
    → All (λ e. (length e.key ≤ max_key) × (inline_bytes e ≤ max_inline)) es
    → All (λ e. entry_bytes e ≤ 2024) es
entries_limit [] a = tt
entries_limit (e ∷ es) (h, a) = (entry_limit e h.0 h.1, entries_limit es a)

-- An overflowing leaf whose entries keep the limits that `Put` sets is cut in two that fit, if it
-- takes at most 6071 bytes: one byte less than a full leaf and the largest entry take together.
pub split_leaf_total :
    (es : List Kv)
    → All (λ e. (length e.key ≤ max_key) × (inline_bytes e ≤ max_inline)) es
    → capacity_bytes < leaf_bytes es
    → leaf_bytes es ≤ 6071
    → (c : ℕ) × (split_leaf es ≡ some c) × CutFits es c
split_leaf_total es a over under =
    cut_found es (split_leaf es) (split_leaf_best es) (a_cut es (entries_limit es a) over under)

module _ (a b c : Kv) (ha : entry_bytes a ≡ 2023) (hb : entry_bytes b ≡ 2024)
    (hc : entry_bytes c ≡ 2023) where
  no_cut : (i : ℕ) → ¬ CutFits (a ∷ b ∷ c ∷ []) i
  no_cut zero (l, u, f, g) = omega arith
  no_cut (suc zero) (l, u, f, g) = omega (arith, leaf_bytes-total (b ∷ c ∷ []))
  no_cut (suc (suc zero)) (l, u, f, g) = omega (arith, leaf_bytes-total (a ∷ b ∷ []))
  no_cut (suc (suc (suc i))) (l, u, f, g) = omega arith

  none_found : (r : Option ℕ) → IsBestCut (a ∷ b ∷ c ∷ []) r → r ≡ none
  none_found none h = refl
  none_found (some i) h = absurd (no_cut i h.0)

  -- Two entries of 2023 bytes fill a leaf exactly. With an entry of the largest size, 2024 bytes,
  -- put between them the leaf overflows and `splitLeaf` finds no cut.
  pub split_leaf_stuck :
      (leaf_bytes (a ∷ c ∷ []) ≡ capacity_bytes)
      × (capacity_bytes < leaf_bytes (a ∷ b ∷ c ∷ []))
      × (split_leaf (a ∷ b ∷ c ∷ []) ≡ none)
  split_leaf_stuck = (
    omega (arith, leaf_bytes-total (a ∷ c ∷ [])),
    omega (arith, leaf_bytes-total (a ∷ b ∷ c ∷ [])),
    none_found (split_leaf (a ∷ b ∷ c ∷ [])) (split_leaf_best (a ∷ b ∷ c ∷ [])),
  )
