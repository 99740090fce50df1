-- ===== src/Btree/SplitBranch.antt =====
-- `splitBranch`: which separator it hands to the parent, and that there is one.
use mathlib.Core.Path.{ap₂}
use native.Mathlib.Numerals.{add-one}
use sapedb.Base.{
  ℕ, ◌+◌, ◌-◌, ◌≤◌, ◌<◌, ◌≡◌, refl, ap, Option, none, some, List, [], ◌∷◌, length, take, drop, All,
  arith,
}
use sapedb.Btree.Node.{
  Branch, capacity_bytes, branch_header, max_key, separator_bytes, branch_bytes, skew_of,
  prefix_loop, prefix_at, split_branch,
}
use sapedb.Btree.Sizes.{
  total, prefix_at-prefix_loop, total-take-drop, total-take_all, crossing, branch_bytes-total,
}
use sapedb.Btree.Cuts.{Fits, skew, Chosen, cut_loop-Chosen}

-- The branches on the two sides of a cut, without the separator at the cut.
abbrev pub left_branch : Branch → ℕ → Branch
left_branch node c = record { keys = take c node.keys; children = take (c + 1) node.children }

abbrev pub right_branch : Branch → ℕ → Branch
right_branch node c = record {
  keys = drop (c + 1) node.keys;
  children = drop (c + 1) node.children;
}

abbrev pub BranchCutFits : Branch → ℕ → Type 0
BranchCutFits node c =
    (c < length node.keys)
    × (branch_bytes (left_branch node c) ≤ capacity_bytes)
    × (branch_bytes (right_branch node c) ≤ capacity_bytes)

abbrev pub branch_skew : Branch → ℕ → ℕ
branch_skew node c =
    skew_of (branch_bytes (left_branch node c)) (branch_bytes (right_branch node c))

module _ (node : Branch) where
  abbrev left : ℕ → ℕ
  left c = branch_header + prefix_at (prefix_loop separator_bytes 0 node.keys) c

  abbrev right : ℕ → ℕ
  right c =
      branch_header
      + prefix_at (prefix_loop separator_bytes 0 node.keys) (length node.keys)
      - prefix_at (prefix_loop separator_bytes 0 node.keys) (c + 1)

  left-take : (c : ℕ) → c ≤ length node.keys → left c ≡ branch_bytes (left_branch node c)
  left-take c h = omega (
    arith,
    prefix_at-prefix_loop separator_bytes 0 node.keys c h,
    branch_bytes-total (left_branch node c),
  )

  right-drop : (c : ℕ) → c < length node.keys → right c ≡ branch_bytes (right_branch node c)
  right-drop c h = omega (
    arith,
    prefix_at-prefix_loop separator_bytes 0 node.keys (c + 1) (omega arith),
    prefix_at-prefix_loop separator_bytes 0 node.keys (length node.keys) (omega arith),
    branch_bytes-total (right_branch node c),
    total-take-drop separator_bytes (c + 1) node.keys,
    total-take_all separator_bytes node.keys,
  )

  -- What `splitBranch` answers: a cut that fits, or that none does.
  abbrev pub IsBestBranchCut : Option ℕ → Type 0
  IsBestBranchCut none = (c : ℕ) → ¬ BranchCutFits node c
  IsBestBranchCut (some b) =
      BranchCutFits node b
      × ((c : ℕ) → BranchCutFits node c → branch_skew node b ≤ branch_skew node c)

  Fits-BranchCutFits : (c : ℕ) → c < length node.keys → Fits left right 0 c → BranchCutFits node c
  Fits-BranchCutFits c u f =
      (u, rw (left-take c (omega arith)) at (f.0), rw (right-drop c u) at (f.1))

  BranchCutFits-Fits : (c : ℕ) → BranchCutFits node c → Fits left right 0 c
  BranchCutFits-Fits c (u, f, g) = (rw (left-take c (omega arith)) f, rw (right-drop c u) g)

  skew-branch_skew : (c : ℕ) → c < length node.keys → skew left right 0 c ≡ branch_skew node c
  skew-branch_skew c h = ap₂ skew_of (left-take c (omega arith)) (right-drop c h)

  Chosen-IsBestBranchCut :
      (r : Option ℕ) → Chosen left right 0 (0 + length node.keys) r → IsBestBranchCut r
  Chosen-IsBestBranchCut none h = λ c f. h c (omega arith) (omega arith) (BranchCutFits-Fits c f)
  Chosen-IsBestBranchCut (some b) (l, u, f, h) = (
    Fits-BranchCutFits b (omega arith) f,
    λ c k. omega (
      arith,
      h c (omega arith) (omega arith) (BranchCutFits-Fits c k),
      skew-branch_skew b (omega arith),
      skew-branch_skew c k.0,
    ),
  )

  -- `splitBranch` answers a cut whose two sides fit a page each without the separator at the cut,
  -- none being more even, if there is such a cut; it answers false exactly when there is none.
  pub split_branch_best : IsBestBranchCut (split_branch node)
  unfolding split_branch
  split_branch_best = Chosen-IsBestBranchCut _ (cut_loop-Chosen left right 0 (length node.keys))

separators_limit :
    (ks : List (List ℕ)) → All (λ k. length k ≤ max_key) ks → All (λ k. separator_bytes k ≤ 524) ks
unfolding separator_bytes
separators_limit [] a = tt
separators_limit (k ∷ ks) (h, a) = (omega arith, separators_limit ks a)

a_branch_cut :
    (node : Branch)
    → All (λ k. separator_bytes k ≤ 524) node.keys
    → capacity_bytes < branch_bytes node
    → branch_bytes node ≤ 8087
    → (c : ℕ) × BranchCutFits node c
a_branch_cut node a over under =
    let t = branch_bytes-total node in
    let (c, u, p, q, r) = crossing separator_bytes 4038 524 node.keys a (omega arith) in
    (
      c,
      (
        u,
        omega (arith, branch_bytes-total (left_branch node c)),
        omega (
          arith,
          branch_bytes-total (right_branch node c),
          total-take-drop separator_bytes (c + 1) node.keys,
          ap (λ (i : ℕ). total separator_bytes (take i node.keys)) (add-one c),
        ),
      ),
    )

branch_cut_found :
    (node : Branch) (r : Option ℕ)
    → IsBestBranchCut node r
    → (c : ℕ) × BranchCutFits node c
    → (c : ℕ) × (r ≡ some c) × BranchCutFits node c
branch_cut_found node none h (c, f) = absurd (h c f)
branch_cut_found node (some b) h _ = (b, refl, h.0)

-- An overflowing branch whose keys keep the limit is always cut in two that fit, if it takes at
-- most 8087 bytes. An insertion takes one separator past a full page, and two neighbours that are
-- poured together take less than a page and a quarter and a separator.
pub split_branch_total :
    (node : Branch)
    → All (λ k. length k ≤ max_key) node.keys
    → capacity_bytes < branch_bytes node
    → branch_bytes node ≤ 8087
    → (c : ℕ) × (split_branch node ≡ some c) × BranchCutFits node c
split_branch_total node a over under =
    branch_cut_found node (split_branch node) (split_branch_best node)
      (a_branch_cut node (separators_limit node.keys a) over under)
