-- ===== src/Btree/Even.antt =====
-- `splitBranch` of internal/btree/node.go leaves separators on both sides of the one it takes.
use sapedb.Base.{
  ℕ, zero, suc, ◌+◌, ◌-◌, ◌*◌, ◌≤◌, ◌<◌, ◌≡◌, sym, ap, ◌∙◌, ◌==◌, false, List, [], ◌∷◌, length,
  take, All, arith, some, Bool-cases, inl, inr,
}
use sapedb.Btree.Node.{
  Branch, capacity_bytes, branch_header, max_key, separator_bytes, branch_bytes, skew_of,
}
use sapedb.Btree.Sizes.{total, branch_bytes-total, total-take-drop, total-take_all}
use sapedb.Btree.SplitBranch.{BranchCutFits, IsBestBranchCut, left_branch, right_branch}

-- What the separators at the front take: one more takes 12 to 524 bytes more.
total-step :
    (ks : List (List ℕ)) (c : ℕ)
    → All (λ k. length k ≤ max_key) ks
    → c < length ks
    → (12 ≤ total separator_bytes (take (suc c) ks) - total separator_bytes (take c ks))
      × (total separator_bytes (take (suc c) ks) ≤ total separator_bytes (take c ks) + 524)
      × (total separator_bytes (take c ks) + 12 ≤ total separator_bytes (take (suc c) ks))
unfolding separator_bytes
total-step [] c h l = absurd (omega arith)
total-step (k ∷ ks) zero h l = (omega arith, omega arith, omega arith)
total-step (k ∷ ks) (suc c) h l =
    let r = total-step ks c h.1 (omega arith) in
    (omega (arith, r.0), omega (arith, r.1), omega (arith, r.2))

total-limit :
    (ks : List (List ℕ))
    → All (λ k. length k ≤ max_key) ks
    → total separator_bytes ks ≤ 524 * length ks
unfolding separator_bytes
total-limit [] h = omega arith
total-limit (k ∷ ks) h = omega (arith, h.0, total-limit ks h.1)

skew_up : (l r : ℕ) → l ≤ r → skew_of l r ≡ r - l
unfolding skew_of
skew_up l r h = ground arith

skew_down : (l r : ℕ) → r ≤ l → skew_of l r ≡ l - r
unfolding skew_of
skew_down l r h = ground arith

next_place : (c : ℕ) → suc c ≡ c + 1
next_place c = omega arith

module _ (node : Branch) (short : All (λ k. length k ≤ max_key) node.keys)
    (over : capacity_bytes < branch_bytes node) where
  abbrev front : ℕ → ℕ
  front c = total separator_bytes (take c node.keys)

  sum : branch_header + total separator_bytes node.keys ≡ branch_bytes node
  sum = sym (branch_bytes-total node)

  many : 7 < length node.keys
  many = omega (arith, sum, total-limit node.keys short)

  left_size : (c : ℕ) → branch_bytes (left_branch node c) ≡ branch_header + front c
  left_size c = branch_bytes-total (left_branch node c)

  right_size : (c : ℕ) → branch_bytes (right_branch node c) + front (suc c) ≡ branch_bytes node
  right_size c = omega (
    arith,
    branch_bytes-total (right_branch node c),
    total-take-drop separator_bytes (c + 1) node.keys,
    sum,
    ap (λ (i : ℕ). total separator_bytes (take i node.keys)) (next_place c),
  )

  -- The first separator is not taken: the second is a more even one.
  not_first : IsBestBranchCut node (some 0) → 0 < 0
  not_first (f, best) =
      let a = total-step node.keys 0 short (omega (arith, many)) in
      let b = total-step node.keys 1 short (omega (arith, many)) in
      let fits : BranchCutFits node 1 = (
        omega (arith, many),
        omega (arith, left_size 1, a.1),
        omega (arith, right_size 0, right_size 1, f.2, b.2),
      ) in
      omega (
        arith,
        best 1 fits,
        left_size 0,
        left_size 1,
        right_size 0,
        right_size 1,
        a.1,
        a.2,
        b.1,
        b.2,
        over,
        skew_up (branch_bytes (left_branch node 0)) (branch_bytes (right_branch node 0))
            (omega (arith, left_size 0, right_size 0, a.1, over)),
        skew_up (branch_bytes (left_branch node 1)) (branch_bytes (right_branch node 1))
            (omega (arith, left_size 1, right_size 1, a.1, b.1, over)),
      )

  not_last : (c : ℕ) → suc (suc c) ≡ length node.keys → IsBestBranchCut node (some (suc c)) → 0 < 0
  not_last c last (f, best) =
      let a = total-step node.keys c short (omega arith) in
      let b = total-step node.keys (suc c) short (omega arith) in
      let whole : front (suc (suc c)) ≡ total separator_bytes node.keys =
        ap (λ (i : ℕ). total separator_bytes (take i node.keys)) last
        ∙ total-take_all separator_bytes node.keys in
      let fits : BranchCutFits node c = (
        omega arith,
        omega (arith, left_size c, left_size (suc c), f.1, a.2),
        omega (arith, right_size c, whole, sum, b.1),
      ) in
      omega (
        arith,
        best c fits,
        left_size c,
        left_size (suc c),
        right_size c,
        right_size (suc c),
        a.1,
        a.2,
        b.1,
        b.2,
        over,
        whole,
        sum,
        skew_down (branch_bytes (left_branch node (suc c)))
            (branch_bytes (right_branch node (suc c)))
            (omega (arith, left_size (suc c), right_size (suc c), whole, sum)),
        skew_down (branch_bytes (left_branch node c)) (branch_bytes (right_branch node c))
            (omega (arith, left_size c, right_size c, a.1, b.1, whole, sum, over)),
      )

  -- Both halves of a node that is cut have a separator.
  pub split_even : (c : ℕ) → IsBestBranchCut node (some c) → (0 < c) × (suc c < length node.keys)
  split_even zero best = absurd (none_such (not_first best))
    where
      none_such : ¬ (0 < 0)
      none_such z = omega arith
  split_even (suc c) best = elim (Bool-cases (suc (suc c) == length node.keys)) [
    | inl p ↦ absurd (none_such (not_last c (ground arith) best))
    | inr p ↦ (omega arith, inside best.0 p)
  ]
    where
      none_such : ¬ (0 < 0)
      none_such z = omega arith

      inside :
          BranchCutFits node (suc c)
          → (suc (suc c) == length node.keys) ≡ false
          → suc (suc c) < length node.keys
      inside f q = ground (arith, f.0)
