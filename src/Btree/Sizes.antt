-- ===== src/Btree/Sizes.antt =====
-- Sizes of nodes as sums, and the `prefix` array of the two splits.
use sapedb.Base.{
  ℕ, zero, suc, ◌+◌, ◌-◌, ◌≤◌, ◌<◌, ◌≡◌, List, [], ◌∷◌, length, take, drop, All, arith,
}
use sapedb.Btree.Node.{
  Kv, Branch, entry_bytes, separator_bytes, add_sizes, leaf_bytes, branch_bytes, leaf_header,
  branch_header, prefix_loop, prefix_at,
}
use native.Mathlib.Decide.{dec_lt}

module _ {ℓ} {A : Type ℓ} (size : A → ℕ) where
  -- The sum of the sizes.
  abbrev pub total : List A → ℕ
  total [] = 0
  total (x ∷ xs) = size x + total xs

  pub add_sizes-total : (t : ℕ) (xs : List A) → add_sizes size t xs ≡ t + total xs
  unfolding add_sizes
  add_sizes-total t [] = omega arith
  add_sizes-total t (x ∷ xs) = omega (arith, add_sizes-total (t + size x) xs)

  pub prefix_at-prefix_loop :
      (t : ℕ) (xs : List A) (i : ℕ)
      → i ≤ length xs
      → prefix_at (prefix_loop size t xs) i ≡ t + total (take i xs)
  unfolding prefix_loop prefix_at
  prefix_at-prefix_loop t [] zero h = omega arith
  prefix_at-prefix_loop t [] (suc i) h = absurd (omega arith)
  prefix_at-prefix_loop t (x ∷ xs) zero h = omega arith
  prefix_at-prefix_loop t (x ∷ xs) (suc i) h =
      omega (arith, prefix_at-prefix_loop (t + size x) xs i (omega arith))

  pub total-take-drop : (i : ℕ) (xs : List A) → total (take i xs) + total (drop i xs) ≡ total xs
  total-take-drop zero xs = omega arith
  total-take-drop (suc i) [] = omega arith
  total-take-drop (suc i) (x ∷ xs) = omega (arith, total-take-drop i xs)

  pub total-take_all : (xs : List A) → total (take (length xs) xs) ≡ total xs
  total-take_all [] = omega arith
  total-take_all (x ∷ xs) = omega (arith, total-take_all xs)

  -- A list whose sum passes `b` has a place where a front part is within `b` and the next element,
  -- at most `m`, takes it past.
  pub crossing :
      (b m : ℕ) (xs : List A)
      → All (λ x. size x ≤ m) xs
      → b < total xs
      → (c : ℕ) × (c < length xs)
        × (total (take c xs) ≤ b)
        × (b < total (take (suc c) xs))
        × (b < total (take c xs) + m)
  crossing b m [] a h = absurd (omega arith)
  crossing b m (x ∷ xs) a h = elim (dec_lt b (size x)) [
    | yes l ↦ (0, omega arith, omega arith, omega arith, omega (arith, a.0))
    | no g ↦
        let (c, p, q, r, s) = crossing (b - size x) m xs a.1 (omega arith) in
        (suc c, omega arith, omega arith, omega arith, omega arith)
  ]

pub leaf_bytes-total : (es : List Kv) → leaf_bytes es ≡ leaf_header + total entry_bytes es
unfolding leaf_bytes
leaf_bytes-total es = add_sizes-total entry_bytes leaf_header es

pub branch_bytes-total :
    (node : Branch) → branch_bytes node ≡ branch_header + total separator_bytes node.keys
unfolding branch_bytes
branch_bytes-total node = add_sizes-total separator_bytes branch_header node.keys
