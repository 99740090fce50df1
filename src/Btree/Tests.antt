-- ===== src/Btree/Tests.antt =====
-- Runs of the node code, and the theorems at concrete inputs.
use sapedb.Base.{
  ℕ, zero, suc, ◌+◌, ◌≤◌, ◌<◌, ◌≡◌, refl, ap, ◌⊎◌, true, false, none, some, List, [], ◌∷◌, length,
  if◌then◌else◌, err, arith,
}
use sapedb.Base.Bytes.{lex}
use sapedb.Base.Lex.{key_lt, key_eq}
use sapedb.Base.Search.{search, search_loop}
use sapedb.Btree.Node.{
  Kv, Branch, capacity_bytes, entry_bytes, inline_bytes, overflows, leaf_bytes, branch_bytes,
  separator_bytes, find_key, key_at, child_for, separator_at, check_key, empty_key, split_leaf,
  split_branch,
}
use sapedb.Btree.Sorted.{IsSorted, keys_of}
use sapedb.Btree.Sizes.{leaf_bytes-total, branch_bytes-total}
use sapedb.Btree.Leaf.{remove_entry, get_entry}
use sapedb.Btree.LeafMap.{get_entry-remove_entry}
use sapedb.Btree.Split.{CutFits, IsBestCut, split_leaf_best, split_leaf_total, split_leaf_stuck}
use sapedb.Btree.SplitBranch.{BranchCutFits, IsBestBranchCut, split_branch_best, split_branch_total}

abbrev entry : ℕ → ℕ → Kv
entry k v = record { key = k ∷ []; value = v ∷ []; head = 0; length = 0 }

abbrev three : List Kv
three = entry 2 20 ∷ entry 4 40 ∷ entry 6 60 ∷ []

three-IsSorted : IsSorted (keys_of three)
unfolding key_lt lex
three-IsSorted = ((refl, (refl, tt)), ((refl, tt), (tt, tt)))

found_four : find_key three (4 ∷ []) ≡ (1, true)
unfolding find_key search search_loop key_at key_lt key_eq lex
found_four = refl

missing_five : find_key three (5 ∷ []) ≡ (2, false)
unfolding find_key search search_loop key_at key_lt key_eq lex
missing_five = refl

child_of_four : child_for ((2 ∷ []) ∷ (4 ∷ []) ∷ []) (4 ∷ []) ≡ 2
unfolding child_for search search_loop separator_at key_lt lex
child_of_four = refl

no_key : check_key [] ≡ err empty_key
unfolding check_key
no_key = refl

-- A list of `n` bytes.
fill : ℕ → List ℕ
fill zero = []
fill (suc n) = 7 ∷ fill n

length-fill : (n : ℕ) → length (fill n) ≡ n
unfolding fill
length-fill zero = refl
length-fill (suc n) = ap suc (length-fill n)

abbrev sized : ℕ → ℕ → Kv
sized k v = record { key = fill k; value = fill v; head = 0; length = 0 }

inline_bytes-sized : (k v : ℕ) → inline_bytes (sized k v) ≡ v
unfolding inline_bytes overflows
inline_bytes-sized k v = length-fill v

entry_bytes-sized : (k v : ℕ) → entry_bytes (sized k v) ≡ 8 + k + v
unfolding entry_bytes
entry_bytes-sized k v = omega (arith, inline_bytes-sized k v, length-fill k)

get_entry-remove_entry_example :
    ((remove_entry three (4 ∷ []) ≡ none) × (get_entry three (4 ∷ []) ≡ none))
    ⊎ ((rest : List Kv) × (remove_entry three (4 ∷ []) ≡ some rest)
        × ((e : Kv) × (get_entry three (4 ∷ []) ≡ some e))
        × IsSorted (keys_of rest)
        × ((key : List ℕ)
            → get_entry rest key ≡ (if key_eq (4 ∷ []) key then none else get_entry three key)))
get_entry-remove_entry_example = get_entry-remove_entry three three-IsSorted (4 ∷ [])

split_leaf_best_example : IsBestCut three (split_leaf three)
split_leaf_best_example = split_leaf_best three

abbrev full : List Kv
full = sized 512 1480 ∷ sized 512 1480 ∷ sized 512 1480 ∷ []

full_bytes : leaf_bytes full ≡ 6002
full_bytes = omega (arith, leaf_bytes-total full, entry_bytes-sized 512 1480)

split_leaf_total_example : (c : ℕ) × (split_leaf full ≡ some c) × CutFits full c
split_leaf_total_example =
    split_leaf_total full (limits, (limits, (limits, tt))) (omega (arith, full_bytes))
      (omega (arith, full_bytes))
  where
    limits : (length (fill 512) ≤ 512) × (inline_bytes (sized 512 1480) ≤ 1504)
    limits = (omega (arith, length-fill 512), omega (arith, inline_bytes-sized 512 1480))

split_leaf_stuck_example :
    (leaf_bytes (sized 512 1503 ∷ sized 512 1503 ∷ []) ≡ capacity_bytes)
    × (capacity_bytes < leaf_bytes (sized 512 1503 ∷ sized 512 1504 ∷ sized 512 1503 ∷ []))
    × (split_leaf (sized 512 1503 ∷ sized 512 1504 ∷ sized 512 1503 ∷ []) ≡ none)
split_leaf_stuck_example =
    split_leaf_stuck (sized 512 1503) (sized 512 1504) (sized 512 1503) (entry_bytes-sized 512 1503)
      (entry_bytes-sized 512 1504) (entry_bytes-sized 512 1503)

abbrev wide : Branch
wide = record {
  keys = fill 512 ∷ fill 512 ∷ fill 512 ∷ fill 512 ∷ fill 512 ∷ fill 512 ∷ fill 512 ∷ fill 512 ∷ [];
  children = 2 ∷ 3 ∷ 4 ∷ 5 ∷ 6 ∷ 7 ∷ 8 ∷ 9 ∷ 10 ∷ [];
}

wide_bytes : branch_bytes wide ≡ 4202
unfolding separator_bytes
wide_bytes = omega (arith, branch_bytes-total wide, length-fill 512)

split_branch_best_example : IsBestBranchCut wide (split_branch wide)
split_branch_best_example = split_branch_best wide

split_branch_total_example : (c : ℕ) × (split_branch wide ≡ some c) × BranchCutFits wide c
split_branch_total_example =
    split_branch_total wide (l, (l, (l, (l, (l, (l, (l, (l, tt)))))))) (omega (arith, wide_bytes))
      (omega (arith, wide_bytes))
  where
    l : length (fill 512) ≤ 512
    l = omega (arith, length-fill 512)
