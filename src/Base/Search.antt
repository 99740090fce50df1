-- ===== src/Base/Search.antt =====
-- `sort.Search` of Go's standard library: the least index of [0, n) at which a test holds, or n.
use Prim.Native.Nat.{ℕ, zero, suc, ◌+◌, ◌-◌, ◌/◌, ◌≤◌, ◌<◌}
use mathlib.Core.Path.{◌≡◌}
use mathlib.Core.Bool.{Bool, true, false}
use mathlib.Core.Logic.{inl, inr}
use native.Mathlib.Omega.{arith}
use native.Mathlib.Decide.{dec_lt}
use sapedb.Base.Tests.{ltb, if◌then◌else◌, Bool-cases, ltb→lt, ltb→le}

-- `for i < j { h := (i+j)/2; if !f(h) { i = h+1 } else { j = h } }`
unfoldable pub search_loop : ℕ → (ℕ → Bool) → ℕ → ℕ → ℕ
search_loop zero f i j = i
search_loop (suc fuel) f i j =
    let h = (i + j) / 2 in
    let right = search_loop fuel f (h + 1) j in
    let left = search_loop fuel f i h in if ltb i j then (if f h then left else right) else i

-- Each round shortens j - i, so n rounds are enough.
unfoldable pub search : ℕ → (ℕ → Bool) → ℕ
search n f = search_loop n f 0 n

-- With every index below `i` failing and every one of [j, n) passing, the loop ends at the place
-- where the answers change, whatever fuel above j - i it has.
module _ (f : ℕ → Bool) (n r : ℕ) (below : (k : ℕ) → k < r → f k ≡ false)
    (above : (k : ℕ) → r ≤ k → k < n → f k ≡ true) where
  search_loop_lem :
      (fuel i j : ℕ) → i ≤ r → r ≤ j → j ≤ n → j - i ≤ fuel → search_loop fuel f i j ≡ r
  unfolding search_loop
  search_loop_lem zero i j lo hi jn h = omega arith
  search_loop_lem (suc fuel) i j lo hi jn h = elim (Bool-cases (ltb i j)) [
    | inr p ↦ rw p (let q = ltb→le i j p in omega arith)
    | inl p ↦
        let q = ltb→lt i j p in
        rw p (elim (dec_lt ((i + j) / 2) r) [
          | yes l ↦
              rw (below ((i + j) / 2) l)
                (search_loop_lem fuel ((i + j) / 2 + 1) j (omega arith) hi jn (omega arith))
          | no g ↦
              rw (above ((i + j) / 2) (omega arith) (omega arith))
                (search_loop_lem fuel i ((i + j) / 2) lo (omega arith) (omega arith) (omega arith))
        ])
  ]

  -- A test that changes its answer at `r` is searched to `r`.
  pub search_lem : r ≤ n → search n f ≡ r
  unfolding search
  search_lem h = search_loop_lem n 0 n (omega arith) h (omega arith) (omega arith)
