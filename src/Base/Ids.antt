-- ===== src/Base/Ids.antt =====
-- Lists of numbers as multisets: how often a number stands in a list.
use sapedb.Base.Tests.{ltb, ◌==◌, if◌then◌else◌}
use sapedb.Base.Lists.{length}
use Prim.Native.Nat.{ℕ, zero, suc, ◌+◌, ◌<◌, ◌≤◌}
use mathlib.Core.Path.{◌≡◌, refl}
use mathlib.Core.Bool.{Bool, true, false, ◌||◌}
use mathlib.Core.List.{List, [], ◌∷◌, ◌++◌}
use native.Mathlib.Omega.{arith}

abbrev pub count : ℕ → List ℕ → ℕ
count a [] = 0
count a (x ∷ xs) = if x == a then suc (count a xs) else count a xs

abbrev pub has : ℕ → List ℕ → Bool
has a [] = false
has a (x ∷ xs) = x == a || has a xs

-- The list without the first occurrence of a number.
abbrev pub erase : ℕ → List ℕ → List ℕ
erase a [] = []
erase a (x ∷ xs) = if x == a then xs else x ∷ erase a xs

-- The list without any occurrence of it.
abbrev pub without : ℕ → List ℕ → List ℕ
without a [] = []
without a (x ∷ xs) = let rest = without a xs in if x == a then rest else x ∷ rest

pub count-append : (a : ℕ) (xs ys : List ℕ) → count a (xs ++ ys) ≡ count a xs + count a ys
count-append a [] ys = omega arith
count-append a (x ∷ xs) ys = ground (arith, count-append a xs ys)

pub count-cons : (a x : ℕ) (xs : List ℕ) → count a (x ∷ xs) ≡ (if x == a then 1 else 0) + count a xs
count-cons a x xs = ground arith

pub has-count : (a : ℕ) (xs : List ℕ) → has a xs ≡ true → 0 < count a xs
has-count a [] h = cc
has-count a (x ∷ xs) h = ground (arith, has-count a xs)

pub not_has-count : (a : ℕ) (xs : List ℕ) → has a xs ≡ false → count a xs ≡ 0
not_has-count a [] h = refl
not_has-count a (x ∷ xs) h = ground (arith, not_has-count a xs)

pub has-cons_self : (a : ℕ) (xs : List ℕ) → has a (a ∷ xs) ≡ true
has-cons_self a xs = ground arith

pub has-without :
    (a b : ℕ) (xs : List ℕ) → has b (without a xs) ≡ (if a == b then false else has b xs)
has-without a b [] = ground arith
has-without a b (x ∷ xs) = ground (arith, has-without a b xs)

pub count-erase_self :
    (a : ℕ) (xs : List ℕ) → 0 < count a xs → suc (count a (erase a xs)) ≡ count a xs
count-erase_self a [] h = absurd (omega arith)
count-erase_self a (x ∷ xs) h = ground (arith, count-erase_self a xs)

pub count-erase_ne : (a b : ℕ) (xs : List ℕ) → (a == b) ≡ false → count b (erase a xs) ≡ count b xs
count-erase_ne a b [] h = refl
count-erase_ne a b (x ∷ xs) h = ground (arith, count-erase_ne a b xs)

pub count-erase :
    (a b : ℕ) (xs : List ℕ)
    → 0 < count a xs
    → count b (erase a xs) + (if a == b then 1 else 0) ≡ count b xs
count-erase a b [] h = absurd (omega arith)
count-erase a b (x ∷ xs) h = ground (arith, count-erase a b xs)

length-without : (n : ℕ) (xs : List ℕ) → length (without n xs) + count n xs ≡ length xs
length-without n [] = omega arith
length-without n (x ∷ xs) = ground (arith, length-without n xs)

count-without :
    (n a : ℕ) (xs : List ℕ) → count a (without n xs) ≡ (if n == a then 0 else count a xs)
count-without n a [] = ground arith
count-without n a (x ∷ xs) = ground (arith, count-without n a xs)

-- Numbers below a bound that stand in a list once each are no more than the bound.
pub length_bounded :
    (n : ℕ) (xs : List ℕ) → ((a : ℕ) → count a xs ≤ (if ltb a n then 1 else 0)) → length xs ≤ n
length_bounded zero [] h = omega arith
length_bounded zero (x ∷ xs) h = ground (arith, h x)
length_bounded (suc n) xs h =
    let rest = length_bounded n (without n xs) (λ a. ground (arith, count-without n a xs, h a)) in
    ground (arith, rest, length-without n xs, h n)
