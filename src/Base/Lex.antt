-- ===== src/Base/Lex.antt =====
-- The order of `bytes.Compare` is a total order.
use Prim.Native.Nat.{ℕ, Ordering}
use mathlib.Core.Path.{◌≡◌, refl}
use mathlib.Core.Bool.{Bool, true, false}
use mathlib.Core.Logic.{◌⊎◌, inl, inr}
use mathlib.Core.List.{List, [], ◌∷◌}
use native.Mathlib.Omega.{arith}
use sapedb.Base.Bytes.{lex}

-- `bytes.Compare(a, b) < 0`
unfoldable pub key_lt : List ℕ → List ℕ → Bool
key_lt a b = elim (lex a b) [ Ordering.lt ↦ true | _ ↦ false ]

pub lex_refl : (a : List ℕ) → lex a a ≡ Ordering.eq
unfolding lex
lex_refl [] = refl
lex_refl (x ∷ xs) = ground (arith, lex_refl xs)

pub lex_eq : (a b : List ℕ) → lex a b ≡ Ordering.eq → a ≡ b
unfolding lex
lex_eq [] [] h = refl
lex_eq [] (y ∷ ys) h = cc
lex_eq (x ∷ xs) [] h = cc
lex_eq (x ∷ xs) (y ∷ ys) h = ground (arith, lex_eq xs ys)

pub lex_gt : (a b : List ℕ) → lex a b ≡ Ordering.gt → lex b a ≡ Ordering.lt
unfolding lex
lex_gt [] [] h = cc
lex_gt [] (y ∷ ys) h = cc
lex_gt (x ∷ xs) [] h = refl
lex_gt (x ∷ xs) (y ∷ ys) h = ground (arith, lex_gt xs ys)

pub lex_lt : (a b : List ℕ) → lex a b ≡ Ordering.lt → lex b a ≡ Ordering.gt
unfolding lex
lex_lt [] [] h = cc
lex_lt [] (y ∷ ys) h = refl
lex_lt (x ∷ xs) [] h = cc
lex_lt (x ∷ xs) (y ∷ ys) h = ground (arith, lex_lt xs ys)

pub lex_trans :
    (a b c : List ℕ) → lex a b ≡ Ordering.lt → lex b c ≡ Ordering.lt → lex a c ≡ Ordering.lt
unfolding lex
lex_trans [] [] c h k = cc
lex_trans [] (y ∷ ys) [] h k = cc
lex_trans [] (y ∷ ys) (z ∷ zs) h k = refl
lex_trans (x ∷ xs) [] c h k = cc
lex_trans (x ∷ xs) (y ∷ ys) [] h k = cc
lex_trans (x ∷ xs) (y ∷ ys) (z ∷ zs) h k = ground (arith, lex_trans xs ys zs)

pub lex_of_key_lt : (a b : List ℕ) → key_lt a b ≡ true → lex a b ≡ Ordering.lt
unfolding key_lt
lex_of_key_lt a b h = ground arith

pub key_lt-true : (a b : List ℕ) → lex a b ≡ Ordering.lt → key_lt a b ≡ true
unfolding key_lt
key_lt-true a b h = rw (h, key_lt)

pub key_lt_trans : (a b c : List ℕ) → key_lt a b ≡ true → key_lt b c ≡ true → key_lt a c ≡ true
key_lt_trans a b c h k =
    key_lt-true a c (lex_trans a b c (lex_of_key_lt a b h) (lex_of_key_lt b c k))

pub key_lt_irrefl : (a : List ℕ) → key_lt a a ≡ false
unfolding key_lt
key_lt_irrefl a = rw (lex_refl a, key_lt)

pub key_lt_asym : (a b : List ℕ) → key_lt a b ≡ true → key_lt b a ≡ false
unfolding key_lt
key_lt_asym a b h = ground (arith, lex_lt a b)

-- Of two keys one is smaller, or they are one.
pub key_cases : (a b : List ℕ) → (key_lt a b ≡ true) ⊎ ((a ≡ b) ⊎ (key_lt b a ≡ true))
unfolding key_lt
key_cases a b = elim (lex_cases a b) [
  | inl h ↦ inl (rw (h, key_lt))
  | inr (inl h) ↦ inr (inl (lex_eq a b h))
  | inr (inr h) ↦ inr (inr (rw (lex_gt a b h, key_lt)))
]
  where
    ordering_cases : (o : Ordering) → (o ≡ Ordering.lt) ⊎ ((o ≡ Ordering.eq) ⊎ (o ≡ Ordering.gt))
    ordering_cases Ordering.lt = inl refl
    ordering_cases Ordering.eq = inr (inl refl)
    ordering_cases Ordering.gt = inr (inr refl)

    lex_cases :
        (a b : List ℕ)
        → (lex a b ≡ Ordering.lt) ⊎ ((lex a b ≡ Ordering.eq) ⊎ (lex a b ≡ Ordering.gt))
    lex_cases a b = ordering_cases (lex a b)

-- `bytes.Equal(a, b)`
unfoldable pub key_eq : List ℕ → List ℕ → Bool
key_eq a b = elim (lex a b) [ Ordering.eq ↦ true | _ ↦ false ]

pub key_eq-true : (a b : List ℕ) → key_eq a b ≡ true → a ≡ b
unfolding key_eq
key_eq-true a b h = lex_eq a b (ground arith)

pub key_eq_refl : (a : List ℕ) → key_eq a a ≡ true
unfolding key_eq
key_eq_refl a = rw (lex_refl a, key_eq)

pub key_lt_not_eq : (a b : List ℕ) → key_lt a b ≡ true → key_eq a b ≡ false
unfolding key_lt key_eq
key_lt_not_eq a b h = ground arith
