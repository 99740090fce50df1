-- ===== src/Store/Budget.antt =====
-- internal/store/budget.go: how much one answer may carry. A row is given as what json.Marshal
-- writes of it, if it does. A `most` below 1 is no limit, so a negative one is 0.
use sapedb.Base.{
  ℕ, ◌+◌, ◌≤◌, ◌<◌, ◌≡◌, refl, true, false, Option, none, some, List, [], ◌∷◌, length, ltb, ◌==◌,
  if◌then◌else◌, Result, ok, err, arith, Bool-cases, inl, inr,
}

pub record Budget : Type 0 where
  pub most : ℕ
  pub used : ℕ
  pub rows : ℕ

pub data SpendError : Type 0 where
  not_written too_large : SpendError

-- `spend` behind the marshalling of a row.
unfoldable pub spend_written : Budget → Option (List ℕ) → Result SpendError Budget
spend_written b none = err not_written
spend_written b (some written) =
    let want = b.used + length written + 1 in
    if ltb b.most want then err too_large else ok (record b { used = want; rows = b.rows + 1 })

unfoldable pub spend : Option Budget → Option (List ℕ) → Result SpendError (Option Budget)
spend none row = ok none
spend (some b) row =
    if b.most == 0
    then ok (some b)
    else (elim (spend_written b row) [ err e ↦ err e | ok c ↦ ok (some c) ])

abbrev pub go_on :
    (Option Budget → Result SpendError (Option Budget))
    → Result SpendError (Option Budget)
    → Result SpendError (Option Budget)
go_on next (err e) = err e
go_on next (ok b) = next b

-- The rows of an answer, spent in order until one is refused, as the visits of a read operation do.
unfoldable pub spend_all :
    Option Budget → List (Option (List ℕ)) → Result SpendError (Option Budget)
spend_all b [] = ok b
spend_all b (row ∷ rows) = go_on (λ c. spend_all c rows) (spend b row)

-- The bytes of rows that were written, and a byte for each.
abbrev pub bytes_of : List (Option (List ℕ)) → ℕ
bytes_of [] = 0
bytes_of (some written ∷ rows) = length written + 1 + bytes_of rows
bytes_of (none ∷ rows) = bytes_of rows

-- What a budget answers for the rows of an answer.
abbrev pub Spent : Budget → List (Option (List ℕ)) → Result SpendError (Option Budget) → Type 0
Spent b rows (ok none) = 0 < 0
Spent b rows (ok (some c)) =
    (c.used ≡ b.used + bytes_of rows) × (c.used ≤ b.most) × (c.rows ≡ b.rows + length rows)
Spent b rows (err too_large) = b.most < b.used + bytes_of rows
Spent b rows (err not_written) = Unit

further :
    (b c : Budget) (written : List ℕ) (rows : List (Option (List ℕ)))
    (r : Result SpendError (Option Budget))
    → c.most ≡ b.most
    → c.used ≡ b.used + length written + 1
    → c.rows ≡ b.rows + 1
    → Spent c rows r
    → Spent b (some written ∷ rows) r
further b c written rows (ok none) m u n h = h
further b c written rows (ok (some d)) m u n h =
    (omega (arith, h.0), omega (arith, h.1), omega (arith, h.2))
further b c written rows (err too_large) m u n h = omega arith
further b c written rows (err not_written) m u n h = tt

limited : (b : Budget) → 0 < b.most → (b.most == 0) ≡ false
limited b p = ground arith

spend-none : (b : Budget) → 0 < b.most → spend (some b) none ≡ err not_written
unfolding spend spend_written
spend-none b p = rw (limited b p) refl

spend-large :
    (b : Budget) (written : List ℕ)
    → 0 < b.most
    → ltb b.most (b.used + length written + 1) ≡ true
    → spend (some b) (some written) ≡ err too_large
unfolding spend spend_written
spend-large b written p q = rw (limited b p, q) refl

spend-fits :
    (b : Budget) (written : List ℕ)
    → 0 < b.most
    → ltb b.most (b.used + length written + 1) ≡ false
    → spend (some b) (some written)
      ≡ ok (some (record b { used = b.used + length written + 1; rows = b.rows + 1 }))
unfolding spend spend_written
spend-fits b written p q = rw (limited b p, q) refl

answered :
    (b : Budget) (rows : List (Option (List ℕ)))
    (next : Option Budget → Result SpendError (Option Budget))
    (r q : Result SpendError (Option Budget))
    → r ≡ q
    → Spent b rows (go_on next q)
    → Spent b rows (go_on next r)
answered b rows next r q e h = rw e h

-- Rows are let through one after another as long as they fit: at the end what was used is what the
-- rows take with a byte for each, and no more than the most an answer may carry; and an answer that
-- is refused as too large takes more.
pub spend_all-Spent :
    (b : Budget) (rows : List (Option (List ℕ)))
    → 0 < b.most
    → b.used ≤ b.most
    → Spent b rows (spend_all (some b) rows)
unfolding spend_all
spend_all-Spent b [] p l = (omega arith, l, omega arith)
spend_all-Spent b (none ∷ rows) p l =
    answered b (none ∷ rows) (λ c. spend_all c rows) (spend (some b) none) (err not_written)
      (spend-none b p) tt
spend_all-Spent b (some written ∷ rows) p l =
    elim (Bool-cases (ltb b.most (b.used + length written + 1))) [
      | inl q ↦
          answered b (some written ∷ rows) (λ c. spend_all c rows) (spend (some b) (some written))
            (err too_large) (spend-large b written p q) (ground arith)
      | inr q ↦
          let c : Budget = record b { used = b.used + length written + 1; rows = b.rows + 1 } in
          answered b (some written ∷ rows) (λ d. spend_all d rows) (spend (some b) (some written))
            (ok (some c)) (spend-fits b written p q)
            (further b c written rows (spend_all (some c) rows) refl refl refl
              (spend_all-Spent c rows p (ground arith)))
    ]
