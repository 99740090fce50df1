-- ===== src/Base/Results.antt =====
-- Go's (value, error) pair: a value, or one of a component's errors.
use mathlib.Core.Path.{◌≡◌, refl}

pub data Result {ℓ} (Failure : Type 0) (Value : Type ℓ) : Type ℓ where
  ok : Value → Result Failure Value
  err : Failure → Result Failure Value

-- `if err != nil { return err }` after a call, and the code that follows it.
infixl 5 ◌>>=◌
abbrev pub ◌>>=◌ {ℓ κ} :
    {Failure : Type 0} {V : Type ℓ} {W : Type κ}
    → Result Failure V
    → (V → Result Failure W)
    → Result Failure W
call >>= next = elim call [ ok value ↦ next value | err failure ↦ err failure ]

-- Code behind a call that succeeded as a whole: the call succeeded, and so did what follows.
pub bind_ok {ℓ κ} :
    {Failure : Type 0} {V : Type ℓ} {W : Type κ} {w : W} (next : V → Result Failure W)
    (call : Result Failure V)
    → (call >>= next) ≡ ok w
    → (v : V) × (call ≡ ok v) × (next v ≡ ok w)
bind_ok next (err failure) whole = cc
bind_ok next (ok value) whole = (value, refl, whole)

-- Two answers of one call are one.
pub ok_eq {ℓ} :
    {Failure : Type 0} {V : Type ℓ} {call : Result Failure V} {v w : V}
    → call ≡ ok v
    → call ≡ ok w
    → v ≡ w
ok_eq p q = cc (p, q)
