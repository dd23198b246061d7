-- ===== src/Base/Outcome.antt =====
-- A Go call that returns a value or an error, and the chains of `if err != nil { return err }`.
use mathlib.Core.Path.{◌≡◌, refl}
use mathlib.Core.Logic.{◌⊎◌, inl, inr}
use mathlib.Core.Bool.{Bool, true, false}
use mathlib.Core.Option.{Option, none, some}

pub data Result {ℓ} (E A : Type ℓ) : Type ℓ where
  ok : A → Result E A
  err : E → Result E A

module _ {ℓ} {E A B : Type ℓ} where
  infixl 5 ◌>>=◌
  abbrev pub ◌>>=◌ : Result E A → (A → Result E B) → Result E B
  ok a >>= f = f a
  err e >>= f = err e

module _ {ℓ} {E A : Type ℓ} where
  -- To split on a result and keep the equation.
  pub Result-cases : (r : Result E A) → ((e : E) × (r ≡ err e)) ⊎ ((a : A) × (r ≡ ok a))
  Result-cases (ok a) = inr (a, refl)
  Result-cases (err e) = inl (e, refl)

module _ {E B : Type 0} where
  infixl 5 ◌>>◌
  abbrev pub ◌>>◌ : Result E (Unit {0}) → Result E B → Result E B
  m >> k = m >>= λ _. k

module _ {E : Type 0} where
  -- `if bad { return e }`
  abbrev pub refuse_if : Bool → E → Result E (Unit {0})
  refuse_if true e = err e
  refuse_if false e = ok tt

  -- `QueryRow(...).Scan(...)`, with `e` for `sql.ErrNoRows`
  abbrev pub or_fail : {A : Type 0} → Option A → E → Result E A
  or_fail none e = err e
  or_fail (some a) e = ok a
