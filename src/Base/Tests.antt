-- ===== src/Base/Tests.antt =====
-- Boolean tests on the native numbers, the conditional, and equality of texts as a decision.
use Prim.Native.Nat.{ℕ, ◌<◌, compare, Ordering}
use Prim.Native.String.{String}
use mathlib.Core.Path.{◌≡◌, refl}
use mathlib.Core.Logic.{◌↔◌, ◌⊎◌, inl, inr}
use mathlib.Core.Bool.{Bool, true, false}
use mathlib.Core.Option.{Option, none, some}
use native.Mathlib.Omega.{arith}
use text.Mathlib.Text.{◌==◌ as str_eq}
use text.Mathlib.TextEquality.{eq_iff}

abbrev pub ltb : ℕ → ℕ → Bool
ltb a b = elim (compare a b) [ Ordering.lt ↦ true | _ ↦ false ]

abbrev pub leb : ℕ → ℕ → Bool
leb a b = elim (compare a b) [ Ordering.gt ↦ false | _ ↦ true ]

infix 50 ◌=ℕ◌
abbrev pub ◌=ℕ◌ : ℕ → ℕ → Bool
a =ℕ b = elim (compare a b) [ Ordering.eq ↦ true | _ ↦ false ]

infix 1 if◌then◌else◌
abbrev pub if◌then◌else◌ {ℓ} : {A : Type ℓ} → Bool → A → A → A
if true then x else y = x
if false then x else y = y

-- To split on a computed value and keep the equation.
pub Bool-cases : (b : Bool) → (b ≡ true) ⊎ (b ≡ false)
Bool-cases true = inl refl
Bool-cases false = inr refl

pub Option-cases {ℓ} : {A : Type ℓ} (o : Option A) → (o ≡ none) ⊎ ((a : A) × (o ≡ some a))
Option-cases none = inl refl
Option-cases (some a) = inr (a, refl)

text_decision : (a b : String) (t : Bool) → str_eq a b ≡ t → Dec (a ≡ b)
text_decision a b true e = yes ((eq_iff a b).0 e)
text_decision a b false e = no (λ p. ground (arith, (eq_iff a b).1 p))

-- Equality of texts, decided: a branch on it has the equation or its refutation at hand.
unfoldable pub dec_text : Discrete String
unfolding text_decision
dec_text a b = text_decision a b (str_eq a b) refl

infix 50 ◌==◌
abbrev pub ◌==◌ : String → String → Bool
a == b = elim (dec_text a b) [ yes _ ↦ true | no _ ↦ false ]

pub ==_refl : (a : String) → (a == a) ≡ true
==_refl a = ground arith

pub ==_iff : (a b : String) → ((a == b) ≡ true) ↔ (a ≡ b)
==_iff a b = ground arith

same_text : ("a" == "a") ≡ true
unfolding dec_text
same_text = refl

pub lt_of_leb-false : (a b : ℕ) → leb a b ≡ false → b < a
lt_of_leb-false a b h = ground arith
