-- ===== src/Base/Lists.antt =====
-- Lists measured and indexed by native numbers, under the library's names.
use Prim.Native.Nat.{ℕ, zero, suc, ◌+◌, ◌<◌}
use mathlib.Core.Path.{◌≡◌, refl, ap}
use mathlib.Core.Logic.{◌≢◌, ◌⊎◌, inl, inr}
use mathlib.Core.List.{List, [], ◌∷◌, ◌++◌}
use mathlib.Core.Option.{Option, none, some}
use native.Mathlib.Omega.{arith}

module _ {ℓ} {A : Type ℓ} where
  abbrev pub length : List A → ℕ
  length [] = 0
  length (x ∷ xs) = suc (length xs)

  abbrev pub get_elem? : List A → ℕ → Option A
  get_elem? [] i = none
  get_elem? (x ∷ xs) zero = some x
  get_elem? (x ∷ xs) (suc i) = get_elem? xs i

  abbrev pub set : List A → ℕ → A → List A
  set [] i v = []
  set (x ∷ xs) zero v = v ∷ xs
  set (x ∷ xs) (suc i) v = x ∷ set xs i v

  abbrev pub take : ℕ → List A → List A
  take zero xs = []
  take (suc n) [] = []
  take (suc n) (x ∷ xs) = x ∷ take n xs

  abbrev pub drop : ℕ → List A → List A
  drop zero xs = xs
  drop (suc n) [] = []
  drop (suc n) (x ∷ xs) = drop n xs

  abbrev pub head? : List A → Option A
  head? [] = none
  head? (x ∷ xs) = some x

  -- A predicate of every entry, which computes to a tuple.
  abbrev pub All {κ} : (A → Type κ) → List A → Type κ
  All P [] = Unit
  All P (x ∷ xs) = P x × All P xs

  pub length-append : (xs ys : List A) → length (xs ++ ys) ≡ length xs + length ys
  length-append [] ys = omega arith
  length-append (x ∷ xs) ys = omega (arith, length-append xs ys)

module _ {ℓ} {A : Type ℓ} where
  pub length-set : (xs : List A) (i : ℕ) (v : A) → length (set xs i v) ≡ length xs
  length-set [] i v = refl
  length-set (x ∷ xs) zero v = refl
  length-set (x ∷ xs) (suc i) v = ap suc (length-set xs i v)

  pub get_elem?-lt_length : (xs : List A) (i : ℕ) {v : A} → get_elem? xs i ≡ some v → i < length xs
  get_elem?-lt_length [] i h = cc
  get_elem?-lt_length (x ∷ xs) zero h = omega arith
  get_elem?-lt_length (x ∷ xs) (suc i) h = omega (arith, get_elem?-lt_length xs i h)

  pub get_elem?-set_self :
      (xs : List A) (i : ℕ) (v : A) → i < length xs → get_elem? (set xs i v) i ≡ some v
  get_elem?-set_self [] i v h = elim h [ ]
  get_elem?-set_self (x ∷ xs) zero v h = refl
  get_elem?-set_self (x ∷ xs) (suc i) v h = get_elem?-set_self xs i v (omega arith)

  pub get_elem?-set_ne :
      (xs : List A) (i j : ℕ) (v : A) → i ≢ j → get_elem? (set xs i v) j ≡ get_elem? xs j
  get_elem?-set_ne [] i j v h = refl
  get_elem?-set_ne (x ∷ xs) zero zero v h = absurd (h refl)
  get_elem?-set_ne (x ∷ xs) zero (suc j) v h = refl
  get_elem?-set_ne (x ∷ xs) (suc i) zero v h = refl
  get_elem?-set_ne (x ∷ xs) (suc i) (suc j) v h = get_elem?-set_ne xs i j v (λ e. h (ap suc e))

  -- An entry that is appended stands at the old length, and the others keep their places.
  pub get_elem?-append_new : (xs : List A) (v : A) → get_elem? (xs ++ v ∷ []) (length xs) ≡ some v
  get_elem?-append_new [] v = refl
  get_elem?-append_new (x ∷ xs) v = get_elem?-append_new xs v

  pub get_elem?-append_old :
      (xs : List A) (v : A) (i : ℕ) → i < length xs → get_elem? (xs ++ v ∷ []) i ≡ get_elem? xs i
  get_elem?-append_old [] v i h = absurd (omega arith)
  get_elem?-append_old (x ∷ xs) v zero h = refl
  get_elem?-append_old (x ∷ xs) v (suc i) h = get_elem?-append_old xs v i (omega arith)

  pub All-map {κ μ} :
      (P : A → Type κ) (Q : A → Type μ) (xs : List A) → ((x : A) → P x → Q x) → All P xs → All Q xs
  All-map P Q [] f h = tt
  All-map P Q (x ∷ xs) f h = (f x h.0, All-map P Q xs f h.1)

module _ {ℓ} {A : Type ℓ} where
  -- What stands at an index after a write, or after an entry was appended.
  pub get_elem?-set_cases :
      (xs : List A) (i j : ℕ) (v : A) {d : A}
      → get_elem? (set xs i v) j ≡ some d
      → ((i ≡ j) × (d ≡ v)) ⊎ (get_elem? xs j ≡ some d)
  get_elem?-set_cases [] i j v h = inr h
  get_elem?-set_cases (x ∷ xs) zero zero v h = inl (refl, cc)
  get_elem?-set_cases (x ∷ xs) zero (suc j) v h = inr h
  get_elem?-set_cases (x ∷ xs) (suc i) zero v h = inr h
  get_elem?-set_cases (x ∷ xs) (suc i) (suc j) v h = ground (arith, get_elem?-set_cases xs i j v h)

  pub get_elem?-append_cases :
      (xs : List A) (v : A) (j : ℕ) {d : A}
      → get_elem? (xs ++ v ∷ []) j ≡ some d
      → ((j ≡ length xs) × (d ≡ v)) ⊎ (get_elem? xs j ≡ some d)
  get_elem?-append_cases [] v zero h = inl (refl, cc)
  get_elem?-append_cases [] v (suc j) h = cc
  get_elem?-append_cases (x ∷ xs) v zero h = inr h
  get_elem?-append_cases (x ∷ xs) v (suc j) h = ground (arith, get_elem?-append_cases xs v j h)
