-- ===== src/Base/Table.antt =====
-- SQL tables as lists of rows in insertion order, and the statements of the store's queries.
pub mod Rows
pub mod Counts
pub mod Sorting
use Prim.Native.Nat.{ℕ, suc, ◌+◌, ◌≤◌, ◌<◌, max}
use mathlib.Core.Bool.{Bool, true, false}
use mathlib.Core.List.{List, [], ◌∷◌, ◌++◌}
use mathlib.Core.Option.{Option, none, some}
use etemsg_server.Base.Tests.{if◌then◌else◌}

module _ {ℓ} {A : Type ℓ} where
  -- SELECT ... WHERE p
  abbrev pub select : (A → Bool) → List A → List A
  select p [] = []
  select p (x ∷ xs) = let rest = select p xs in if p x then x ∷ rest else rest

  -- DELETE ... WHERE p
  abbrev pub delete : (A → Bool) → List A → List A
  delete p [] = []
  delete p (x ∷ xs) = let rest = delete p xs in if p x then rest else x ∷ rest

  -- SELECT COUNT(*) ... WHERE p
  abbrev pub count_where : (A → Bool) → List A → ℕ
  count_where p [] = 0
  count_where p (x ∷ xs) = let rest = count_where p xs in if p x then suc rest else rest

  -- SELECT 1 ... WHERE p, tested for a row
  abbrev pub any_where : (A → Bool) → List A → Bool
  any_where p [] = false
  any_where p (x ∷ xs) = let rest = any_where p xs in if p x then true else rest

  -- SELECT ... WHERE p, the first row
  abbrev pub first : (A → Bool) → List A → Option A
  first p [] = none
  first p (x ∷ xs) = let rest = first p xs in if p x then some x else rest

  -- UPDATE ... SET f WHERE p
  abbrev pub update : (A → Bool) → (A → A) → List A → List A
  update p f [] = []
  update p f (x ∷ xs) = (if p x then f x else x) ∷ update p f xs

  -- INSERT INTO ...
  abbrev pub insert : A → List A → List A
  insert x xs = xs ++ x ∷ []

abbrev pub larger : ℕ → Option ℕ → Option ℕ
larger n none = some n
larger n (some m) = some (max n m)

abbrev pub smaller : ℕ → Option ℕ → Option ℕ
smaller n none = some n
smaller n (some m) = some (Prim.Native.Nat.min n m)

module _ {ℓ} {A : Type ℓ} where
  -- SELECT MAX(key) ... WHERE p: NULL where no row fits
  abbrev pub max_where : (A → Bool) → (A → ℕ) → List A → Option ℕ
  max_where p key [] = none
  max_where p key (x ∷ xs) =
      let rest = max_where p key xs in if p x then larger (key x) rest else rest

  -- SELECT MIN(key) ... WHERE p
  abbrev pub min_where : (A → Bool) → (A → ℕ) → List A → Option ℕ
  min_where p key [] = none
  min_where p key (x ∷ xs) =
      let rest = min_where p key xs in if p x then smaller (key x) rest else rest

  -- ORDER BY: insertion sort, stable; `before a b` says that `a` may stand before `b`.
  abbrev pub insert_by : (A → A → Bool) → A → List A → List A
  insert_by before x [] = x ∷ []
  insert_by before x (y ∷ ys) =
      let later = y ∷ insert_by before x ys in if before x y then x ∷ y ∷ ys else later

  abbrev pub sort_by : (A → A → Bool) → List A → List A
  sort_by before [] = []
  sort_by before (x ∷ xs) = insert_by before x (sort_by before xs)
