-- ===== src/Base/Table/Counts.antt =====
-- Counts of rows through the statements that change a table.
use etemsg_server.Base.Lists.{length}
use etemsg_server.Base.Tests.{Bool-cases}
use etemsg_server.Base.Table.{select, delete, count_where, any_where, update, insert}
use etemsg_server.Base.Table.Rows.{count_where_zero}
use mathlib.Core.Logic.{inl, inr}
use Prim.Native.Nat.{◌+◌, ◌≤◌}
use mathlib.Core.Path.{◌≡◌, refl}
use mathlib.Core.Bool.{Bool, true, false, ◌||◌}
use mathlib.Core.List.{List, [], ◌∷◌, ◌++◌}
use native.Mathlib.Omega.{arith}

module _ {ℓ} {A : Type ℓ} where
  pub count_where-append :
      (p : A → Bool) (xs ys : List A)
      → count_where p (xs ++ ys) ≡ count_where p xs + count_where p ys
  count_where-append p [] ys = omega arith
  count_where-append p (x ∷ xs) ys = ground (arith, count_where-append p xs ys)

  pub count_where-delete-le :
      (p q : A → Bool) (xs : List A) → count_where p (delete q xs) ≤ count_where p xs
  count_where-delete-le p q [] = omega arith
  count_where-delete-le p q (x ∷ xs) = ground (arith, count_where-delete-le p q xs)

  pub count_where-delete_disjoint :
      (p q : A → Bool) (xs : List A)
      → ((x : A) → p x ≡ true → q x ≡ false)
      → count_where p (delete q xs) ≡ count_where p xs
  count_where-delete_disjoint p q [] h = refl
  count_where-delete_disjoint p q (x ∷ xs) h =
      ground (arith, h x, count_where-delete_disjoint p q xs h)

  -- An update that keeps a test, row by row, keeps its count.
  pub count_where-update :
      (p q : A → Bool) (f : A → A) (xs : List A)
      → ((x : A) → p x ≡ true → q (f x) ≡ q x)
      → count_where q (update p f xs) ≡ count_where q xs
  count_where-update p q f [] h = refl
  count_where-update p q f (x ∷ xs) h = ground (arith, h x, count_where-update p q f xs h)

  pub count_where-or :
      (p q : A → Bool) (xs : List A)
      → ((x : A) → p x ≡ true → q x ≡ false)
      → count_where (λ x. p x || q x) xs ≡ count_where p xs + count_where q xs
  count_where-or p q [] h = omega arith
  count_where-or p q (x ∷ xs) h = ground (arith, h x, count_where-or p q xs h)

  pub count_where_mono :
      (p q : A → Bool) (xs : List A)
      → ((x : A) → p x ≡ true → q x ≡ true)
      → count_where p xs ≤ count_where q xs
  count_where_mono p q [] h = omega arith
  count_where_mono p q (x ∷ xs) h = ground (arith, h x, count_where_mono p q xs h)

  pub length-select : (p : A → Bool) (xs : List A) → length (select p xs) ≡ count_where p xs
  length-select p [] = refl
  length-select p (x ∷ xs) = ground (arith, length-select p xs)

  -- A key stays a key when no row has the key of the new one: `q` tests for that key, and `p` for
  -- any.
  pub count_where-insert_key :
      (p q : A → Bool) (x : A) (xs : List A)
      → any_where q xs ≡ false
      → (p x ≡ true → (y : A) → p y ≡ true → q y ≡ true)
      → count_where p xs ≤ 1
      → count_where p (insert x xs) ≤ 1
  count_where-insert_key p q x xs fresh h le = elim (Bool-cases (p x)) [
    | inr e ↦ ground (arith, count_where-append p xs (x ∷ []))
    | inl e ↦ ground (
      arith,
      count_where-append p xs (x ∷ []),
      count_where_mono p q xs (h e),
      count_where_zero q xs fresh,
    )
  ]
