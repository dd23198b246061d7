-- ===== src/Base/Table/Rows.antt =====
-- Which rows a query finds: `any_where`, `first` and `select` through the other statements.
use etemsg_server.Base.Tests.{if◌then◌else◌, Bool-cases}
use etemsg_server.Base.Lists.{All}
use etemsg_server.Base.Table.{
  select, delete, count_where, any_where, first, update, insert_by, sort_by, max_where, larger,
}
use Prim.Native.Nat.{ℕ, ◌≤◌, ◌<◌}
use mathlib.Core.Path.{◌≡◌, refl}
use mathlib.Core.Logic.{inl, inr}
use mathlib.Core.Bool.{Bool, true, false, ◌&&◌, ◌||◌, not}
use mathlib.Core.List.{List, [], ◌∷◌, ◌++◌, map}
use mathlib.Core.Option.{Option, none, some}
use native.Mathlib.Omega.{arith}

module _ {ℓ} {A : Type ℓ} where
  pub any_where-append :
      (p : A → Bool) (xs ys : List A) → any_where p (xs ++ ys) ≡ (any_where p xs || any_where p ys)
  any_where-append p [] ys = refl
  any_where-append p (x ∷ xs) ys = ground (arith, any_where-append p xs ys)

  pub any_where-select :
      (p q : A → Bool) (xs : List A) → any_where p (select q xs) ≡ any_where (λ x. q x && p x) xs
  any_where-select p q [] = refl
  any_where-select p q (x ∷ xs) = ground (arith, any_where-select p q xs)

  any_where-insert_by :
      (p : A → Bool) (before : A → A → Bool) (x : A) (ys : List A)
      → any_where p (insert_by before x ys) ≡ (p x || any_where p ys)
  any_where-insert_by p before x [] = ground arith
  any_where-insert_by p before x (y ∷ ys) = ground (arith, any_where-insert_by p before x ys)

  pub any_where-sort_by :
      (p : A → Bool) (before : A → A → Bool) (xs : List A)
      → any_where p (sort_by before xs) ≡ any_where p xs
  any_where-sort_by p before [] = refl
  any_where-sort_by p before (x ∷ xs) =
      ground
        (arith, any_where-insert_by p before x (sort_by before xs), any_where-sort_by p before xs)

  -- Where the second test has one value on the rows of the first.
  pub any_where-and :
      (p k : A → Bool) (b : Bool) (xs : List A)
      → ((x : A) → p x ≡ true → k x ≡ b)
      → any_where (λ x. p x && k x) xs ≡ (any_where p xs && b)
  any_where-and p k b [] h = refl
  any_where-and p k b (x ∷ xs) h = ground (arith, h x, any_where-and p k b xs h)

  pub any_where_congr :
      (p q : A → Bool) (xs : List A) → ((x : A) → p x ≡ q x) → any_where p xs ≡ any_where q xs
  any_where_congr p q [] h = refl
  any_where_congr p q (x ∷ xs) h = ground (arith, h x, any_where_congr p q xs h)

  -- A row is found exactly when the count is not 0.
  pub count_where_pos_iff :
      (p : A → Bool) (xs : List A) → any_where p xs ≡ true → 0 < count_where p xs
  count_where_pos_iff p [] h = cc
  count_where_pos_iff p (x ∷ xs) h = ground (arith, count_where_pos_iff p xs)

  pub count_where_zero :
      (p : A → Bool) (xs : List A) → any_where p xs ≡ false → count_where p xs ≡ 0
  count_where_zero p [] h = refl
  count_where_zero p (x ∷ xs) h = ground (arith, count_where_zero p xs)

  pub first_found :
      (p : A → Bool) (xs : List A) {x : A}
      → first p xs ≡ some x
      → (p x ≡ true) × (any_where p xs ≡ true)
  first_found p [] h = cc
  first_found p (z ∷ xs) {x} h = ground (arith, first_found p xs {x = x})

  pub first_missing : (p : A → Bool) (xs : List A) → first p xs ≡ none → any_where p xs ≡ false
  first_missing p [] h = refl
  first_missing p (x ∷ xs) h = ground (arith, first_missing p xs)

  pub first_absent : (p : A → Bool) (xs : List A) → any_where p xs ≡ false → first p xs ≡ none
  first_absent p [] h = refl
  first_absent p (x ∷ xs) h = ground (arith, first_absent p xs)

  -- Deleting.
  pub any_where-delete :
      (p q : A → Bool) (xs : List A)
      → any_where p (delete q xs) ≡ any_where (λ x. not (q x) && p x) xs
  any_where-delete p q [] = refl
  any_where-delete p q (x ∷ xs) = ground (arith, any_where-delete p q xs)

  pub any_where-delete_self : (p : A → Bool) (xs : List A) → any_where p (delete p xs) ≡ false
  any_where-delete_self p [] = refl
  any_where-delete_self p (x ∷ xs) = ground (arith, any_where-delete_self p xs)

  pub delete_absent : (p : A → Bool) (xs : List A) → any_where p xs ≡ false → delete p xs ≡ xs
  delete_absent p [] h = refl
  delete_absent p (x ∷ xs) h = ground (arith, delete_absent p xs)

  pub select-append :
      (p : A → Bool) (xs ys : List A) → select p (xs ++ ys) ≡ select p xs ++ select p ys
  select-append p [] ys = refl
  select-append p (x ∷ xs) ys = ground (arith, select-append p xs ys)

  -- Rows that no query of `p` sees may come and go.
  pub select-delete_disjoint :
      (p q : A → Bool) (xs : List A)
      → ((x : A) → p x ≡ true → q x ≡ false)
      → select p (delete q xs) ≡ select p xs
  select-delete_disjoint p q [] h = refl
  select-delete_disjoint p q (x ∷ xs) h = ground (arith, h x, select-delete_disjoint p q xs h)

  pub select-delete_self : (p : A → Bool) (xs : List A) → select p (delete p xs) ≡ []
  select-delete_self p [] = refl
  select-delete_self p (x ∷ xs) = ground (arith, select-delete_self p xs)

pub any_where-map {ℓ κ} :
    {A : Type ℓ} {B : Type κ} (p : B → Bool) (f : A → B) (xs : List A)
    → any_where p (map f xs) ≡ any_where (λ x. p (f x)) xs
any_where-map p f [] = refl
any_where-map p f (x ∷ xs) = ground (arith, any_where-map p f xs)

module _ {ℓ} {A : Type ℓ} where
  -- An update that keeps the test changes the row that is found, and no row that is not updated.
  pub first-update :
      (p q : A → Bool) (f : A → A) (xs : List A) {x : A}
      → ((y : A) → p (f y) ≡ p y)
      → first p xs ≡ some x
      → first p (update q f xs) ≡ some (if q x then f x else x)
  first-update p q f [] keep h = cc
  first-update p q f (z ∷ xs) {x} keep h =
      ground (arith, keep z, first-update p q f xs {x = x} keep)

  pub first-update_disjoint :
      (p q : A → Bool) (f : A → A) (xs : List A)
      → ((x : A) → q x ≡ true → p x ≡ false)
      → ((x : A) → q x ≡ true → p (f x) ≡ false)
      → first p (update q f xs) ≡ first p xs
  first-update_disjoint p q f [] h k = refl
  first-update_disjoint p q f (x ∷ xs) h k =
      ground (arith, h x, k x, first-update_disjoint p q f xs h k)

  pub first-append :
      (p : A → Bool) (xs ys : List A)
      → first p (xs ++ ys) ≡ (if any_where p xs then first p xs else first p ys)
  first-append p [] ys = refl
  first-append p (x ∷ xs) ys = ground (arith, first-append p xs ys)

  -- Where each row that `p` finds is found by `q`.
  pub any_where_mono :
      (p q : A → Bool) (xs : List A)
      → ((x : A) → p x ≡ true → q x ≡ true)
      → any_where p xs ≡ true
      → any_where q xs ≡ true
  any_where_mono p q [] h e = cc
  any_where_mono p q (x ∷ xs) h e = ground (arith, h x, any_where_mono p q xs h)

  pub select-update_disjoint :
      (p q : A → Bool) (f : A → A) (xs : List A)
      → ((x : A) → q x ≡ true → p x ≡ false)
      → ((x : A) → q x ≡ true → p (f x) ≡ false)
      → select p (update q f xs) ≡ select p xs
  select-update_disjoint p q f [] h k = refl
  select-update_disjoint p q f (x ∷ xs) h k =
      ground (arith, h x, k x, select-update_disjoint p q f xs h k)

-- `n` bounds a maximum that may be NULL.
abbrev pub Bounds : ℕ → Option ℕ → Type 0
Bounds n none = Unit
Bounds n (some m) = m ≤ n

Bounds-larger : (n k : ℕ) (o : Option ℕ) → Bounds n (larger k o) → (k ≤ n) × Bounds n o
Bounds-larger n k none h = (h, tt)
Bounds-larger n k (some m) h = (omega arith, omega arith)

module _ {ℓ} {A : Type ℓ} where
  -- What bounds the maximum bounds every row that it ranges over.
  pub All-of_Bounds :
      (p : A → Bool) (key : A → ℕ) (n : ℕ) (xs : List A)
      → Bounds n (max_where p key xs)
      → All (λ x. p x ≡ true → key x ≤ n) xs
  All-of_Bounds p key n [] h = tt
  All-of_Bounds p key n (x ∷ xs) h = elim (Bool-cases (p x)) [
    | inl hit ↦
        let (here, rest) = Bounds-larger n (key x) (max_where p key xs) (rw hit at h) in
        (λ _. here, All-of_Bounds p key n xs rest)
    | inr miss ↦ (λ hit. cc, All-of_Bounds p key n xs (rw miss at h))
  ]
