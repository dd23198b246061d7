-- ===== src/Base/Table/Sorting.antt =====
-- ORDER BY a number: the rows stay the same, in ascending order.
use etemsg_server.Base.Tests.{leb, Bool-cases}
use etemsg_server.Base.Lists.{All, length, get_elem?}
use etemsg_server.Base.Table.{select, count_where, insert_by, sort_by}
use Prim.Native.Nat.{ℕ, zero, suc, ◌≤◌, ◌<◌}
use mathlib.Core.Path.{◌≡◌, refl, ap, ◌∙◌}
use mathlib.Core.Logic.{inl, inr}
use mathlib.Core.Bool.{Bool, true, ◌&&◌}
use mathlib.Core.List.{List, [], ◌∷◌, ◌++◌}
use mathlib.Core.Option.{some}
use native.Mathlib.Omega.{arith}

module _ {ℓ} {A : Type ℓ} where
  count_where-insert_by :
      (p : A → Bool) (before : A → A → Bool) (x : A) (ys : List A)
      → count_where p (insert_by before x ys) ≡ count_where p (x ∷ ys)
  count_where-insert_by p before x [] = refl
  count_where-insert_by p before x (y ∷ ys) = ground (arith, count_where-insert_by p before x ys)

  pub count_where-sort_by :
      (p : A → Bool) (before : A → A → Bool) (xs : List A)
      → count_where p (sort_by before xs) ≡ count_where p xs
  count_where-sort_by p before [] = refl
  count_where-sort_by p before (x ∷ xs) =
      ground (
        arith,
        count_where-insert_by p before x (sort_by before xs),
        count_where-sort_by p before xs,
      )

  pub count_where-select :
      (p q : A → Bool) (xs : List A)
      → count_where p (select q xs) ≡ count_where (λ x. q x && p x) xs
  count_where-select p q [] = refl
  count_where-select p q (x ∷ xs) = ground (arith, count_where-select p q xs)

  length-insert_by :
      (before : A → A → Bool) (x : A) (ys : List A)
      → length (insert_by before x ys) ≡ suc (length ys)
  length-insert_by before x [] = refl
  length-insert_by before x (y ∷ ys) = ground (arith, length-insert_by before x ys)

  pub length-sort_by :
      (before : A → A → Bool) (xs : List A) → length (sort_by before xs) ≡ length xs
  length-sort_by before [] = refl
  length-sort_by before (x ∷ xs) =
      ground (arith, length-insert_by before x (sort_by before xs), length-sort_by before xs)

  -- A row that may stand before nothing else comes last.
  insert_by-append :
      (before : A → A → Bool) (y : A) (zs : List A) (x : A)
      → before y x ≡ true
      → insert_by before y (zs ++ x ∷ []) ≡ insert_by before y zs ++ x ∷ []
  insert_by-append before y [] x h = ground arith
  insert_by-append before y (z ∷ zs) x h = ground (arith, insert_by-append before y zs x h)

  pub sort_by-append_last :
      (before : A → A → Bool) (xs : List A) (x : A)
      → All (λ y. before y x ≡ true) xs
      → sort_by before (xs ++ x ∷ []) ≡ sort_by before xs ++ x ∷ []
  sort_by-append_last before [] x h = refl
  sort_by-append_last before (y ∷ ys) x (here, rest) =
      ap (insert_by before y) (sort_by-append_last before ys x rest)
      ∙ insert_by-append before y (sort_by before ys) x here

  module _ (key : A → ℕ) where
    abbrev pub IsSorted : List A → Type ℓ
    IsSorted [] = Unit
    IsSorted (x ∷ xs) = All (λ y. key x ≤ key y) xs × IsSorted xs

    All-insert_by :
        (n : ℕ) (before : A → A → Bool) (x : A) (ys : List A)
        → n ≤ key x
        → All (λ y. n ≤ key y) ys
        → All (λ y. n ≤ key y) (insert_by before x ys)
    All-insert_by n before x [] h all = (h, tt)
    All-insert_by n before x (y ∷ ys) h (here, rest) = elim (Bool-cases (before x y)) [
      | inl e ↦ rw e (h, (here, rest))
      | inr e ↦ rw e (here, All-insert_by n before x ys h rest)
    ]

    All-weaken : (m n : ℕ) (ys : List A) → m ≤ n → All (λ y. n ≤ key y) ys → All (λ y. m ≤ key y) ys
    All-weaken m n [] h all = tt
    All-weaken m n (y ∷ ys) h (here, rest) = (omega arith, All-weaken m n ys h rest)

    abbrev pub ascending : A → A → Bool
    ascending x y = leb (key x) (key y)

    insert_by-IsSorted : (x : A) (ys : List A) → IsSorted ys → IsSorted (insert_by ascending x ys)
    insert_by-IsSorted x [] s = (tt, tt)
    insert_by-IsSorted x (y ∷ ys) (least, s) = elim (Bool-cases (ascending x y)) [
      | inl e ↦
          let le : key x ≤ key y = ground arith in
          rw e ((le, All-weaken (key x) (key y) ys le least), (least, s))
      | inr e ↦
          rw e
            (All-insert_by (key y) ascending x ys (ground arith) least, insert_by-IsSorted x ys s)
    ]

    pub sort_by-IsSorted : (xs : List A) → IsSorted (sort_by ascending xs)
    sort_by-IsSorted [] = tt
    sort_by-IsSorted (x ∷ xs) = insert_by-IsSorted x (sort_by ascending xs) (sort_by-IsSorted xs)

    least_of :
        (n : ℕ) (xs : List A) (k : ℕ) {x : A}
        → All (λ y. n ≤ key y) xs
        → get_elem? xs k ≡ some x
        → n ≤ key x
    least_of n [] k all h = cc
    least_of n (y ∷ ys) zero {x} (here, rest) h = ground arith
    least_of n (y ∷ ys) (suc k) {x} (here, rest) h = least_of n ys k {x = x} rest h

    -- In ascending order, more than `k` rows are at most the one at place `k`.
    pub count_up_to :
        (xs : List A) (k : ℕ) {x : A}
        → IsSorted xs
        → get_elem? xs k ≡ some x
        → k < count_where (λ y. leb (key y) (key x)) xs
    count_up_to [] k s h = cc
    count_up_to (y ∷ ys) zero {x} s h = ground arith
    count_up_to (y ∷ ys) (suc k) {x} (least, s) h =
        ground (arith, count_up_to ys k {x = x} s h, least_of (key y) ys k {x = x} least h)

pub get_elem?-of_lt {ℓ} :
    {A : Type ℓ} (xs : List A) (k : ℕ) → k < length xs → (x : A) × (get_elem? xs k ≡ some x)
get_elem?-of_lt [] k h = absurd (omega arith)
get_elem?-of_lt (x ∷ xs) zero h = (x, refl)
get_elem?-of_lt (x ∷ xs) (suc k) h = get_elem?-of_lt xs k (omega arith)
