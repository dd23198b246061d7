-- ===== src/Groups/Numbers.antt =====
-- `COALESCE(MAX(seq), 0) + 1` of store/group.go is above every number that it ranges over.
use etemsg_server.Base.{
  ℕ, ◌+◌, ◌≤◌, ◌<◌, Bool, true, ◌≡◌, refl, Option, none, some, List, arith, All, All-map,
}
use etemsg_server.Base.Table.{max_where}
use etemsg_server.Base.Table.Rows.{Bounds, All-of_Bounds}
use etemsg_server.Groups.Log.{after_max}

Bounds-after_max : (o : Option ℕ) (n : ℕ) → n + 1 ≡ after_max o → Bounds n o
Bounds-after_max none n e = tt
Bounds-after_max (some m) n e = omega arith

after_max_pred : (o : Option ℕ) → (n : ℕ) × (n + 1 ≡ after_max o)
after_max_pred none = (0, refl)
after_max_pred (some m) = (m, refl)

pub below_after_max {ℓ} :
    {A : Type ℓ} (p : A → Bool) (key : A → ℕ) (xs : List A)
    → All (λ x. p x ≡ true → key x < after_max (max_where p key xs)) xs
below_after_max p key xs =
    let o = max_where p key xs in
    let (n, e) = after_max_pred o in
    All-map (λ x. p x ≡ true → key x ≤ n) (λ x. p x ≡ true → key x < after_max o) xs
      (λ x f h. omega (arith, f h, e)) (All-of_Bounds p key n xs (Bounds-after_max o n e))
