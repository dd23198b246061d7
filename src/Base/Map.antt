-- ===== src/Base/Map.antt =====
-- A Go `map[string]V` as an association list: lookup, assignment and `delete`, with their laws.
use Prim.Native.String.{String}
use mathlib.Core.Path.{◌≡◌}
use mathlib.Core.Logic.{◌≢◌, ◌⊎◌}
use mathlib.Core.List.{List, [], ◌∷◌}
use mathlib.Core.Option.{Option, none, some}
use native.Mathlib.Omega.{arith}
use etemsg_server.Base.Tests.{◌==◌, if◌then◌else◌}

abbrev pub Map {ℓ} : Type ℓ → Type ℓ
Map V = List (String × V)

module _ {ℓ} {V : Type ℓ} where
  unfoldable pub lookup : String → Map V → Option V
  lookup k [] = none
  lookup k ((j, v) ∷ m) = if j == k then some v else lookup k m

  unfoldable pub erase : String → Map V → Map V
  erase k [] = []
  erase k ((j, v) ∷ m) = let rest = erase k m in if j == k then rest else (j, v) ∷ rest

  unfoldable pub put : String → V → Map V → Map V
  unfolding erase
  put k v m = (k, v) ∷ erase k m

  pub lookup-erase :
      (k j : String) (m : Map V) → lookup j (erase k m) ≡ (if k == j then none else lookup j m)
  unfolding lookup erase
  lookup-erase k j [] = ground arith
  lookup-erase k j ((i, v) ∷ m) = ground (arith, lookup-erase k j m)

  pub lookup-put :
      (k j : String) (v : V) (m : Map V)
      → lookup j (put k v m) ≡ (if k == j then some v else lookup j m)
  unfolding lookup put
  lookup-put k j v m = ground (arith, lookup-erase k j m)

pub ruleset map_laws = (lookup-erase, lookup-put)

module _ {ℓ} {V : Type ℓ} where
  -- Where an entry of the changed map comes from.
  pub lookup-put_cases :
      (k j : String) (v : V) (m : Map V) {w : V}
      → lookup j (put k v m) ≡ some w
      → ((k ≡ j) × (w ≡ v)) ⊎ ((k ≢ j) × (lookup j m ≡ some w))
  lookup-put_cases k j v m h = ground (arith, lookup-put k j v m)

  pub lookup-erase_cases :
      (k j : String) (m : Map V) {w : V}
      → lookup j (erase k m) ≡ some w
      → (k ≢ j) × (lookup j m ≡ some w)
  lookup-erase_cases k j m h = ground (arith, lookup-erase k j m)

  pub lookup-put_self : (k : String) (v : V) (m : Map V) → lookup k (put k v m) ≡ some v
  lookup-put_self k v m = ground (arith, lookup-put k k v m)

  pub lookup-erase_self : (k : String) (m : Map V) → lookup k (erase k m) ≡ none
  lookup-erase_self k m = ground (arith, lookup-erase k k m)
