-- ===== src/Base/Int.antt =====
-- The signed `int64` values of requests and epochs, with the tests that the code makes on them.
-- `negsuc n` is -(n + 1).
use Prim.Native.Nat.{ℕ}
use mathlib.Core.Path.{◌≡◌}
use mathlib.Core.Bool.{Bool, true, false}
use native.Mathlib.Omega.{arith}
use etemsg_server.Base.Tests.{ltb, leb, ◌=ℕ◌}

pub data ℤ : Type 0 where
  pos : ℕ → ℤ
  negsuc : ℕ → ℤ

abbrev pub int_ltb : ℤ → ℤ → Bool
int_ltb (pos a) (pos b) = ltb a b
int_ltb (pos a) (negsuc b) = false
int_ltb (negsuc a) (pos b) = true
int_ltb (negsuc a) (negsuc b) = ltb b a

abbrev pub int_leb : ℤ → ℤ → Bool
int_leb (pos a) (pos b) = leb a b
int_leb (pos a) (negsuc b) = false
int_leb (negsuc a) (pos b) = true
int_leb (negsuc a) (negsuc b) = leb b a

abbrev pub int_eq : ℤ → ℤ → Bool
int_eq (pos a) (pos b) = a =ℕ b
int_eq (pos a) (negsuc b) = false
int_eq (negsuc a) (pos b) = false
int_eq (negsuc a) (negsuc b) = a =ℕ b

-- `a` is less than `b`, as the tests decide it.
infix 50 ◌<ℤ◌ ◌≤ℤ◌
abbrev pub ◌<ℤ◌ : ℤ → ℤ → Type 0
a <ℤ b = int_ltb a b ≡ true

abbrev pub ◌≤ℤ◌ : ℤ → ℤ → Type 0
a ≤ℤ b = int_leb a b ≡ true

pub int_eq_path : (a b : ℤ) → int_eq a b ≡ true → a ≡ b
int_eq_path a b h = ground arith

pub int_eq_refl : (a : ℤ) → int_eq a a ≡ true
int_eq_refl a = ground arith

pub leb_false-<ℤ : (a b : ℤ) → int_leb a b ≡ false → b <ℤ a
leb_false-<ℤ a b h = ground arith

pub ≤ℤ_trans_lt : (a b c : ℤ) → a ≤ℤ b → b <ℤ c → a ≤ℤ c
≤ℤ_trans_lt a b c h k = ground arith

pub <ℤ_trans : (a b c : ℤ) → a <ℤ b → b <ℤ c → a <ℤ c
<ℤ_trans a b c h k = ground arith

pub ≤ℤ_refl : (a : ℤ) → a ≤ℤ a
≤ℤ_refl a = ground arith

pub lt-not-le : (a b : ℤ) → a <ℤ b → int_leb b a ≡ false
lt-not-le a b h = ground arith

pub int_eq_ne : (a b : ℤ) → a <ℤ b → int_eq a b ≡ false
int_eq_ne a b h = ground arith
