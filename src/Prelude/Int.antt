-- ===== src/Prelude/Int.antt =====
-- Signed integers over the native numbers, under the library's names.
use Prim.Native.Nat.{ℕ, zero, suc, ◌+◌, ◌-◌, ◌%◌}
use mathlib.Core.Path.{◌≡◌, refl}
use mathlib.Core.Logic.{◌↔◌, ◌⊎◌, inl, inr}
use mathlib.Core.Bool.{Bool, true, false}
use native.Mathlib.Omega.{arith}
use eventplus.Prelude.Tests.{ltb, ◌==◌, if◌then◌else◌}

-- `negsuc n` is -(n + 1).
pub data ℤ : Type 0 where
  pos : ℕ → ℤ
  negsuc : ℕ → ℤ

-- The -1 by which the calls of the operating system report an error.
abbrev pub minus_one : ℤ
minus_one = negsuc 0

abbrev pub int_eq : ℤ → ℤ → Bool
int_eq (pos a) (pos b) = a == b
int_eq (pos a) (negsuc b) = false
int_eq (negsuc a) (pos b) = false
int_eq (negsuc a) (negsuc b) = a == b

pub int_eq_iff : (a b : ℤ) → (int_eq a b ≡ true) ↔ (a ≡ b)
int_eq_iff (pos a) (pos b) = ground arith
int_eq_iff (pos a) (negsuc b) = ground arith
int_eq_iff (negsuc a) (pos b) = ground arith
int_eq_iff (negsuc a) (negsuc b) = ground arith

pub int_eq_refl : (a : ℤ) → int_eq a a ≡ true
int_eq_refl (pos a) = ground arith
int_eq_refl (negsuc a) = ground arith

-- An integer as the bit pattern of a word with `modulus` values (a conversion to unsigned).
abbrev pub to_word : ℕ → ℤ → ℕ
to_word modulus (pos n) = n % modulus
to_word modulus (negsuc n) = modulus - 1 - n % modulus

-- A bit pattern as the signed integer it stands for in two's complement: `half` is 2 ^ (w - 1).
abbrev pub of_word : ℕ → ℕ → ℤ
of_word half x = if ltb x half then pos x else negsuc (half + half - 1 - x)

-- The three answers that a call tells apart: an error, nothing, and something.
pub sign-cases : (a : ℤ) → ((n : ℕ) × (a ≡ negsuc n)) ⊎ (a ≡ pos 0) ⊎ ((n : ℕ) × (a ≡ pos (suc n)))
sign-cases (pos zero) = inr (inl refl)
sign-cases (pos (suc n)) = inr (inr (n, refl))
sign-cases (negsuc n) = inl (n, refl)
