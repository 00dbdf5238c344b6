-- ===== src/Prelude/Int.antt =====
-- Integers, for the `i64`s that are compared.
use Prim.Native.Nat.{ℕ}
use mathlib.Core.Path.{◌≡◌}
use mathlib.Core.Bool.{Bool, true, false}
use native.Mathlib.Omega.{arith}
use conductr.Prelude.Tests.{leb}

pub data ℤ : Type 0 where
  pos negsuc : ℕ → ℤ

abbrev pub int_le : ℤ → ℤ → Bool
int_le (pos m) (pos n) = leb m n
int_le (pos m) (negsuc n) = false
int_le (negsuc m) (pos n) = true
int_le (negsuc m) (negsuc n) = leb n m

pub int_le_refl : (a : ℤ) → int_le a a ≡ true
int_le_refl (pos m) = ground arith
int_le_refl (negsuc m) = ground arith

pub int_le_total : (a b : ℤ) → int_le a b ≡ false → int_le b a ≡ true
int_le_total (pos m) (pos n) h = ground arith
int_le_total (pos m) (negsuc n) h = ground arith
int_le_total (negsuc m) (pos n) h = ground arith
int_le_total (negsuc m) (negsuc n) h = ground arith

pub int_le_trans : (a b c : ℤ) → int_le a b ≡ true → int_le b c ≡ true → int_le a c ≡ true
int_le_trans (pos l) (pos m) (pos n) h k = ground arith
int_le_trans (negsuc l) (pos m) (pos n) h k = ground arith
int_le_trans (negsuc l) (negsuc m) (pos n) h k = ground arith
int_le_trans (negsuc l) (negsuc m) (negsuc n) h k = ground arith
int_le_trans a b c h k = ground arith
