-- ===== src/Prelude/Int.antt =====
-- The integers of the `int` counter columns, which `increment` and `decrement` move by one.
-- A decrement at 0 gives -1, as in Postgres. `negsuc n` is -(n + 1).
use Prim.Native.Nat.{ℕ, zero, suc}
use mathlib.Core.Path.{◌≡◌}
use mathlib.Core.Bool.{Bool, true, false}
use native.Mathlib.Omega.{arith}
use componi_back_nest.Prelude.Tests.{◌==◌}

pub data ℤ : Type 0 where
  pos : ℕ → ℤ
  negsuc : ℕ → ℤ

unfoldable pub inc : ℤ → ℤ
inc (pos n) = pos (suc n)
inc (negsuc zero) = pos 0
inc (negsuc (suc n)) = negsuc n

unfoldable pub dec : ℤ → ℤ
dec (pos zero) = negsuc 0
dec (pos (suc n)) = pos n
dec (negsuc n) = negsuc (suc n)

-- Is the integer the natural number n?
unfoldable pub is_nat : ℕ → ℤ → Bool
is_nat n (pos m) = m == n
is_nat n (negsuc m) = false

pub is_nat-inc : (n : ℕ) (z : ℤ) → is_nat n z ≡ true → is_nat (suc n) (inc z) ≡ true
unfolding is_nat inc
is_nat-inc n (pos m) h = ground arith
is_nat-inc n (negsuc m) h = ground arith

pub is_nat-dec : (n : ℕ) (z : ℤ) → is_nat (suc n) z ≡ true → is_nat n (dec z) ≡ true
unfolding is_nat dec
is_nat-dec n (pos zero) h = ground arith
is_nat-dec n (pos (suc m)) h = ground arith
is_nat-dec n (negsuc m) h = ground arith

pub is_nat-eq : (n : ℕ) (z : ℤ) → is_nat n z ≡ true → z ≡ pos n
unfolding is_nat
is_nat-eq n (pos m) h = ground arith
is_nat-eq n (negsuc m) h = ground arith
