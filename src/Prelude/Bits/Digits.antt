-- ===== src/Prelude/Bits/Digits.antt =====
-- One equation for the lowest digit of each bit operation, from the native definition by digits.
use Prim.Native.Nat.{ℕ, zero, suc, ◌+◌, ◌*◌, ◌/◌, ◌%◌, ◌≤◌, ◌<◌, min, max, differ}
use Prim.Native.Nat.{bit_and, bit_or, bit_xor, digits}
use Prim.Native.Nat.{bit_and-bitwise, bit_or-bitwise, bit_xor-bitwise}
use mathlib.Core.Path.{◌≡◌, refl}
use native.Mathlib.Omega.{arith}

module _ (z : ℕ → ℕ) (f : ℕ → ℕ → ℕ) where
  -- Any count of digits that is at least the first operand gives the same result.
  enough : (n m a b : ℕ) → a ≤ n → a ≤ m → digits z f n a b ≡ digits z f m a b
  enough zero zero zero b p q = refl
  enough zero zero (suc a) b p q = absurd (omega arith)
  enough zero (suc m) zero b p q = refl
  enough zero (suc m) (suc a) b p q = absurd (omega arith)
  enough (suc n) zero zero b p q = refl
  enough (suc n) zero (suc a) b p q = absurd (omega arith)
  enough (suc n) (suc m) zero b p q = refl
  enough (suc n) (suc m) (suc a) b p q =
      rw (enough n m (suc a / 2) (b / 2) (omega arith) (omega arith))

  lowest :
      (a b : ℕ)
      → digits z f (suc a) (suc a) b
        ≡ digits z f (suc a / 2) (suc a / 2) (b / 2) * 2 + f (suc a % 2) (b % 2)
  lowest a b = omega (arith, enough a (suc a / 2) (suc a / 2) (b / 2) (omega arith) (omega arith))

pub and-step : (a b : ℕ) → bit_and a b ≡ bit_and (a / 2) (b / 2) * 2 + min (a % 2) (b % 2)
and-step zero b = simp bit_and-bitwise (omega arith)
and-step (suc a) b = simp bit_and-bitwise (lowest (λ y. 0) min a b)

pub or-step : (a b : ℕ) → bit_or a b ≡ bit_or (a / 2) (b / 2) * 2 + max (a % 2) (b % 2)
or-step zero b = simp bit_or-bitwise (omega arith)
or-step (suc a) b = simp bit_or-bitwise (lowest (λ y. y) max a b)

differ-zero : (b : ℕ) → b < 2 → differ 0 b ≡ b
differ-zero zero h = refl
differ-zero (suc zero) h = refl
differ-zero (suc (suc b)) h = absurd (omega arith)

pub xor-step : (a b : ℕ) → bit_xor a b ≡ bit_xor (a / 2) (b / 2) * 2 + differ (a % 2) (b % 2)
xor-step zero b = simp bit_xor-bitwise (omega (arith, differ-zero (b % 2) (omega arith)))
xor-step (suc a) b = simp bit_xor-bitwise (lowest (λ y. y) differ a b)

pub differ-zero_right : (a : ℕ) → a < 2 → differ a 0 ≡ a
differ-zero_right zero h = refl
differ-zero_right (suc zero) h = refl
differ-zero_right (suc (suc a)) h = absurd (omega arith)
