-- ===== src/Bits/Step.antt =====
-- The native `bit_or` and `bit_and` stand for a recursion on binary digits with fuel. Here the
-- fuel is dropped: one equation for the lowest digit.
use Prim.Native.Nat.{digits, bit_and-bitwise, bit_or-bitwise}
use hyparm.Common.{
  ℕ, zero, suc, ◌+◌, ◌*◌, ◌/◌, ◌%◌, ◌≤◌, min, max, bit_and, bit_or, ◌≡◌, refl, arith,
}

module _ (z : ℕ → ℕ) (f : ℕ → ℕ → ℕ) where
  digits_enough : (n m x y : ℕ) → x ≤ n → x ≤ m → digits z f n x y ≡ digits z f m x y
  digits_enough zero zero x y p q = refl
  digits_enough zero (suc m) zero y p q = refl
  digits_enough zero (suc m) (suc x) y p q = absurd (omega arith)
  digits_enough (suc n) zero zero y p q = refl
  digits_enough (suc n) zero (suc x) y p q = absurd (omega arith)
  digits_enough (suc n) (suc m) zero y p q = refl
  digits_enough (suc n) (suc m) (suc x) y p q =
      rw (digits_enough n m (suc x / 2) (y / 2) (omega arith) (omega arith))

pub bit_or_step : (x y : ℕ) → bit_or x y ≡ bit_or (x / 2) (y / 2) * 2 + max (x % 2) (y % 2)
bit_or_step zero y = omega (arith, bit_or-bitwise 0 y, bit_or-bitwise 0 (y / 2))
bit_or_step (suc x) y = omega (
  arith,
  bit_or-bitwise (suc x) y,
  bit_or-bitwise (suc x / 2) (y / 2),
  digits_enough (λ d. d) max x (suc x / 2) (suc x / 2) (y / 2) (omega arith) (omega arith),
)

pub bit_and_step : (x y : ℕ) → bit_and x y ≡ bit_and (x / 2) (y / 2) * 2 + min (x % 2) (y % 2)
bit_and_step zero y = omega (arith, bit_and-bitwise 0 y, bit_and-bitwise 0 (y / 2))
bit_and_step (suc x) y = omega (
  arith,
  bit_and-bitwise (suc x) y,
  bit_and-bitwise (suc x / 2) (y / 2),
  digits_enough (λ d. 0) min x (suc x / 2) (suc x / 2) (y / 2) (omega arith) (omega arith),
)
