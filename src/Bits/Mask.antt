-- ===== src/Bits/Mask.antt =====
-- A mask of low bits is a remainder.
use native.Mathlib.Nat.{pow-suc, div-div-eq-div-mul}
use hyparm.Common.{ℕ, zero, suc, ◌+◌, ◌-◌, ◌*◌, ◌/◌, ◌%◌, ◌^◌, ◌<◌, bit_and, ◌≡◌, arith, ap}
use hyparm.Bits.Step.{bit_and_step}
use hyparm.Bits.At.{bit_at, bit_and-zero, one-le-two_pow}

low_digits : (k q r : ℕ) → r < 2 ^ k → bit_and (q * 2 ^ k + r) (2 ^ k - 1) ≡ r
low_digits zero q r h = omega (arith, bit_and-zero (q * 1 + r))
low_digits (suc k) q r h =
    let two : 2 ^ suc k ≡ 2 * 2 ^ k = omega (arith, pow-suc 2 k) in
    let wide : q * 2 ^ suc k ≡ 2 * (q * 2 ^ k) = omega (arith, ap (λ (t : ℕ). q * t) two) in
    let half : (q * 2 ^ suc k + r) / 2 ≡ q * 2 ^ k + r / 2 = omega arith in
    let mask : (2 ^ suc k - 1) / 2 ≡ 2 ^ k - 1 = omega (arith, one-le-two_pow k) in
    let rest : bit_and ((q * 2 ^ suc k + r) / 2) ((2 ^ suc k - 1) / 2) ≡ r / 2 =
      rw (half, mask) (low_digits k q (r / 2) (omega arith)) in
    omega (arith, bit_and_step (q * 2 ^ suc k + r) (2 ^ suc k - 1), one-le-two_pow k)

pub bit_and_mask : (k a : ℕ) → bit_and a (2 ^ k - 1) ≡ a % 2 ^ k
bit_and_mask k a =
    let split : a / 2 ^ k * 2 ^ k + a % 2 ^ k ≡ a = grind (arith, one-le-two_pow k) in
    let small : a % 2 ^ k < 2 ^ k = grind (arith, one-le-two_pow k) in
    rw split at (low_digits k (a / 2 ^ k) (a % 2 ^ k) small)

-- `(x >> i) & 1`, as the source writes it.
pub shift_bit : (x i : ℕ) → x / 2 ^ i % 2 ≡ bit_at x i
unfolding bit_at
shift_bit x zero = omega arith
shift_bit x (suc i) =
    let two : 2 ^ suc i ≡ 2 * 2 ^ i = omega (arith, pow-suc 2 i) in
    rw (two, ← div-div-eq-div-mul) (shift_bit (x / 2) i)
