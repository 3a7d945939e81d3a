-- ===== src/Bits/Field.antt =====
-- A mask that leaves out the low bits, and the union of a word with low bits that it does not have.
use native.Mathlib.Nat.{pow-suc, div-div-eq-div-mul}
use hyparm.Common.{ℕ, zero, suc, ◌+◌, ◌*◌, ◌/◌, ◌^◌, ◌<◌, bit_and, bit_or, ◌≡◌, arith}
use hyparm.Bits.Step.{bit_and_step, bit_or_step}
use hyparm.Bits.At.{bit_or-zero}
use hyparm.Bits.Shift.{double}

-- `x & (m << k)`
pub bit_and_high : (k x m : ℕ) → bit_and x (m * 2 ^ k) ≡ bit_and (x / 2 ^ k) m * 2 ^ k
bit_and_high zero x m =
    let same : x / 1 ≡ x = omega arith in
    let wide : m * 1 ≡ m = omega arith in rw (same, wide) (omega arith)
bit_and_high (suc k) x m =
    let half : m * 2 ^ suc k / 2 ≡ m * 2 ^ k = omega (arith, double m k) in
    let two : 2 ^ suc k ≡ 2 * 2 ^ k = omega (arith, pow-suc 2 k) in
    let far : x / 2 ^ suc k ≡ x / 2 / 2 ^ k = rw (two, ← div-div-eq-div-mul) in
    let rest : bit_and (x / 2) (m * 2 ^ suc k / 2) ≡ bit_and (x / 2 ^ suc k) m * 2 ^ k =
      rw (half, far) (bit_and_high k (x / 2) m) in
    omega (arith, bit_and_step x (m * 2 ^ suc k), double m k, double (bit_and (x / 2 ^ suc k) m) k)

-- `(q << k) | r`
pub bit_or_low : (k q r : ℕ) → r < 2 ^ k → bit_or (q * 2 ^ k) r ≡ q * 2 ^ k + r
bit_or_low zero q r h =
    let none_left : r ≡ 0 = omega arith in
    let wide : q * 1 ≡ q = omega arith in rw (none_left, wide) (omega (arith, bit_or-zero q))
bit_or_low (suc k) q r h =
    let half : q * 2 ^ suc k / 2 ≡ q * 2 ^ k = omega (arith, double q k) in
    let rest : bit_or (q * 2 ^ suc k / 2) (r / 2) ≡ q * 2 ^ k + r / 2 =
      rw half (bit_or_low k q (r / 2) (omega (arith, pow-suc 2 k))) in
    omega (arith, bit_or_step (q * 2 ^ suc k) r, double q k)

bit_or-comm_at : (w a b : ℕ) → a < 2 ^ w → b < 2 ^ w → bit_or a b ≡ bit_or b a
bit_or-comm_at zero a b ha hb =
    let e : a ≡ 0 = omega arith in let f : b ≡ 0 = omega arith in rw (e, f)
bit_or-comm_at (suc w) a b ha hb =
    let rest =
      bit_or-comm_at w (a / 2) (b / 2) (omega (arith, pow-suc 2 w)) (omega (arith, pow-suc 2 w)) in
    omega (arith, bit_or_step a b, bit_or_step b a, rest)

pub bit_or-comm_word : (a b : ℕ) → a < 2 ^ 32 → b < 2 ^ 32 → bit_or a b ≡ bit_or b a
bit_or-comm_word a b = bit_or-comm_at 32 a b
