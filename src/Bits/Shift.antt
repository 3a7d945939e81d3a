-- ===== src/Bits/Shift.antt =====
-- The bits of shifted words.
use native.Mathlib.Nat.{pow-suc, div-div-eq-div-mul}
use hyparm.Common.{
  ℕ, zero, suc, ◌+◌, ◌-◌, ◌*◌, ◌/◌, ◌%◌, ◌^◌, ◌≡◌, arith, ap, ltb, leb, if◌then◌else◌,
}
use hyparm.Bits.At.{bit_at, bit_at-zero}

pub double : (y k : ℕ) → y * 2 ^ suc k ≡ 2 * (y * 2 ^ k)
double y k = omega (arith, ap (λ (t : ℕ). y * t) (pow-suc 2 k))

pub bit_at-shift_left :
    (y k i : ℕ) → bit_at (y * 2 ^ k) i ≡ (if ltb i k then 0 else bit_at y (i - k))
unfolding bit_at
bit_at-shift_left y zero i =
    let same : y * 2 ^ 0 ≡ y = omega arith in
    let none_off : i - 0 ≡ i = omega arith in ground (arith, same, none_off)
bit_at-shift_left y (suc k) zero = ground (arith, double y k)
bit_at-shift_left y (suc k) (suc i) =
    let half : y * 2 ^ suc k / 2 ≡ y * 2 ^ k = omega (arith, double y k) in
    let off : suc i - suc k ≡ i - k = omega arith in
    rw half (ground (arith, bit_at-shift_left y k i))

pub bit_at-shift_right : (x k i : ℕ) → bit_at (x / 2 ^ k) i ≡ bit_at x (i + k)
unfolding bit_at
bit_at-shift_right x zero i =
    let none_off : i + 0 ≡ i = omega arith in
    let same : x / 2 ^ 0 ≡ x = omega arith in rw (none_off, same)
bit_at-shift_right x (suc k) i =
    let two : 2 ^ suc k ≡ 2 * 2 ^ k = omega (arith, pow-suc 2 k) in
    let further : i + suc k ≡ suc (i + k) = omega arith in
    rw (two, further, ← div-div-eq-div-mul) (bit_at-shift_right (x / 2) k i)

-- A field of four bits has no others.
pub bit_at-nibble : (x i : ℕ) → bit_at (x % 0x10) i ≡ (if leb i 3 then bit_at x i else 0)
unfolding bit_at
bit_at-nibble x zero = omega arith
bit_at-nibble x (suc zero) = omega arith
bit_at-nibble x (suc (suc zero)) = omega arith
bit_at-nibble x (suc (suc (suc zero))) = omega arith
bit_at-nibble x (suc (suc (suc (suc i)))) =
    let gone : x % 0x10 / 2 / 2 / 2 / 2 ≡ 0 = omega arith in rw gone (ground (arith, bit_at-zero i))
