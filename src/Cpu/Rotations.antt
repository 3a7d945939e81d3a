-- ===== src/Cpu/Rotations.antt =====
-- The two rotations of the source, a loop and a pair of shifts, do the same.
use native.Mathlib.Nat.{div-le_self}
use hyparm.Common.{
  ℕ, zero, suc, ◌+◌, ◌-◌, ◌*◌, ◌/◌, ◌%◌, ◌^◌, ◌≤◌, ◌<◌, ◌≡◌, refl, arith, bit_and, bit_or, Bool,
  ◌==◌, ok, ◌⊎◌, inl, inr, Bool-cases, ap, sym, ◌∙◌,
}
use hyparm.Bits.{
  bit_and_step, bit_at, bit_at_ext, bit_at-bit_and, bit_at-bit_or, bit_at-not32, bit_at-pow,
  bit_at-zero, bit_at-shift_left, bit_at-shift_right, bit_or-lt, bit_and-le, bit_and-pow,
  bit_and_mask, bit_at-le-one,
}
use hyparm.Cpu.Shifts.{ror_once, ror_val, arm_expand_imm12, ror_carry, shift_carry, arm_expand_imm}

bit_at-high : (x i : ℕ) → x < 2 ^ 32 → 32 ≤ i → bit_at x i ≡ 0
bit_at-high x i h k =
    let back : i - 32 + 32 ≡ i = omega arith in
    let gone : x / 2 ^ 32 ≡ 0 = omega arith in
    let bits = rw (back, gone) at (bit_at-shift_right x 32 (i - 32)) in
    omega (arith, bits, bit_at-zero (i - 32))

bit_at-wrap : (x i : ℕ) → i < 32 → bit_at (x % 2 ^ 32) i ≡ bit_at x i
bit_at-wrap x i h =
    let same = bit_and_mask 32 x in
    rw (← same) (
      omega (
        arith,
        bit_at-bit_and x (2 ^ 32 - 1) i,
        bit_at-not32 0 i (omega arith) h,
        bit_at-zero i,
        bit_at-le-one x i,
      ))

bit_at-half : (x j : ℕ) → bit_at (x / 2) j ≡ bit_at x (j + 1)
bit_at-half x j = bit_at-shift_right x 1 j

ror_once-lt : (x : ℕ) → x < 2 ^ 32 → ror_once x < 2 ^ 32
unfolding ror_once
ror_once-lt x h = ground (arith, bit_or-lt 32 (x / 2) 0x8000_0000, bit_and-le (x / 2) 0x7fff_ffff)

bit_at-ror_once : (x j : ℕ) → x < 2 ^ 32 → j < 32 → bit_at (ror_once x) j ≡ bit_at x ((j + 1) % 32)
unfolding ror_once
bit_at-ror_once x j h k = elim (last_or_not j k) [
  | inl e ↦ rw e (
      ground (
        arith,
        bit_and-pow x 0,
        bit_at-bit_or (x / 2) 0x8000_0000 31,
        bit_at-pow 31 31,
        bit_at-half x 31,
        bit_at-high x 32,
        bit_and_mask 31 (x / 2),
        bit_at-le-one x 0,
      ))
  | inr (apart, f) ↦ rw f (
      ground (
        arith,
        bit_and-pow x 0,
        bit_at-bit_or (x / 2) 0x8000_0000 j,
        bit_at-pow 31 j,
        bit_at-half x j,
        bit_and_mask 31 (x / 2),
        bit_at-le-one x (j + 1),
      ))
]
  where
    last_or_not : (j : ℕ) → j < 32 → (j ≡ 31) ⊎ ((j < 31) × ((j + 1) % 32 ≡ j + 1))
    last_or_not j k = omega arith

ror_val-lt : (n x : ℕ) → x < 2 ^ 32 → ror_val x n < 2 ^ 32
unfolding ror_val
ror_val-lt zero x h = h
ror_val-lt (suc n) x h = ror_val-lt n (ror_once x) (ror_once-lt x h)

bit_at-ror_val :
    (n x i : ℕ) → x < 2 ^ 32 → i < 32 → bit_at (ror_val x n) i ≡ bit_at x ((i + n) % 32)
unfolding ror_val
bit_at-ror_val zero x i h k = let e : (i + 0) % 32 ≡ i = omega arith in rw e
bit_at-ror_val (suc n) x i h k =
    let e : ((i + n) % 32 + 1) % 32 ≡ (i + suc n) % 32 = omega arith in
    rw (bit_at-ror_val n (ror_once x) i (ror_once-lt x h) k, ← e)
      (bit_at-ror_once x ((i + n) % 32) h (omega arith))

-- The right shift is below the word, and so is the left one.
shifts-lt : (x n : ℕ) → x < 2 ^ 32 → bit_or (x / 2 ^ n) (x * 2 ^ (32 - n) % 2 ^ 32) < 2 ^ 32
shifts-lt x n h =
    bit_or-lt 32 (x / 2 ^ n) (x * 2 ^ (32 - n) % 2 ^ 32) (omega (arith, div-le_self x (2 ^ n)))
      (omega arith)

bit_at-ror_carry :
    (x n i : ℕ)
    → x < 2 ^ 32
    → i < 32
    → n < 32
    → bit_at (ror_carry x n).val i ≡ bit_at x ((i + n) % 32)
unfolding ror_carry
bit_at-ror_carry x n i h k lt = elim (wraps i n k lt) [
  | inl (e, f) ↦ rw f (
      ground (
        arith,
        bit_at-bit_or (x / 2 ^ n) (x * 2 ^ (32 - n) % 2 ^ 32) i,
        bit_at-shift_right x n i,
        bit_at-wrap (x * 2 ^ (32 - n)) i,
        bit_at-shift_left x (32 - n) i,
      ))
  | inr (e, far, f) ↦
      let same : i - (32 - n) ≡ i + n - 32 = omega arith in
      rw f (
        ground (
          arith,
          bit_at-bit_or (x / 2 ^ n) (x * 2 ^ (32 - n) % 2 ^ 32) i,
          bit_at-shift_right x n i,
          bit_at-high x (i + n),
          bit_at-wrap (x * 2 ^ (32 - n)) i,
          bit_at-shift_left x (32 - n) i,
          same,
        ))
]
  where
    wraps :
        (i n : ℕ)
        → i < 32
        → n < 32
        → ((i < 32 - n) × ((i + n) % 32 ≡ i + n))
          ⊎ ((32 - n ≤ i) × (32 ≤ i + n) × ((i + n) % 32 ≡ i + n - 32))
    wraps i n k lt = omega arith

ror_carry-ror_val : (x n : ℕ) → x < 2 ^ 32 → n < 32 → (ror_carry x n).val ≡ ror_val x n
unfolding ror_carry
ror_carry-ror_val x n h k =
    bit_at_ext 32 _ (ror_val x n) (shifts-lt x n h) (ror_val-lt n x h)
      λ i lt. bit_at-ror_carry x n i h lt k ∙ sym (bit_at-ror_val n x i h lt)

even_digits : (x a : ℕ) → a % 2 ≡ 0 → bit_and x a ≡ bit_and (x / 2) (a / 2) * 2
even_digits x a h = omega (arith, bit_and_step x a)

-- The rotation field stands at bit 8.
rotation_field : (x : ℕ) → (t : ℕ) × (bit_and x 0xf00 ≡ t * 0x100) × (t < 0x10)
rotation_field x =
    let y = x / 2 / 2 / 2 / 2 in
    let z = y / 2 / 2 / 2 / 2 in
    let nibble : bit_and z 0xf ≡ z % 0x10 = bit_and_mask 4 z in
    (
      z % 0x10,
      omega (
        arith,
        nibble,
        even_digits x 0xf00 refl,
        even_digits (x / 2) 0x780 refl,
        even_digits (x / 2 / 2) 0x3c0 refl,
        even_digits (x / 2 / 2 / 2) 0x1e0 refl,
        even_digits y 0xf0 refl,
        even_digits (y / 2) 0x78 refl,
        even_digits (y / 2 / 2) 0x3c refl,
        even_digits (y / 2 / 2 / 2) 0x1e refl,
      ),
      omega arith,
    )

-- `armExpandImm`, by shifts, returns for every immediate and carry, with the value that
-- `armExpandImm12` reaches by its loop.
pub arm_expand_imm_lem :
    (imm12 : ℕ) (carry_in : Bool) → arm_expand_imm imm12 carry_in ≡ ok (arm_expand_imm12 imm12)
unfolding arm_expand_imm arm_expand_imm12 shift_carry ror_val
arm_expand_imm_lem imm12 carry_in =
    let (t, field, small) = rotation_field imm12 in
    let half : t * 0x100 / 2 ^ 7 ≡ t * 2 = omega arith in
    let whole : t * 0x100 / 2 ^ 8 ≡ t = omega arith in
    let value = bit_and imm12 0xff in
    let fits : value < 2 ^ 32 = omega (arith, bit_and_mask 8 imm12) in
    rw (field, half, whole)
      (elim (Bool-cases (t * 2 == 0)) [
        | inl e ↦ let none_left : t * 2 ≡ 0 = ground arith in rw (e, none_left)
        | inr e ↦ rw e (ap ok (ror_carry-ror_val value (t * 2) fits (omega arith)))
      ])
