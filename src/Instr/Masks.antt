-- ===== src/Instr/Masks.antt =====
-- The masks of src/instructionEmu/loadStoreDecode.h, as the fields of an instruction.
use hyparm.Common.{
  ℕ, zero, suc, ◌+◌, ◌-◌, ◌*◌, ◌/◌, ◌%◌, ◌^◌, bit_and, ◌<◌, ◌≡◌, ◌≢◌, refl, ap, ◌∙◌, arith, false,
  min,
}
use native.Mathlib.Nat.{pow-suc, div-div-eq-div-mul}
use hyparm.Bits.{double, bit_and-zero, bit_and_step, bit_and_mask, bit_and_high}
use hyparm.Instr.Emulate.{matches}

bit_and-one : (x : ℕ) → bit_and x 1 ≡ x % 2
bit_and-one x = bit_and_mask 1 x

-- Bits 7 to 5, 2 and 0.
kind_bits : (x : ℕ) → bit_and x 0xe5 ≡ x / 32 % 8 * 32 + x / 4 % 2 * 4 + x % 2
kind_bits x =
    let s0 : bit_and x 0xe5 ≡ bit_and (x / 2) 0x72 * 2 + min (x % 2) 1 = bit_and_step x 0xe5 in
    let s1 : bit_and (x / 2) 0x72 ≡ bit_and (x / 2 / 2) 0x39 * 2 = bit_and_high 1 (x / 2) 0x39 in
    let s2 : bit_and (x / 2 / 2) 0x39 ≡ bit_and (x / 2 / 2 / 2) 0x1c * 2 + min (x / 2 / 2 % 2) 1 =
      bit_and_step (x / 2 / 2) 0x39 in
    let s3 : bit_and (x / 2 / 2 / 2) 0x1c ≡ bit_and (x / 2 / 2 / 2 / 4) 7 * 4 =
      bit_and_high 2 (x / 2 / 2 / 2) 7 in
    let s4 : bit_and (x / 2 / 2 / 2 / 4) 7 ≡ x / 2 / 2 / 2 / 4 % 8 = bit_and_mask 3 _ in
    rw (s0, s1, s2, s3, s4) (omega arith)

pub kind_mask :
    (x : ℕ)
    → bit_and x 0x0e50_0000 ≡ (x / 2 ^ 25 % 8 * 32 + x / 2 ^ 22 % 2 * 4 + x / 2 ^ 20 % 2) * 2 ^ 20
kind_mask x =
    let e : bit_and x 0x0e50_0000 ≡ bit_and (x / 2 ^ 20) 0xe5 * 2 ^ 20 = bit_and_high 20 x 0xe5 in
    rw (e, kind_bits (x / 2 ^ 20)) (omega arith)

-- The high part of a mask, and the rest.
pub bit_and_split :
    (k x m r : ℕ)
    → r < 2 ^ k
    → bit_and x (m * 2 ^ k + r) ≡ bit_and (x / 2 ^ k) m * 2 ^ k + bit_and x r
bit_and_split zero x m r h =
    let none : r ≡ 0 = omega (arith, h) in
    let same : x / 1 ≡ x = omega arith in
    let wide : m * 1 + 0 ≡ m = omega arith in rw (none, same, wide, bit_and-zero x) (omega arith)
bit_and_split (suc k) x m r h =
    let half : (m * 2 ^ suc k + r) / 2 ≡ m * 2 ^ k + r / 2 = omega (arith, double m k) in
    let two : 2 ^ suc k ≡ 2 * 2 ^ k = omega (arith, pow-suc 2 k) in
    let far : x / 2 ^ suc k ≡ x / 2 / 2 ^ k = rw (two, ← div-div-eq-div-mul) in
    let rest : bit_and (x / 2) ((m * 2 ^ suc k + r) / 2)
        ≡ bit_and (x / 2 ^ suc k) m * 2 ^ k + bit_and (x / 2) (r / 2) =
      rw (half, far) (bit_and_split k (x / 2) m (r / 2) (omega (arith, h, pow-suc 2 k))) in
    omega (
      arith,
      rest,
      bit_and_step x (m * 2 ^ suc k + r),
      bit_and_step x r,
      double m k,
      double (bit_and (x / 2 ^ suc k) m) k,
    )

bit_and_div : (k x m : ℕ) → bit_and x m / 2 ^ k ≡ bit_and (x / 2 ^ k) (m / 2 ^ k)
bit_and_div zero x m =
    let all : (y : ℕ) → y / 1 ≡ y = λ y. omega arith in rw (all x, all m, all (bit_and x m)) refl
bit_and_div (suc k) x m =
    let two : 2 ^ suc k ≡ 2 * 2 ^ k = omega (arith, pow-suc 2 k) in
    let far : (y : ℕ) → y / 2 ^ suc k ≡ y / 2 / 2 ^ k = λ y. rw (two, ← div-div-eq-div-mul) in
    let one : bit_and x m / 2 ≡ bit_and (x / 2) (m / 2) = omega (arith, bit_and_step x m) in
    rw (far x, far m, far (bit_and x m), one) (bit_and_div k (x / 2) (m / 2))

-- An instruction of another class.
pub other_class :
    (x mask masked : ℕ)
    → mask / 2 ^ 25 ≡ 7
    → x / 2 ^ 25 % 8 ≢ masked / 2 ^ 25
    → matches x mask masked ≡ false
other_class x mask masked full apart =
    let e : bit_and x mask / 2 ^ 25 ≡ x / 2 ^ 25 % 8 =
      bit_and_div 25 x mask ∙ ap (bit_and (x / 2 ^ 25)) full ∙ bit_and_mask 3 (x / 2 ^ 25) in
    ground (arith, e, apart)

-- With bit 4.
pub kind_mask_4 :
    (x : ℕ)
    → bit_and x 0x0e50_0010
      ≡ (x / 2 ^ 25 % 8 * 32 + x / 2 ^ 22 % 2 * 4 + x / 2 ^ 20 % 2) * 2 ^ 20 + x / 2 ^ 4 % 2 * 2 ^ 4
kind_mask_4 x =
    let split : bit_and x 0x0e50_0010 ≡ bit_and (x / 2 ^ 20) 0xe5 * 2 ^ 20 + bit_and x 0x10 =
      bit_and_split 20 x 0xe5 0x10 (omega arith) in
    let low : bit_and x 0x10 ≡ bit_and (x / 2 ^ 4) 1 * 2 ^ 4 = bit_and_high 4 x 1 in
    let one : bit_and (x / 2 ^ 4) 1 ≡ x / 2 ^ 4 % 2 = bit_and_mask 1 (x / 2 ^ 4) in
    rw (split, low, one, kind_bits (x / 2 ^ 20)) (omega arith)

-- The kind, and bits below bit 20.
pub kind_mask_and :
    (x r : ℕ)
    → r < 2 ^ 20
    → bit_and x (0xe5 * 2 ^ 20 + r)
      ≡ (x / 2 ^ 25 % 8 * 32 + x / 2 ^ 22 % 2 * 4 + x / 2 ^ 20 % 2) * 2 ^ 20 + bit_and x r
kind_mask_and x r h = rw (bit_and_split 20 x 0xe5 r h, kind_bits (x / 2 ^ 20)) (omega arith)

-- `w` bits from bit 4 on.
pub low_mask : (w x : ℕ) → bit_and x ((2 ^ w - 1) * 2 ^ 4) ≡ x / 2 ^ 4 % 2 ^ w * 2 ^ 4
low_mask w x = rw (bit_and_high 4 x (2 ^ w - 1), bit_and_mask w (x / 2 ^ 4)) refl

pub mask_90 : (x : ℕ) → bit_and x 0x90 ≡ x / 2 ^ 7 % 2 * 2 ^ 7 + x / 2 ^ 4 % 2 * 2 ^ 4
mask_90 x =
    let split : bit_and x 0x90 ≡ bit_and (x / 2 ^ 7) 1 * 2 ^ 7 + bit_and x 0x10 =
      bit_and_split 7 x 1 0x10 (omega arith) in
    let low : bit_and x 0x10 ≡ x / 2 ^ 4 % 2 * 2 ^ 4 = low_mask 1 x in
    rw (split, low, bit_and_mask 1 (x / 2 ^ 7)) refl

pub mask_f90 :
    (x : ℕ)
    → bit_and x 0xf90 ≡ x / 2 ^ 8 % 16 * 2 ^ 8 + (x / 2 ^ 7 % 2 * 2 ^ 7 + x / 2 ^ 4 % 2 * 2 ^ 4)
mask_f90 x =
    let split : bit_and x 0xf90 ≡ bit_and (x / 2 ^ 8) 0xf * 2 ^ 8 + bit_and x 0x90 =
      bit_and_split 8 x 0xf 0x90 (omega arith) in
    let high : bit_and (x / 2 ^ 8) 0xf ≡ x / 2 ^ 8 % 16 = bit_and_mask 4 (x / 2 ^ 8) in
    rw (split, mask_90 x, high) refl
