-- ===== src/Intc/Masking.antt =====
-- What masking, unmasking and the mask test do to each interrupt line.
use hyparm.Common.{ℕ, ◌%◌, ◌^◌, ◌<◌, ◌≡◌, refl, arith, bit_and, bit_or}
use hyparm.Common.{ok, Returns, ◌==◌, if◌then◌else◌, ◌&&◌}
use hyparm.Common.{zero, suc, inl, inr}
use native.Mathlib.Nat.{pow-suc, zero-mul, one-mul}
use hyparm.Bits.{
  bit_at_cases, not32, bit_at, bit_at-bit_or, bit_at-bit_and, bit_at-pow, bit_at-not32,
  bit_at-le-one, two_pow-lt, bit_and-pow,
}
use hyparm.Intc.State.{InterruptController}
use hyparm.Intc.Views.{bank_of, mask_bit}
use hyparm.Intc.Banks.{mask_interrupt, unmask_interrupt, is_guest_irq_masked}

-- One bit of `word | (1 << i)` and of `word & ~(1 << i)`.
pub bit_at-set : (x i j : ℕ) → bit_at (bit_or x (2 ^ i)) j ≡ (if i == j then 1 else bit_at x j)
bit_at-set x i j = ground (arith, bit_at-bit_or x (2 ^ i) j, bit_at-pow i j, bit_at-le-one x j)

pub bit_at-clear :
    (x i j : ℕ)
    → i < 32
    → j < 32
    → bit_at (bit_and x (not32 (2 ^ i))) j ≡ (if i == j then 0 else bit_at x j)
bit_at-clear x i j hi hj = ground (
  arith,
  bit_at-bit_and x (not32 (2 ^ i)) j,
  bit_at-not32 (2 ^ i) j (two_pow-lt 32 i hi) hj,
  bit_at-pow i j,
  bit_at-le-one x j,
)

-- `maskInterrupt` of one of the 96 lines returns, with that line masked and the mask of each other
-- line as it was.
pub mask_interrupt_lem :
    (c : InterruptController) (n m : ℕ)
    → n < 96
    → m < 96
    → Returns (mask_interrupt c n) λ d. mask_bit d m ≡ (if n == m then 1 else mask_bit c m)
unfolding mask_interrupt
mask_interrupt_lem c n m h lt =
    let mask = 2 ^ (n % 32) in
    (
      bank_of n (record c { intc_mir0 = bit_or c.intc_mir0 mask })
          (record c { intc_mir1 = bit_or c.intc_mir1 mask })
          (record c { intc_mir2 = bit_or c.intc_mir2 mask }),
      ground arith,
      ground (
        arith,
        bit_at-set c.intc_mir0 (n % 32) (m % 32),
        bit_at-set c.intc_mir1 (n % 32) (m % 32),
        bit_at-set c.intc_mir2 (n % 32) (m % 32),
      ),
    )

-- `unmaskInterrupt` of one of the 96 lines returns, with that line unmasked and the mask of each
-- other line as it was.
pub unmask_interrupt_lem :
    (c : InterruptController) (n m : ℕ)
    → n < 96
    → m < 96
    → Returns (unmask_interrupt c n) λ d. mask_bit d m ≡ (if n == m then 0 else mask_bit c m)
unfolding unmask_interrupt
unmask_interrupt_lem c n m h lt =
    let mask = not32 (2 ^ (n % 32)) in
    (
      bank_of n (record c { intc_mir0 = bit_and c.intc_mir0 mask })
          (record c { intc_mir1 = bit_and c.intc_mir1 mask })
          (record c { intc_mir2 = bit_and c.intc_mir2 mask }),
      ground arith,
      ground (
        arith,
        bit_at-clear c.intc_mir0 (n % 32) (m % 32),
        bit_at-clear c.intc_mir1 (n % 32) (m % 32),
        bit_at-clear c.intc_mir2 (n % 32) (m % 32),
      ),
    )

two_pow-eq-one : (i : ℕ) → (2 ^ i == 1) ≡ (i == 0)
two_pow-eq-one zero = refl
two_pow-eq-one (suc i) = ground (arith, pow-suc 2 i)

bit_alone : (x i : ℕ) → (bit_and x (2 ^ i) == 1) ≡ (bit_at x i == 1 && i == 0)
bit_alone x i = elim (bit_at_cases x i) [
  | inl e ↦ rw (bit_and-pow x i, e, zero-mul)
  | inr e ↦ rw (bit_and-pow x i, e, one-mul, two_pow-eq-one i)
]

-- `isGuestIrqMasked` returns for each of the 96 lines, and answers that the line is masked only if
-- the line is the first of its bank and its mask bit is set.
pub is_guest_irq_masked_lem :
    (c : InterruptController) (n : ℕ)
    → n < 96
    → is_guest_irq_masked c n ≡ ok (mask_bit c n == 1 && n % 32 == 0)
unfolding is_guest_irq_masked
is_guest_irq_masked_lem c n h = ground (
  arith,
  bit_alone c.intc_mir0 (n % 32),
  bit_alone c.intc_mir1 (n % 32),
  bit_alone c.intc_mir2 (n % 32),
)
