-- ===== src/Intc/Invariant.antt =====
-- What holds of the controller at all times: registers of 32 bits, 96 priorities, and the
-- registers that nothing ever sets.
use hyparm.Common.{ℕ, ◌%◌, ◌^◌, ◌<◌, ◌≡◌, arith, length}
use hyparm.Common.{>>=-eq-ok, die-ne-ok, leb, Bool-cases, inl, inr, ok}
use hyparm.Bits.{not32, bit_or-lt, bit_and-le, two_pow-lt}
use hyparm.Intc.State.{InterruptController, intc_reset}
use hyparm.Intc.Banks.{is_guest_irq_masked, mask_interrupt, unmask_interrupt}
use hyparm.Intc.Lines.{
  set_raw, set_pending, clear_raw, clear_pending, set_interrupt, clear_interrupt,
}

pub record IsValid (c : InterruptController) : Type 0 where
  pub itr0 : c.intc_itr0 < 2 ^ 32
  pub itr1 : c.intc_itr1 ≡ 0
  pub itr2 : c.intc_itr2 ≡ 0
  pub mir0 : c.intc_mir0 < 2 ^ 32
  pub mir1 : c.intc_mir1 < 2 ^ 32
  pub mir2 : c.intc_mir2 < 2 ^ 32
  pub pending0 : c.intc_pending_irq0 < 2 ^ 32
  pub pending1 : c.intc_pending_irq1 < 2 ^ 32
  pub pending2 : c.intc_pending_irq2 < 2 ^ 32
  pub fiq0 : c.intc_pending_fiq0 ≡ 0
  pub fiq1 : c.intc_pending_fiq1 ≡ 0
  pub fiq2 : c.intc_pending_fiq2 ≡ 0
  pub priorities : length c.intc_ilr ≡ 96

pub intc_reset-IsValid : (c : InterruptController) → IsValid (intc_reset c)
unfolding intc_reset
intc_reset-IsValid c = omega arith

-- A bit that a line sets lies in its bank.
line_bit : (n : ℕ) → 2 ^ (n % 32) < 2 ^ 32
line_bit n = two_pow-lt 32 (n % 32) (omega arith)

module _ {c d : InterruptController} (n : ℕ) (v : IsValid c) where
  pub unmask_interrupt-IsValid : unmask_interrupt c n ≡ ok d → IsValid d
  unfolding unmask_interrupt
  unmask_interrupt-IsValid h =
      let mask = not32 (2 ^ (n % 32)) in
      ground (
        arith,
        bit_and-le c.intc_mir0 mask,
        bit_and-le c.intc_mir1 mask,
        bit_and-le c.intc_mir2 mask,
      )

  pub mask_interrupt-IsValid : mask_interrupt c n ≡ ok d → IsValid d
  unfolding mask_interrupt
  mask_interrupt-IsValid h =
      let mask = 2 ^ (n % 32) in
      ground (
        arith,
        line_bit n,
        bit_or-lt 32 c.intc_mir0 mask,
        bit_or-lt 32 c.intc_mir1 mask,
        bit_or-lt 32 c.intc_mir2 mask,
      )

  set_raw-IsValid : set_raw c n ≡ ok d → IsValid d
  unfolding set_raw
  set_raw-IsValid h =
      let mask = 2 ^ (n % 32) in
      ground (
        arith,
        line_bit n,
        bit_or-lt 32 c.intc_itr0 mask,
        bit_or-lt 32 c.intc_mir1 mask,
        bit_or-lt 32 c.intc_mir2 mask,
      )

  set_pending-IsValid : set_pending c n ≡ ok d → IsValid d
  unfolding set_pending
  set_pending-IsValid h =
      let mask = 2 ^ (n % 32) in
      ground (
        arith,
        line_bit n,
        bit_or-lt 32 c.intc_pending_irq0 mask,
        bit_or-lt 32 c.intc_pending_irq1 mask,
        bit_or-lt 32 c.intc_pending_irq2 mask,
      )

  clear_raw-IsValid : clear_raw c n ≡ ok d → IsValid d
  unfolding clear_raw
  clear_raw-IsValid h =
      let mask = not32 (2 ^ (n % 32)) in
      ground (
        arith,
        bit_and-le c.intc_itr0 mask,
        bit_and-le c.intc_mir1 mask,
        bit_and-le c.intc_mir2 mask,
      )

  clear_pending-IsValid : clear_pending c n ≡ ok d → IsValid d
  unfolding clear_pending
  clear_pending-IsValid h =
      let mask = not32 (2 ^ (n % 32)) in
      ground (
        arith,
        bit_and-le c.intc_pending_irq0 mask,
        bit_and-le c.intc_pending_irq1 mask,
        bit_and-le c.intc_pending_irq2 mask,
      )

module _ {c d : InterruptController} (n : ℕ) (v : IsValid c) where
  pub clear_interrupt-IsValid : clear_interrupt c n ≡ ok d → IsValid d
  unfolding clear_interrupt
  clear_interrupt-IsValid h = elim (Bool-cases (leb 96 n)) [
    | inl out ↦ absurd (die-ne-ok (rw out at h))
    | inr within ↦
        let (lowered, first, rest) =
          >>=-eq-ok (clear_raw c n) (λ e. clear_pending e n) (rw within at h) in
        clear_pending-IsValid n (clear_raw-IsValid n v first) rest
  ]

  pub set_interrupt-IsValid : set_interrupt c n ≡ ok d → IsValid d
  unfolding set_interrupt
  set_interrupt-IsValid h = elim (Bool-cases (leb 96 n)) [
    | inl out ↦ absurd (die-ne-ok (rw out at h))
    | inr within ↦
        let (raised, first, rest) = >>=-eq-ok (set_raw c n) _ (rw within at h) in
        let (masked, test, last) = >>=-eq-ok (is_guest_irq_masked raised n) _ rest in
        let valid = set_raw-IsValid n v first in
        elim (Bool-cases masked) [
          | inl yes_masked ↦ ground arith
          | inr unmasked ↦ set_pending-IsValid n valid (rw unmasked at last)
        ]
  ]
