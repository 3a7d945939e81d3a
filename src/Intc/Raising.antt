-- ===== src/Intc/Raising.antt =====
-- What `setInterrupt` and `clearInterrupt` do to each interrupt line.
use hyparm.Common.{ℕ, ◌%◌, ◌^◌, ◌<◌, ◌≡◌, arith, bit_and, bit_or, Bool, ltb, leb, not}
use hyparm.Common.{false, Bool-cases, ◌∙◌, inl, inr, ok, Returns, ◌==◌, if◌then◌else◌, ◌&&◌, ◌||◌}
use hyparm.Bits.{not32}
use hyparm.Intc.State.{InterruptController}
use hyparm.Intc.Views.{bank_of, mask_bit, pending_bit, raw_bit}
use hyparm.Intc.Lines.{
  set_raw, set_pending, set_interrupt, clear_raw, clear_pending, clear_interrupt,
}
use hyparm.Intc.Masking.{bit_at-set, bit_at-clear, is_guest_irq_masked_lem}

module _ (c : InterruptController) (n : ℕ) where
  abbrev raised : InterruptController
  raised =
      let mask = 2 ^ (n % 32) in
      bank_of n (record c { intc_itr0 = bit_or c.intc_itr0 mask })
        (record c { intc_mir1 = bit_or c.intc_mir1 mask })
        (record c { intc_mir2 = bit_or c.intc_mir2 mask })

  abbrev pended : InterruptController
  pended =
      let mask = 2 ^ (n % 32) in
      bank_of n (record c { intc_pending_irq0 = bit_or c.intc_pending_irq0 mask })
        (record c { intc_pending_irq1 = bit_or c.intc_pending_irq1 mask })
        (record c { intc_pending_irq2 = bit_or c.intc_pending_irq2 mask })

  abbrev lowered : InterruptController
  lowered =
      let mask = not32 (2 ^ (n % 32)) in
      bank_of n (record c { intc_itr0 = bit_and c.intc_itr0 mask })
        (record c { intc_mir1 = bit_and c.intc_mir1 mask })
        (record c { intc_mir2 = bit_and c.intc_mir2 mask })

  abbrev retired : InterruptController
  retired =
      let mask = not32 (2 ^ (n % 32)) in
      bank_of n (record c { intc_pending_irq0 = bit_and c.intc_pending_irq0 mask })
        (record c { intc_pending_irq1 = bit_and c.intc_pending_irq1 mask })
        (record c { intc_pending_irq2 = bit_and c.intc_pending_irq2 mask })

  module _ (h : n < 96) where
    set_raw-raised : set_raw c n ≡ ok raised
    unfolding set_raw
    set_raw-raised = ground arith

    set_pending-pended : set_pending c n ≡ ok pended
    unfolding set_pending
    set_pending-pended = ground arith

    clear_raw-lowered : clear_raw c n ≡ ok lowered
    unfolding clear_raw
    clear_raw-lowered = ground arith

    clear_pending-retired : clear_pending c n ≡ ok retired
    unfolding clear_pending
    clear_pending-retired = ground arith

  module _ (m : ℕ) (h : n < 96) (k : m < 96) where
    raised_bits :
        (pending_bit raised m ≡ pending_bit c m)
        × (mask_bit raised m ≡ (if n == m && leb 32 n then 1 else mask_bit c m))
        × (raw_bit raised m ≡ (if n == m && ltb n 32 then 1 else raw_bit c m))
    raised_bits = ground (
      arith,
      bit_at-set c.intc_itr0 (n % 32) (m % 32),
      bit_at-set c.intc_mir1 (n % 32) (m % 32),
      bit_at-set c.intc_mir2 (n % 32) (m % 32),
    )

    pended_bits :
        (pending_bit pended m ≡ (if n == m then 1 else pending_bit c m))
        × (mask_bit pended m ≡ mask_bit c m)
        × (raw_bit pended m ≡ raw_bit c m)
    pended_bits = ground (
      arith,
      bit_at-set c.intc_pending_irq0 (n % 32) (m % 32),
      bit_at-set c.intc_pending_irq1 (n % 32) (m % 32),
      bit_at-set c.intc_pending_irq2 (n % 32) (m % 32),
    )

    lowered_bits :
        (pending_bit lowered m ≡ pending_bit c m)
        × (mask_bit lowered m ≡ (if n == m && leb 32 n then 0 else mask_bit c m))
        × (raw_bit lowered m ≡ (if n == m && ltb n 32 then 0 else raw_bit c m))
    lowered_bits = ground (
      arith,
      bit_at-clear c.intc_itr0 (n % 32) (m % 32),
      bit_at-clear c.intc_mir1 (n % 32) (m % 32),
      bit_at-clear c.intc_mir2 (n % 32) (m % 32),
    )

    retired_bits :
        (pending_bit retired m ≡ (if n == m then 0 else pending_bit c m))
        × (mask_bit retired m ≡ mask_bit c m)
        × (raw_bit retired m ≡ raw_bit c m)
    retired_bits = ground (
      arith,
      bit_at-clear c.intc_pending_irq0 (n % 32) (m % 32),
      bit_at-clear c.intc_pending_irq1 (n % 32) (m % 32),
      bit_at-clear c.intc_pending_irq2 (n % 32) (m % 32),
    )

-- The test of the mask after step 1 stops step 2 for the first line of a bank only.
abbrev pub stops : InterruptController → ℕ → Bool
stops c n = n % 32 == 0 && (leb 32 n || mask_bit c n == 1)

module _ (c : InterruptController) (n : ℕ) (h : n < 96) where
  set_interrupt-eq :
      set_interrupt c n ≡ ok (if stops c n then raised c n else pended (raised c n) n)
  unfolding set_interrupt
  set_interrupt-eq =
      let within : leb 96 n ≡ false = ground arith in
      let test : (mask_bit (raised c n) n == 1 && n % 32 == 0) ≡ stops c n =
        ground (arith, raised_bits c n n h h) in
      rw (within, set_raw-raised c n h, is_guest_irq_masked_lem (raised c n) n h, test)
        (elim (Bool-cases (stops c n)) [
          | inl e ↦ rw e
          | inr e ↦ rw e (set_pending-pended (raised c n) n h)
        ])

  clear_interrupt-eq : clear_interrupt c n ≡ ok (retired (lowered c n) n)
  unfolding clear_interrupt
  clear_interrupt-eq =
      let within : leb 96 n ≡ false = ground arith in
      rw (within, clear_raw-lowered c n h) (clear_pending-retired (lowered c n) n h)

-- `setInterrupt` of line `n` returns. Line `n` becomes pending, unless it is the first of its bank
-- and (in bank 0) masked. In banks 1 and 2 the line is masked, and its raw bit stays as it was; in
-- bank 0 the raw bit is set, and the mask stays. Nothing changes at any other line.
pub set_interrupt_lem :
    (c : InterruptController) (n m : ℕ)
    → n < 96
    → m < 96
    → Returns (set_interrupt c n) λ d.
      (pending_bit d m ≡ (if n == m && not (stops c n) then 1 else pending_bit c m))
      × (mask_bit d m ≡ (if n == m && leb 32 n then 1 else mask_bit c m))
      × (raw_bit d m ≡ (if n == m && ltb n 32 then 1 else raw_bit c m))
set_interrupt_lem c n m h k = (
  (if stops c n then raised c n else pended (raised c n) n),
  set_interrupt-eq c n h,
  elim (Bool-cases (stops c n)) [
    | inl e ↦ let up = raised_bits c n m h k in rw e (ground arith)
    | inr e ↦
        let up = raised_bits c n m h k in
        let high = pended_bits (raised c n) n m h k in rw e (ground arith)
  ],
)

-- `clearInterrupt` of line `n` returns. Line `n` is no longer pending. In banks 1 and 2 the line is
-- unmasked, and its raw bit stays; in bank 0 the raw bit is cleared, and the mask stays. Nothing
-- changes at any other line.
pub clear_interrupt_lem :
    (c : InterruptController) (n m : ℕ)
    → n < 96
    → m < 96
    → Returns (clear_interrupt c n) λ d.
      (pending_bit d m ≡ (if n == m then 0 else pending_bit c m))
      × (mask_bit d m ≡ (if n == m && leb 32 n then 0 else mask_bit c m))
      × (raw_bit d m ≡ (if n == m && ltb n 32 then 0 else raw_bit c m))
clear_interrupt_lem c n m h k =
    let low = lowered_bits c n m h k in
    let gone = retired_bits (lowered c n) n m h k in
    (
      retired (lowered c n) n,
      clear_interrupt-eq c n h,
      (rw (gone.0, low.0), gone.1 ∙ low.1, gone.2 ∙ low.2),
    )
