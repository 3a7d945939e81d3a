-- ===== src/Intc/Banks.antt =====
-- The three banks of 32 mask bits: masking, unmasking and the test of a mask bit
-- (`maskInterrupt`, `unmaskInterrupt`, `isGuestIrqMasked`).
use hyparm.Common.{ℕ, ◌/◌, ◌%◌, ◌^◌, bit_and, bit_or, Bool, ◌==◌, leb, if◌then◌else◌}
use hyparm.Common.{Outcome, ok, die, irq_out_of_range, unreachable}
use hyparm.Bits.{not32}
use hyparm.Host.{nr_of_interrupts, interrupts_per_bank}
use hyparm.Intc.State.{InterruptController}

-- The `switch (bankNumber)` of this file; its default case is a `DIE_NOW`.
abbrev pub switch_bank {ℓ} : {A : Type ℓ} → ℕ → A → A → A → Outcome A
switch_bank bank a b c =
    if bank == 0
    then ok a
    else if bank == 1
    then ok b
    else if bank == 2
    then ok c
    else die unreachable

unfoldable pub mask_interrupt : InterruptController → ℕ → Outcome InterruptController
mask_interrupt c n =
    if leb nr_of_interrupts n
    then die irq_out_of_range
    else let bit_mask = 2 ^ (n % interrupts_per_bank) in
      switch_bank (n / interrupts_per_bank) (record c { intc_mir0 = bit_or c.intc_mir0 bit_mask })
        (record c { intc_mir1 = bit_or c.intc_mir1 bit_mask })
        (record c { intc_mir2 = bit_or c.intc_mir2 bit_mask })

unfoldable pub unmask_interrupt : InterruptController → ℕ → Outcome InterruptController
unmask_interrupt c n =
    if leb nr_of_interrupts n
    then die irq_out_of_range
    else let bit_mask = 2 ^ (n % interrupts_per_bank) in
      switch_bank (n / interrupts_per_bank)
        (record c { intc_mir0 = bit_and c.intc_mir0 (not32 bit_mask) })
        (record c { intc_mir1 = bit_and c.intc_mir1 (not32 bit_mask) })
        (record c { intc_mir2 = bit_and c.intc_mir2 (not32 bit_mask) })

unfoldable pub is_guest_irq_masked : InterruptController → ℕ → Outcome Bool
is_guest_irq_masked c n =
    if leb nr_of_interrupts n
    then die irq_out_of_range
    else let bit_mask = 2 ^ (n % interrupts_per_bank) in
      switch_bank (n / interrupts_per_bank) (bit_and c.intc_mir0 bit_mask == 1)
        (bit_and c.intc_mir1 bit_mask == 1) (bit_and c.intc_mir2 bit_mask == 1)
