-- ===== src/Intc/Lines.antt =====
-- The interrupt lines: `setInterrupt` and `clearInterrupt`. As in the source, banks 1 and 2 are
-- written to the mask registers where bank 0 is written to the raw status register.
use hyparm.Common.{ℕ, ◌/◌, ◌%◌, ◌^◌, bit_and, bit_or, Bool, not, ◌||◌, ◌!=◌, leb}
use hyparm.Common.{if◌then◌else◌, Outcome, ok, die, irq_out_of_range, ◌>>=◌}
use hyparm.Bits.{not32}
use hyparm.Host.{nr_of_interrupts, interrupts_per_bank}
use hyparm.Intc.State.{InterruptController}
use hyparm.Intc.Banks.{switch_bank, is_guest_irq_masked}

-- Step 1 of `setInterrupt`, the raw signal.
unfoldable pub set_raw : InterruptController → ℕ → Outcome InterruptController
set_raw c n =
    let bit_mask = 2 ^ (n % interrupts_per_bank) in
    switch_bank (n / interrupts_per_bank) (record c { intc_itr0 = bit_or c.intc_itr0 bit_mask })
      (record c { intc_mir1 = bit_or c.intc_mir1 bit_mask })
      (record c { intc_mir2 = bit_or c.intc_mir2 bit_mask })

-- Step 2, the signal after masking.
unfoldable pub set_pending : InterruptController → ℕ → Outcome InterruptController
set_pending c n =
    let bit_mask = 2 ^ (n % interrupts_per_bank) in
    switch_bank (n / interrupts_per_bank)
      (record c { intc_pending_irq0 = bit_or c.intc_pending_irq0 bit_mask })
      (record c { intc_pending_irq1 = bit_or c.intc_pending_irq1 bit_mask })
      (record c { intc_pending_irq2 = bit_or c.intc_pending_irq2 bit_mask })

unfoldable pub set_interrupt : InterruptController → ℕ → Outcome InterruptController
set_interrupt c n = if leb nr_of_interrupts n then die irq_out_of_range else do
  raised ← set_raw c n
  masked ← is_guest_irq_masked raised n
  if not masked then set_pending raised n else ok raised

unfoldable pub clear_raw : InterruptController → ℕ → Outcome InterruptController
clear_raw c n =
    let bit_mask = not32 (2 ^ (n % interrupts_per_bank)) in
    switch_bank (n / interrupts_per_bank) (record c { intc_itr0 = bit_and c.intc_itr0 bit_mask })
      (record c { intc_mir1 = bit_and c.intc_mir1 bit_mask })
      (record c { intc_mir2 = bit_and c.intc_mir2 bit_mask })

unfoldable pub clear_pending : InterruptController → ℕ → Outcome InterruptController
clear_pending c n =
    let bit_mask = not32 (2 ^ (n % interrupts_per_bank)) in
    switch_bank (n / interrupts_per_bank)
      (record c { intc_pending_irq0 = bit_and c.intc_pending_irq0 bit_mask })
      (record c { intc_pending_irq1 = bit_and c.intc_pending_irq1 bit_mask })
      (record c { intc_pending_irq2 = bit_and c.intc_pending_irq2 bit_mask })

unfoldable pub clear_interrupt : InterruptController → ℕ → Outcome InterruptController
clear_interrupt c n =
    if leb nr_of_interrupts n
    then die irq_out_of_range
    else do lowered ← clear_raw c n; clear_pending lowered n

unfoldable pub is_irq_pending : InterruptController → Bool
is_irq_pending c = c.intc_pending_irq0 != 0 || c.intc_pending_irq1 != 0 || c.intc_pending_irq2 != 0

unfoldable pub is_fiq_pending : InterruptController → Bool
is_fiq_pending c = c.intc_pending_fiq0 != 0 || c.intc_pending_fiq1 != 0 || c.intc_pending_fiq2 != 0
