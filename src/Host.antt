-- ===== src/Host.antt =====
-- src/drivers/beagle/beIntc.c: the driver of the host's interrupt controller. The device itself
-- is hardware; what the hypervisor does to it is the list of the words that it writes.
use hyparm.Common.{ℕ, ◌+◌, ◌*◌, ◌/◌, ◌%◌, ◌^◌, leb, if◌then◌else◌, Outcome, ok, die}
use hyparm.Common.{irq_out_of_range}

-- One `intcRegWriteBE(offset, value)`.
pub record HostWrite : Type 0 where
  pub offset : ℕ
  pub value : ℕ

abbrev pub nr_of_interrupts : ℕ
nr_of_interrupts = 96

abbrev pub interrupts_per_bank : ℕ
interrupts_per_bank = 32

unfoldable pub unmask_interrupt_be : ℕ → Outcome HostWrite
unmask_interrupt_be n =
    if leb nr_of_interrupts n
    then die irq_out_of_range
    else let bank_number = n / interrupts_per_bank in
      let bit_mask = 2 ^ (n % interrupts_per_bank) in
      ok (record { offset = 0x88 + bank_number * 0x20; value = bit_mask })

unfoldable pub mask_interrupt_be : ℕ → Outcome HostWrite
mask_interrupt_be n =
    if leb nr_of_interrupts n
    then die irq_out_of_range
    else let bank_number = n / interrupts_per_bank in
      let bit_mask = 2 ^ (n % interrupts_per_bank) in
      ok (record { offset = 0x8c + bank_number * 0x20; value = bit_mask })
