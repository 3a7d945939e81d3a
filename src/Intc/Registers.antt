-- ===== src/Intc/Registers.antt =====
-- The register offsets of src/vm/omap35xx/intcInternals.h. The cases of the two `switch`
-- statements of the source are the constructors of `Register`.
use hyparm.Common.{ℕ, ◌+◌, ◌-◌, ◌/◌, ◌%◌, ◌^◌, ◌&&◌, ◌||◌, ◌==◌, leb, if◌then◌else◌}
use hyparm.Common.{Option, none, some}

pub data Register : Type 0 where
  revision sysconfig sysstatus unknown_20 sir_irq sir_fiq control protection idle : Register
  irq_priority fiq_priority threshold : Register
  itr0 itr1 itr2 mir0 mir1 mir2 : Register
  mir_clear0 mir_clear1 mir_clear2 mir_set0 mir_set1 mir_set2 : Register
  isr_set0 isr_set1 isr_set2 isr_clear0 isr_clear1 isr_clear2 : Register
  pending_irq0 pending_irq1 pending_irq2 pending_fiq0 pending_fiq1 pending_fiq2 : Register
  ilr : ℕ → Register

-- The offsets below 0x60.
unfoldable pub control_register : ℕ → Option Register
control_register off =
    if off == 0x0
    then some Register.revision
    else if off == 0x10
    then some Register.sysconfig
    else if off == 0x14
    then some Register.sysstatus
    else if off == 0x20
    then some Register.unknown_20
    else if off == 0x40
    then some Register.sir_irq
    else if off == 0x44
    then some Register.sir_fiq
    else if off == 0x48
    then some Register.control
    else if off == 0x4c
    then some Register.protection
    else if off == 0x50
    then some Register.idle
    else none

unfoldable pub priority_register : ℕ → Option Register
priority_register off =
    if off == 0x60
    then some Register.irq_priority
    else if off == 0x64
    then some Register.fiq_priority
    else if off == 0x68
    then some Register.threshold
    else none

unfoldable pub bank0_register : ℕ → Option Register
bank0_register off =
    if off == 0x80
    then some Register.itr0
    else if off == 0x84
    then some Register.mir0
    else if off == 0x88
    then some Register.mir_clear0
    else if off == 0x8c
    then some Register.mir_set0
    else if off == 0x90
    then some Register.isr_set0
    else if off == 0x94
    then some Register.isr_clear0
    else if off == 0x98
    then some Register.pending_irq0
    else if off == 0x9c
    then some Register.pending_fiq0
    else none

unfoldable pub bank1_register : ℕ → Option Register
bank1_register off =
    if off == 0xa0
    then some Register.itr1
    else if off == 0xa4
    then some Register.mir1
    else if off == 0xa8
    then some Register.mir_clear1
    else if off == 0xac
    then some Register.mir_set1
    else if off == 0xb0
    then some Register.isr_set1
    else if off == 0xb4
    then some Register.isr_clear1
    else if off == 0xb8
    then some Register.pending_irq1
    else if off == 0xbc
    then some Register.pending_fiq1
    else none

unfoldable pub bank2_register : ℕ → Option Register
bank2_register off =
    if off == 0xc0
    then some Register.itr2
    else if off == 0xc4
    then some Register.mir2
    else if off == 0xc8
    then some Register.mir_clear2
    else if off == 0xcc
    then some Register.mir_set2
    else if off == 0xd0
    then some Register.isr_set2
    else if off == 0xd4
    then some Register.isr_clear2
    else if off == 0xd8
    then some Register.pending_irq2
    else if off == 0xdc
    then some Register.pending_fiq2
    else none

-- `REG_INTCPS_ILRm` stands at 0x100 + 4 * m. Both `switch` statements leave out m = 41, 46, 55
-- and 74, so those go to the default case.
unfoldable pub ilr_register : ℕ → Option Register
ilr_register off =
    let m = (off - 0x100) / 4 in
    if off % 4 == 0 && leb 0x100 off && leb off 0x27c
    then if m == 41 || m == 46 || m == 55 || m == 74 then none else some (Register.ilr m)
    else none

-- `none` is the default case.
unfoldable pub register_at : ℕ → Option Register
unfolding control_register priority_register bank0_register bank1_register bank2_register
    ilr_register
register_at off =
    if leb off 0x5c
    then control_register off
    else if leb off 0x7c
    then priority_register off
    else if leb off 0x9c
    then bank0_register off
    else if leb off 0xbc
    then bank1_register off
    else if leb off 0xdc
    then bank2_register off
    else ilr_register off

-- `phyAddr - INTERRUPT_CONTROLLER` on `u32int`.
abbrev pub interrupt_controller : ℕ
interrupt_controller = 0x4820_0000

unfoldable pub reg_offset : ℕ → ℕ
reg_offset phy_addr = (phy_addr + 2 ^ 32 - interrupt_controller) % 2 ^ 32
