-- ===== src/Intc/Load.antt =====
-- `loadIntc`: a guest load from the controller. `freertos` is CONFIG_GUEST_FREERTOS. The result
-- is the controller after the load and the value loaded.
use hyparm.Common.{ℕ, bit_and, Bool, ◌!=◌, if◌then◌else◌, none, some, Outcome, ok, die}
use hyparm.Common.{bad_access_size, write_only_register, not_implemented, no_such_register}
use hyparm.Bits.{not32}
use hyparm.Access.{AccessSize, byte, halfword, word}
use hyparm.Intc.State.{InterruptController}
use hyparm.Intc.Priority.{priority_sort_irqs}
use hyparm.Intc.Registers.{Register, register_at, reg_offset}

-- Reading SYSSTATUS clears the reset flag.
unfoldable pub load_sysstatus : InterruptController → InterruptController × ℕ
load_sysstatus c =
    let val = c.intc_sys_status in
    (
      if bit_and c.intc_sys_status 0x1 != 0
          then record c { intc_sys_status = bit_and c.intc_sys_status (not32 0x1) }
          else c,
      val,
    )

-- The `switch (regOffset)`.
unfoldable pub load_register :
    Bool → InterruptController → Register → Outcome (InterruptController × ℕ)
load_register freertos c Register.revision = ok (c, 0x40)
load_register freertos c Register.sysconfig = ok (c, c.intc_sys_config)
load_register freertos c Register.sysstatus = ok (load_sysstatus c)
load_register freertos c Register.unknown_20 = ok (c, 0)
load_register freertos c Register.mir_clear0 = die write_only_register
load_register freertos c Register.mir_clear1 = die write_only_register
load_register freertos c Register.mir_clear2 = die write_only_register
load_register freertos c Register.mir_set0 = die write_only_register
load_register freertos c Register.mir_set1 = die write_only_register
load_register freertos c Register.mir_set2 = die write_only_register
load_register freertos c Register.isr_clear0 = die write_only_register
load_register freertos c Register.isr_clear1 = die write_only_register
load_register freertos c Register.isr_clear2 = die write_only_register
load_register freertos c Register.pending_irq0 = ok (c, c.intc_pending_irq0)
load_register freertos c Register.pending_irq1 = ok (c, c.intc_pending_irq1)
load_register freertos c Register.pending_irq2 = ok (c, c.intc_pending_irq2)
load_register freertos c Register.sir_irq = ok (c, priority_sort_irqs c)
load_register freertos c Register.control = ok (c, bit_and c.intc_control 0xffff_fffc)
load_register freertos c Register.mir0 = die no_such_register
load_register freertos c Register.mir1 =
    if freertos then ok (c, c.intc_mir1) else die no_such_register
load_register freertos c Register.mir2 =
    if freertos then ok (c, c.intc_mir2) else die no_such_register
load_register freertos c _ = die not_implemented

unfoldable pub load_intc :
    Bool → InterruptController → AccessSize → ℕ → Outcome (InterruptController × ℕ)
load_intc freertos c word phy_addr = elim (register_at (reg_offset phy_addr)) [
  | none ↦ die no_such_register
  | some r ↦ load_register freertos c r
]
load_intc freertos c byte phy_addr = die bad_access_size
load_intc freertos c halfword phy_addr = die bad_access_size
