-- ===== src/Cpu/Resume.antt =====
-- An interrupt and the return from it: `deliverInterrupt`, and then `CPSRWriteByInstr` of the saved
-- CPSR, as the guest's handler ends.
use hyparm.Common.{◌^◌, ◌<◌, ◌≡◌, refl, Bool, true, bit_and, ok, Returns, ◌>>=◌}
use hyparm.Cpu.State.{GuestContext, mode_of, irq_mode, cp15_sctrl}
use hyparm.Cpu.Registers.{spsr}
use hyparm.Cpu.Modes.{cpsr_write_by_instr}
use hyparm.Cpu.Exceptions.{deliver_interrupt}
use hyparm.Cpu.Delivery.{deliver_interrupt_lem}
use hyparm.Cpu.Return.{has_vector, exception_return_lem}

module _ (table_mapped : GuestContext → Bool)
    (mapped : (d : GuestContext) → table_mapped d ≡ true) where
  spsr-irq : (d : GuestContext) → mode_of d.cpsr ≡ irq_mode → spsr d ≡ ok d.spsr_irq
  unfolding spsr
  spsr-irq d h = rw h

  -- A guest in user, IRQ, supervisor, abort or undefined mode, whose page table can be mapped and
  -- whose FIQs are maskable, takes an interrupt, and its handler returns at once by a write of the
  -- SPSR with all four bytes selected: all of this returns, and the CPSR is the one before, with its
  -- reserved bits 20 to 23 cleared.
  pub deliver_interrupt-return :
      (thumb2 hw_passthrough : Bool) (c : GuestContext)
      → c.cpsr < 2 ^ 32
      → has_vector (mode_of c.cpsr) ≡ true
      → bit_and (c.coproc_reg_bank cp15_sctrl) 0x0800_0000 ≡ 0
      → Returns
          (deliver_interrupt table_mapped thumb2 c >>= λ d.
            spsr d >>= λ saved. cpsr_write_by_instr table_mapped hw_passthrough d saved 0xf true)
          λ e. e.cpsr ≡ bit_and c.cpsr 0xff0f_ffff
  deliver_interrupt-return thumb2 hw_passthrough c fits h maskable =
      let (d, delivered, (starts, a, saved, link, flag)) =
        deliver_interrupt_lem table_mapped mapped thumb2 c in
      let same : bit_and (d.coproc_reg_bank cp15_sctrl) 0x0800_0000 ≡ 0 =
        rw starts.coprocessor maskable in
      let (e, returned, (cpsr, pending)) =
        exception_return_lem table_mapped mapped hw_passthrough d c.cpsr fits h same in
      rw (delivered, spsr-irq d starts.in_mode, saved, returned) (e, refl, cpsr)
