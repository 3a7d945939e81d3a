-- ===== src/Cpu/Delivery.antt =====
-- What the guest finds when it takes an exception (`deliverServiceCall`, `deliverInterrupt`,
-- `deliverDataAbort`, `deliverPrefetchAbort`).
use hyparm.Common.{◌+◌, ◌%◌, ◌^◌, ◌≡◌, refl, arith, Bool, true, false}
use hyparm.Common.{Returns}
use hyparm.Cpu.State.{GuestContext, Vector, bit_field, irq_mode, svc_mode, abt_mode, a_bit}
use hyparm.Cpu.Modes.{set_exception_vector}
use hyparm.Cpu.Exceptions.{
  get_exception_handler_address, jump, mask_a_and_i, deliver_service_call, deliver_interrupt,
  deliver_data_abort, deliver_prefetch_abort, exc_vect_low_svc, exc_vect_low_irq, exc_vect_low_dabt,
  exc_vect_low_pabt,
}
use hyparm.Cpu.Entry.{entered, guest_change_mode-entered}
use hyparm.Cpu.Handlers.{StartsHandler, masked_i, masked_a_i, thumb_of_sctlr-eq, starts}

module _ (table_mapped : GuestContext → Bool) (mapped : (d : GuestContext) → table_mapped d ≡ true)
    (thumb2 : Bool) (c : GuestContext) where
  -- `deliverInterrupt` returns, if the guest's page table can be mapped. The guest is in IRQ mode at
  -- its IRQ handler, with IRQs and asynchronous aborts masked; SPSR_IRQ is the CPSR before, R14_IRQ
  -- the program counter and 4, and no IRQ is pending.
  pub deliver_interrupt_lem : Returns (deliver_interrupt table_mapped thumb2 c) λ d.
      StartsHandler c d irq_mode exc_vect_low_irq Vector.irq_vector
      × (bit_field d.cpsr a_bit ≡ 1)
      × (d.spsr_irq ≡ c.cpsr)
      × (d.r14_irq ≡ (c.registers 15 + 4) % 2 ^ 32)
      × (d.guest_irq_pending ≡ false)
  unfolding deliver_interrupt jump mask_a_and_i get_exception_handler_address set_exception_vector
  deliver_interrupt_lem =
      let saved : GuestContext = record c { guest_irq_pending = false; spsr_irq = c.cpsr } in
      let entry =
        guest_change_mode-entered table_mapped mapped saved Vector.irq_vector irq_mode refl refl in
      let bits = masked_a_i c c.cpsr irq_mode (omega arith) thumb2 in
      rw (entry, thumb_of_sctlr-eq thumb2 (entered saved Vector.irq_vector irq_mode))
        (
          _,
          refl,
          (
            starts c _ irq_mode exc_vect_low_irq Vector.irq_vector (bits.0, bits.1, bits.2, bits.3)
                refl refl refl refl,
            bits.4,
            refl,
            refl,
            refl,
          ),
        )

  -- `deliverDataAbort` returns, if the guest's page table can be mapped. The guest is in abort mode
  -- at its data abort handler, with IRQs and asynchronous aborts masked; SPSR_ABT is the CPSR
  -- before, R14_ABT the program counter and 8, and no data abort is pending.
  pub deliver_data_abort_lem : Returns (deliver_data_abort table_mapped thumb2 c) λ d.
      StartsHandler c d abt_mode exc_vect_low_dabt Vector.abort_vector
      × (bit_field d.cpsr a_bit ≡ 1)
      × (d.spsr_abt ≡ c.cpsr)
      × (d.r14_abt ≡ (c.registers 15 + 8) % 2 ^ 32)
      × (d.guest_data_abt_pending ≡ false)
  unfolding deliver_data_abort jump mask_a_and_i get_exception_handler_address set_exception_vector
  deliver_data_abort_lem =
      let saved : GuestContext = record c { guest_data_abt_pending = false; spsr_abt = c.cpsr } in
      let entry =
        guest_change_mode-entered table_mapped mapped saved Vector.abort_vector abt_mode refl
          refl in
      let bits = masked_a_i c c.cpsr abt_mode (omega arith) thumb2 in
      rw (entry, thumb_of_sctlr-eq thumb2 (entered saved Vector.abort_vector abt_mode))
        (
          _,
          refl,
          (
            starts c _ abt_mode exc_vect_low_dabt Vector.abort_vector
                (bits.0, bits.1, bits.2, bits.3) refl refl refl refl,
            bits.4,
            refl,
            refl,
            refl,
          ),
        )

  -- `deliverPrefetchAbort` returns, if the guest's page table can be mapped. The guest is in abort
  -- mode at its prefetch abort handler, with IRQs and asynchronous aborts masked; SPSR_ABT is the
  -- CPSR before, R14_ABT the program counter and 4, and no prefetch abort is pending.
  pub deliver_prefetch_abort_lem : Returns (deliver_prefetch_abort table_mapped thumb2 c) λ d.
      StartsHandler c d abt_mode exc_vect_low_pabt Vector.abort_vector
      × (bit_field d.cpsr a_bit ≡ 1)
      × (d.spsr_abt ≡ c.cpsr)
      × (d.r14_abt ≡ (c.registers 15 + 4) % 2 ^ 32)
      × (d.guest_prefetch_abt_pending ≡ false)
  unfolding deliver_prefetch_abort jump mask_a_and_i get_exception_handler_address
      set_exception_vector
  deliver_prefetch_abort_lem =
      let saved : GuestContext = record c {
        guest_prefetch_abt_pending = false;
        spsr_abt = c.cpsr;
      } in
      let entry =
        guest_change_mode-entered table_mapped mapped saved Vector.abort_vector abt_mode refl
          refl in
      let bits = masked_a_i c c.cpsr abt_mode (omega arith) thumb2 in
      rw (entry, thumb_of_sctlr-eq thumb2 (entered saved Vector.abort_vector abt_mode))
        (
          _,
          refl,
          (
            starts c _ abt_mode exc_vect_low_pabt Vector.abort_vector
                (bits.0, bits.1, bits.2, bits.3) refl refl refl refl,
            bits.4,
            refl,
            refl,
            refl,
          ),
        )

  -- `deliverServiceCall` returns, if the guest's page table can be mapped. The guest is in
  -- supervisor mode at its service call handler, with IRQs masked and the mask of asynchronous
  -- aborts as it was; SPSR_SVC is the CPSR before, and R14_SVC the program counter and 4.
  pub deliver_service_call_lem : Returns (deliver_service_call table_mapped thumb2 c) λ d.
      StartsHandler c d svc_mode exc_vect_low_svc Vector.svc_vector
      × (bit_field d.cpsr a_bit ≡ bit_field c.cpsr a_bit)
      × (d.spsr_svc ≡ c.cpsr)
      × (d.r14_svc ≡ (c.registers 15 + 4) % 2 ^ 32)
  unfolding deliver_service_call jump get_exception_handler_address set_exception_vector
  deliver_service_call_lem =
      let saved : GuestContext = record c { spsr_svc = c.cpsr } in
      let entry =
        guest_change_mode-entered table_mapped mapped saved Vector.svc_vector svc_mode refl refl in
      let bits = masked_i c c.cpsr svc_mode (omega arith) thumb2 in
      rw (entry, thumb_of_sctlr-eq thumb2 (entered saved Vector.svc_vector svc_mode))
        (
          _,
          refl,
          (
            starts c _ svc_mode exc_vect_low_svc Vector.svc_vector
                (bits.0, bits.1, bits.2, omega (arith, bits.3)) refl refl refl refl,
            omega (arith, bits.3),
            refl,
            refl,
          ),
        )
