-- ===== src/Cpu/Exceptions.antt =====
-- The exceptions that the guest takes (src/guestManager/guestExceptions.c). `thumb2` and
-- `hw_passthrough` are CONFIG_THUMB2 and CONFIG_HW_PASSTHROUGH.
use hyparm.Common.{
  ℕ, ◌+◌, ◌-◌, ◌*◌, ◌/◌, ◌%◌, ◌^◌, bit_and, bit_or, Bool, true, false, ◌&&◌, ◌||◌, ◌==◌, ◌!=◌,
  if◌then◌else◌,
}
use hyparm.Common.{Outcome, ok, die, ◌>>=◌, unknown_source, unreachable}
use hyparm.Memory.{update}
use hyparm.Intc.Lines.{set_interrupt, is_irq_pending}
use hyparm.Cpu.State.{
  GuestContext, bit_field, with_bit, irq_mode, svc_mode, abt_mode, t_bit, i_bit, a_bit, cp15_sctrl,
  cp15_dfsr, cp15_ifsr, cp15_dfar, cp15_ifar, cp15_vbar,
}
use hyparm.Cpu.Modes.{guest_change_mode}

abbrev pub exc_vect_low_svc : ℕ
exc_vect_low_svc = 0x08

abbrev pub exc_vect_low_pabt : ℕ
exc_vect_low_pabt = 0x0c

abbrev pub exc_vect_low_dabt : ℕ
exc_vect_low_dabt = 0x10

abbrev pub exc_vect_low_irq : ℕ
exc_vect_low_irq = 0x18

-- `getExceptionHandlerAddress`. The word read at an offset from guestUndefinedHandler.
unfoldable pub get_exception_handler_address : GuestContext → ℕ → ℕ
get_exception_handler_address c offset =
    if c.guest_high_vector_set
    then (0xffff_0000 + offset) % 2 ^ 32
    else (let vbar = c.coproc_reg_bank cp15_vbar in
        if vbar == 0 then c.handlers ((offset - 4) / 4) else (vbar + offset) % 2 ^ 32)

-- `context->CPSR.bits.T = ... SCTLR_TE ...`, with CONFIG_THUMB2 only.
unfoldable pub thumb_of_sctlr : Bool → GuestContext → GuestContext
thumb_of_sctlr thumb2 c =
    let te = if bit_and (c.coproc_reg_bank cp15_sctrl) 0x4000_0000 != 0 then 1 else 0 in
    if thumb2 then record c { cpsr = with_bit c.cpsr t_bit te } else c

-- `context->R15 = ...`
unfoldable pub jump : GuestContext → ℕ → GuestContext
jump c address = record c { registers = update c.registers 15 address }

-- The interrupt mask bits of an IRQ and of the aborts.
unfoldable pub mask_a_and_i : GuestContext → GuestContext
mask_a_and_i c = record c { cpsr = with_bit (with_bit c.cpsr a_bit 1) i_bit 1 }

module _ (table_mapped : GuestContext → Bool) (thumb2 : Bool) where
  -- With CONFIG_THUMB2 the source first adds to R14_SVC, and then overwrites it as without.
  unfoldable pub deliver_service_call : GuestContext → Outcome GuestContext
  unfolding get_exception_handler_address thumb_of_sctlr jump
  deliver_service_call c = do
    switched ← guest_change_mode table_mapped (record c { spsr_svc = c.cpsr }) svc_mode
    let thumbed = thumb_of_sctlr thumb2 switched
    let linked = record thumbed { r14_svc = (thumbed.registers 15 + 4) % 2 ^ 32 }
    let jumped = jump linked (get_exception_handler_address linked exc_vect_low_svc)
    ok (record jumped { cpsr = with_bit jumped.cpsr i_bit 1 })

  unfoldable pub deliver_interrupt : GuestContext → Outcome GuestContext
  unfolding get_exception_handler_address thumb_of_sctlr jump mask_a_and_i
  deliver_interrupt c = do
    let saved = record c { guest_irq_pending = false; spsr_irq = c.cpsr }
    switched ← guest_change_mode table_mapped saved irq_mode
    let thumbed = thumb_of_sctlr thumb2 switched
    let linked = record thumbed { r14_irq = (thumbed.registers 15 + 4) % 2 ^ 32 }
    ok (mask_a_and_i (jump linked (get_exception_handler_address linked exc_vect_low_irq)))

  unfoldable pub deliver_data_abort : GuestContext → Outcome GuestContext
  unfolding get_exception_handler_address thumb_of_sctlr jump mask_a_and_i
  deliver_data_abort c = do
    let saved = record c { guest_data_abt_pending = false; spsr_abt = c.cpsr }
    switched ← guest_change_mode table_mapped saved abt_mode
    let thumbed = thumb_of_sctlr thumb2 switched
    let linked = record thumbed { r14_abt = (thumbed.registers 15 + 8) % 2 ^ 32 }
    ok (mask_a_and_i (jump linked (get_exception_handler_address linked exc_vect_low_dabt)))

  unfoldable pub deliver_prefetch_abort : GuestContext → Outcome GuestContext
  unfolding get_exception_handler_address thumb_of_sctlr jump mask_a_and_i
  deliver_prefetch_abort c = do
    let saved = record c { guest_prefetch_abt_pending = false; spsr_abt = c.cpsr }
    switched ← guest_change_mode table_mapped saved abt_mode
    let thumbed = thumb_of_sctlr thumb2 switched
    let linked = record thumbed { r14_abt = (thumbed.registers 15 + 4) % 2 ^ 32 }
    ok (mask_a_and_i (jump linked (get_exception_handler_address linked exc_vect_low_pabt)))

-- The fourteen sources of the `switch` of `throwInterrupt`.
unfoldable pub is_forwarded : ℕ → Bool
is_forwarded n =
    n == 37
    || n == 72
    || n == 73
    || n == 74
    || n == 56
    || n == 57
    || n == 61
    || n == 83
    || n == 86
    || n == 94
    || n == 12
    || n == 13
    || n == 14
    || n == 15

unfoldable pub throw_interrupt : Bool → GuestContext → ℕ → Outcome GuestContext
unfolding is_forwarded
throw_interrupt hw_passthrough c n =
    if hw_passthrough
    then die unreachable
    else if is_forwarded n
    then (set_interrupt c.irq_controller n >>= λ controller.
        let told = record c { irq_controller = controller } in
        ok (
          if is_irq_pending controller && bit_field c.cpsr i_bit == 0
          then record told { guest_irq_pending = true }
          else told))
    else die unknown_source

unfoldable pub throw_data_abort : GuestContext → ℕ → ℕ → Bool → ℕ → GuestContext
throw_data_abort c address fault_type is_write domain =
    let status = bit_or (bit_and fault_type 0xf) (bit_and fault_type 0x10 * 2 ^ 6 % 2 ^ 32) in
    let placed = bit_or status (domain * 2 ^ 4 % 2 ^ 32) in
    let dfsr = if is_write then bit_or placed 0x800 else placed in
    record c {
      coproc_reg_bank = update (update c.coproc_reg_bank cp15_dfsr dfsr) cp15_dfar address;
      guest_data_abt_pending = true;
    }

unfoldable pub throw_prefetch_abort : GuestContext → ℕ → ℕ → GuestContext
throw_prefetch_abort c address fault_type =
    let ifsr = bit_or (bit_and fault_type 0xf) (bit_and fault_type 0x10 * 2 ^ 10 % 2 ^ 32) in
    record c {
      coproc_reg_bank = update (update c.coproc_reg_bank cp15_ifsr ifsr) cp15_ifar address;
      guest_prefetch_abt_pending = true;
    }
