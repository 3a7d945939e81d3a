-- ===== src/Cpu/Modes.antt =====
-- Changing the guest's mode (`guestChangeMode` of src/guestManager/guestContext.c with
-- `setExceptionVector`, `userToPrivAddressing` and `privToUserAddressing` of
-- src/memoryManager/addressing.c), and the writes of a CPSR and of an SPSR by an instruction
-- (src/instructionEmu/interpreter/common.c). Page tables are not part of the state: `table_mapped`
-- says whether the guest's own page table is mapped in the active shadow table, or `shadowMap` maps
-- it. What the switch writes to the translation table base of the host is not modelled.
use hyparm.Common.{
  ℕ, bit_and, bit_or, Bool, true, false, not, ◌&&◌, ◌||◌, ◌==◌, ◌!=◌, if◌then◌else◌,
}
use hyparm.Common.{Outcome, ok, die, ◌>>=◌, not_implemented, table_not_mapped}
use hyparm.Intc.Lines.{is_irq_pending}
use hyparm.Cpu.State.{
  GuestContext, Vector, mode_of, bit_field, with_mode, usr_mode, fiq_mode, irq_mode, svc_mode,
  mon_mode, abt_mode, und_mode, sys_mode, f_bit, i_bit, cp15_sctrl,
}
use hyparm.Cpu.Registers.{spsr_write}

-- `isGuestInPrivMode`
unfoldable pub is_guest_in_priv_mode : GuestContext → Bool
is_guest_in_priv_mode c = if mode_of c.cpsr == usr_mode then false else true

unfoldable pub set_exception_vector : GuestContext → ℕ → Outcome GuestContext
set_exception_vector c mode =
    if mode == usr_mode
    then ok (record c { exception_vector = Vector.usr_vector })
    else if mode == irq_mode
    then ok (record c { exception_vector = Vector.irq_vector })
    else if mode == svc_mode
    then ok (record c { exception_vector = Vector.svc_vector })
    else if mode == abt_mode
    then ok (record c { exception_vector = Vector.abort_vector })
    else if mode == und_mode
    then ok (record c { exception_vector = Vector.und_vector })
    else die not_implemented

-- `BadMode`; `HaveVirtExt` is false.
unfoldable pub is_bad_mode : ℕ → Bool
is_bad_mode mode = not (
    mode == usr_mode
    || mode == fiq_mode
    || mode == irq_mode
    || mode == svc_mode
    || mode == mon_mode
    || mode == abt_mode
    || mode == und_mode
    || mode == sys_mode)

module _ (table_mapped : GuestContext → Bool) where
  -- The shadow table is active; the guest's own table must be mapped in it.
  unfoldable pub map_guest_table : GuestContext → Outcome GuestContext
  map_guest_table c =
      if c.guest_virtual != 0 && not (table_mapped c) then die table_not_mapped else ok c

  unfoldable pub user_to_priv_addressing : GuestContext → Outcome GuestContext
  unfolding map_guest_table
  user_to_priv_addressing c = map_guest_table (record c { shadow_active = c.shadow_priv })

  unfoldable pub priv_to_user_addressing : GuestContext → Outcome GuestContext
  unfolding map_guest_table
  priv_to_user_addressing c = map_guest_table (record c { shadow_active = c.shadow_user })

  unfoldable pub guest_change_mode : GuestContext → ℕ → Outcome GuestContext
  unfolding set_exception_vector is_guest_in_priv_mode user_to_priv_addressing
      priv_to_user_addressing
  guest_change_mode c new_mode = do
    vectored ← set_exception_vector c new_mode
    let privileged_before = is_guest_in_priv_mode vectored
    let switched = record vectored { cpsr = with_mode vectored.cpsr new_mode }
    let privileged_after = is_guest_in_priv_mode switched
    (if not privileged_before && privileged_after
        then user_to_priv_addressing switched
        else if privileged_before && not privileged_after
        then priv_to_user_addressing switched
        else ok switched)

  -- The last part of `CPSRWriteByInstr`: the mode bits.
  unfoldable pub write_mode : GuestContext → ℕ → Outcome GuestContext
  unfolding guest_change_mode
  write_mode c val =
      if not (is_bad_mode (mode_of val)) && mode_of val != mode_of c.cpsr
      then guest_change_mode c (mode_of val)
      else ok c

  -- `CPSRWriteByInstr`. `hw_passthrough` is CONFIG_HW_PASSTHROUGH. (`getCregVal` stops on a register
  -- that is not valid; SCTLR always is.)
  unfoldable pub cpsr_write_by_instr : Bool → GuestContext → ℕ → ℕ → Bool → Outcome GuestContext
  cpsr_write_by_instr hw_passthrough c val bytemask is_exc_ret =
      let top =
        if bit_and bytemask 8 != 0
        then bit_or (bit_and val 0xf800_0000) (if is_exc_ret then bit_and val 0x0700_0000 else 0)
        else 0 in
      let ge = if bit_and bytemask 4 != 0 then bit_and val 0x000f_0000 else 0 in
      let middle =
        if bit_and bytemask 2 != 0
        then bit_or (if is_exc_ret then bit_and val 0x0000_fc00 else 0)
            (bit_or (bit_and val 0x0000_0200) (bit_and val 0x0000_0100))
        else 0 in
      let upper = bit_or (bit_or top ge) middle in
      if bit_and bytemask 1 != 0
      then (let i = bit_and val 0x0000_0080 in
          let enabling = bit_field val i_bit == 0 && bit_field c.cpsr i_bit == 1 in
          let told =
            if not hw_passthrough && enabling && is_irq_pending c.irq_controller
            then record c { guest_irq_pending = true }
            else c in
          let maskable = bit_and (c.coproc_reg_bank cp15_sctrl) 0x0800_0000 == 0 in
          let f = if maskable || bit_field val f_bit == 0 then bit_and val 0x0000_0040 else 0 in
          let t = if is_exc_ret then bit_and val 0x0000_0020 else 0 in
          let mode = if is_bad_mode (mode_of val) then 0 else bit_and val 0x1f in
          let cpsr = bit_or (bit_or upper (bit_or i (bit_or f t))) mode in
          write_mode told val >>= λ d. ok (record d { cpsr = cpsr }))
      else ok (record c { cpsr = upper })

-- `SPSRWriteByInstr`
unfoldable pub spsr_write_by_instr : GuestContext → ℕ → ℕ → Outcome GuestContext
unfolding spsr_write is_bad_mode
spsr_write_by_instr c val bytemask =
    let top = if bit_and bytemask 8 != 0 then bit_and val 0xff00_0000 else 0 in
    let ge = if bit_and bytemask 4 != 0 then bit_and val 0x000f_0000 else 0 in
    let middle = if bit_and bytemask 2 != 0 then bit_and val 0x0000_ff00 else 0 in
    let low =
      if bit_and bytemask 1 != 0
      then bit_or (bit_and val 0x0000_00e0)
          (if is_bad_mode (bit_and val 0x1f) then 0 else bit_and val 0x1f)
      else 0 in
    spsr_write c (bit_or (bit_or (bit_or top ge) middle) low)
