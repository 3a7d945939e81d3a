-- ===== src/Instr/Multiple.antt =====
-- The multiple loads and stores (`armLdm*Instruction` and `armStm*Instruction` of
-- src/instructionEmu/interpreter/arm), and `countBitsSet` (src/common/bit.h).
use hyparm.Common.{
  ℕ, zero, suc, ◌+◌, ◌-◌, ◌*◌, ◌/◌, ◌%◌, ◌^◌, bit_and, Bool, true, ◌==◌, if◌then◌else◌, Outcome, ok,
  ◌>>=◌,
}
use hyparm.Access.{word}
use hyparm.Cpu.State.{GuestContext, mode_of, with_mode, usr_mode}
use hyparm.Cpu.Registers.{spsr}
use hyparm.Cpu.Modes.{cpsr_write_by_instr}
use hyparm.Blocks.Translations.{clear_translations_by_address}
use hyparm.Handle.System.{change_guest, System, with_guest}
use hyparm.Instr.Encoding.{flag, rn, is_indexed, is_up, is_w, reg_list}
use hyparm.Instr.Machine.{Bus, when_passed, go_next, go_to, set_register, get_register, plus, minus}

-- The fuel is the number of bits.
unfoldable pub count_ones : (fuel word : ℕ) → ℕ
count_ones zero w = 0
count_ones (suc fuel) w =
    let rest = count_ones fuel (bit_and w (w - 1)) in if w == 0 then 0 else suc rest

unfoldable pub count_bits_set : ℕ → ℕ
unfolding count_ones
count_bits_set w = count_ones 32 w

-- `clearTranslationsByAddress(context->translationStore, address)`
unfoldable pub clear_at : System → ℕ → System
unfolding clear_translations_by_address
clear_at s address =
    let cleared =
      clear_translations_by_address s.scanning.exec_bitmap s.scanning.translation_store address in
    record s { scanning = record s.scanning { translation_store = cleared } }

-- `context->CPSR.bits.mode = mode`
abbrev pub in_mode : System → ℕ → System
in_mode s mode = with_guest s (record s.guest { cpsr = with_mode s.guest.cpsr mode })

-- The first address of `armLdmInstruction` and of `armStmInstruction`.
abbrev pub start_address : (instr base count : ℕ) → ℕ
start_address instr base count =
    if is_up instr
    then (if is_indexed instr then plus base 4 else base)
    else if is_indexed instr
    then minus base (4 * count)
    else plus (minus base (4 * count)) 4

-- `increment ? base : base - length`, and 4 more if `wordhigher`.
abbrev pub user_address : (instr base length : ℕ) → ℕ
user_address instr base length =
    let address = if is_up instr then base else minus base length in
    if instr / 2 ^ 24 % 2 == instr / 2 ^ 23 % 2 then plus address 4 else address

abbrev pub end_address : (instr base length : ℕ) → ℕ
end_address instr base length = if is_up instr then plus base length else minus base length

module _ (thumb2 : Bool) (bus : Bus) where
  -- One round of the loop of a store; the system and the next address.
  unfoldable pub store_one : (registers i : ℕ) → System → (address : ℕ) → Outcome (System × ℕ)
  unfolding clear_at
  store_one registers i s address =
      let store = (do
        value ← get_register thumb2 s i
        stored ← bus.vm_store (clear_at s address) word address value
        ok (stored, (address + 4) % 2 ^ 32)) in
      if flag i registers then store else ok (s, address)

  unfoldable pub store_registers :
      (left registers i : ℕ) → System → (address : ℕ) → Outcome (System × ℕ)
  unfolding store_one
  store_registers zero registers i s address = ok (s, address)
  store_registers (suc left) registers i s address = do
    (stored, next) ← store_one registers i s address
    store_registers left registers (suc i) stored next

  unfoldable pub load_one : (registers i : ℕ) → System → (address : ℕ) → Outcome (System × ℕ)
  unfolding set_register
  load_one registers i s address =
      let load = (do
        (value, loaded) ← bus.vm_load s word address
        filled ← set_register loaded i value
        ok (filled, (address + 4) % 2 ^ 32)) in
      if flag i registers then load else ok (s, address)

  unfoldable pub load_registers :
      (left registers i : ℕ) → System → (address : ℕ) → Outcome (System × ℕ)
  unfolding load_one
  load_registers zero registers i s address = ok (s, address)
  load_registers (suc left) registers i s address = do
    (loaded, next) ← load_one registers i s address
    load_registers left registers (suc i) loaded next

  -- `if (wback) ...`
  unfoldable pub move_base : System → (instr base count : ℕ) → Outcome System
  unfolding set_register
  move_base s instr base count =
      if is_w instr then set_register s (rn instr) (end_address instr base (4 * count)) else ok s

  unfoldable pub stm : System → ℕ → Outcome (System × ℕ)
  unfolding store_registers move_base count_bits_set
  stm s instr = do
    let count = count_bits_set (reg_list instr)
    base ← get_register thumb2 s (rn instr)
    (stored, last) ← store_registers 16 (reg_list instr) 0 s (start_address instr base count)
    back ← move_base stored instr base count
    go_next back

  unfoldable pub arm_stm_instruction : System → ℕ → Outcome (System × ℕ)
  unfolding stm when_passed
  arm_stm_instruction s instr = when_passed s instr (stm s instr)

  -- The end of a load: R15, from the next address.
  unfoldable pub load_pc : System → (registers address : ℕ) → Outcome (System × ℕ)
  unfolding go_to
  load_pc s registers address =
      let load = (do (value, loaded) ← bus.vm_load s word address; ok (go_to loaded value)) in
      if flag 15 registers then load else go_next s

  unfoldable pub ldm : System → ℕ → Outcome (System × ℕ)
  unfolding load_registers move_base load_pc count_bits_set
  ldm s instr = do
    let count = count_bits_set (reg_list instr)
    base ← get_register thumb2 s (rn instr)
    (loaded, last) ← load_registers 15 (reg_list instr) 0 s (start_address instr base count)
    back ← move_base loaded instr base count
    load_pc back (reg_list instr) last

  unfoldable pub arm_ldm_instruction : System → ℕ → Outcome (System × ℕ)
  unfolding ldm when_passed
  arm_ldm_instruction s instr = when_passed s instr (ldm s instr)

  -- The registers of user mode.
  unfoldable pub stm_user : System → ℕ → Outcome (System × ℕ)
  unfolding store_registers count_bits_set
  stm_user s instr = do
    let length = 4 * count_bits_set (reg_list instr)
    base ← get_register thumb2 s (rn instr)
    (stored, last) ←
        store_registers 16 (reg_list instr) 0 (in_mode s usr_mode) (user_address instr base length)
    go_next (in_mode stored (mode_of s.guest.cpsr))

  unfoldable pub arm_stm_user_instruction : System → ℕ → Outcome (System × ℕ)
  unfolding stm_user when_passed
  arm_stm_user_instruction s instr = when_passed s instr (stm_user s instr)

  unfoldable pub ldm_user : System → ℕ → Outcome (System × ℕ)
  unfolding load_registers count_bits_set
  ldm_user s instr = do
    let length = 4 * count_bits_set (reg_list instr)
    base ← get_register thumb2 s (rn instr)
    (loaded, last) ←
        load_registers 15 (reg_list instr) 0 (in_mode s usr_mode) (user_address instr base length)
    go_next (in_mode loaded (mode_of s.guest.cpsr))

  unfoldable pub arm_ldm_user_instruction : System → ℕ → Outcome (System × ℕ)
  unfolding ldm_user when_passed
  arm_ldm_user_instruction s instr = when_passed s instr (ldm_user s instr)

  module _ (table_mapped : GuestContext → Bool) (hw_passthrough : Bool) where
    -- The exception return: the CPSR comes from the SPSR.
    unfoldable pub ldm_exc_ret : System → ℕ → Outcome (System × ℕ)
    unfolding load_registers set_register go_to count_bits_set spsr cpsr_write_by_instr change_guest
    ldm_exc_ret s instr = do
      let length = 4 * count_bits_set (reg_list instr) + 4
      base ← get_register thumb2 s (rn instr)
      (loaded, last) ← load_registers 15 (reg_list instr) 0 s (user_address instr base length)
      (new_pc, pc_loaded) ← bus.vm_load loaded word last
      back ←
          (if is_w instr
            then set_register pc_loaded (rn instr) (end_address instr base length)
            else ok pc_loaded)
      saved ← spsr back.guest
      returned ← cpsr_write_by_instr table_mapped hw_passthrough back.guest saved 0xf true
      ok (go_to (change_guest back returned) new_pc)

    unfoldable pub arm_ldm_exc_ret_instruction : System → ℕ → Outcome (System × ℕ)
    unfolding ldm_exc_ret when_passed
    arm_ldm_exc_ret_instruction s instr = when_passed s instr (ldm_exc_ret s instr)
