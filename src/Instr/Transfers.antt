-- ===== src/Instr/Transfers.antt =====
-- The shapes that the loads and the stores of src/instructionEmu/interpreter/arm share. The offset
-- is an argument, which may read registers.
use hyparm.Common.{ℕ, ◌+◌, ◌%◌, ◌^◌, Bool, true, false, ◌==◌, if◌then◌else◌, Outcome, ok, ◌>>=◌}
use hyparm.Access.{AccessSize, byte, halfword, word}
use hyparm.Handle.System.{System}
use hyparm.Instr.Encoding.{rn, rt}
use hyparm.Instr.Machine.{
  Bus, go_next, go_to, set_register, write_back, get_register, offset_address, access_address,
}

-- The bits of a register that a store takes.
abbrev pub low_part : AccessSize → ℕ → ℕ
low_part byte value = value % 2 ^ 8
low_part halfword value = value % 2 ^ 16
low_part word value = value

module _ (thumb2 : Bool) (bus : Bus) where
  -- Bytes and halfwords: the register is written before the base.
  unfoldable pub load_part :
      AccessSize → System → (instr : ℕ) → (System → Outcome ℕ) → Outcome (System × ℕ)
  unfolding set_register write_back
  load_part size s instr offset_of = do
    base ← get_register thumb2 s (rn instr)
    offset ← offset_of s
    (value, loaded) ← bus.vm_load s size (access_address instr base offset)
    filled ← set_register loaded (rt instr) value
    back ← write_back filled instr (offset_address instr base offset)
    go_next back

  -- A word: the base is written first, and R15 may be loaded.
  unfoldable pub load_word : System → (instr : ℕ) → (System → Outcome ℕ) → Outcome (System × ℕ)
  unfolding set_register write_back go_to
  load_word s instr offset_of = do
    base ← get_register thumb2 s (rn instr)
    offset ← offset_of s
    let address = access_address instr base offset
    (value, loaded) ← bus.vm_load s word address
    back ← write_back loaded instr (offset_address instr base offset)
    (if rt instr == 15
        then (if address % 4 == 0 then ok (go_to back value) else go_next back)
        else set_register back (rt instr) value >>= go_next)

  -- The loads with the rights of user mode: the base is always written, before the register. The
  -- offset is read after the load.
  unfoldable pub load_user :
      AccessSize → System → (instr : ℕ) → (System → Outcome ℕ) → Outcome (System × ℕ)
  unfolding set_register
  load_user size s instr offset_of = do
    address ← get_register thumb2 s (rn instr)
    (aborts, checked) ← bus.user_aborts s false address
    let rest = (do
      (value, loaded) ← bus.vm_load checked size address
      offset ← offset_of loaded
      back ← set_register loaded (rn instr) (offset_address instr address offset)
      filled ← set_register back (rt instr) value
      go_next filled)
    (if aborts then ok (checked, checked.guest.registers 15) else rest)

  unfoldable pub store_part :
      AccessSize → System → (instr : ℕ) → (System → Outcome ℕ) → Outcome (System × ℕ)
  unfolding write_back
  store_part size s instr offset_of = do
    base ← get_register thumb2 s (rn instr)
    offset ← offset_of s
    value ← get_register thumb2 s (rt instr)
    stored ← bus.vm_store s size (access_address instr base offset) (low_part size value)
    back ← write_back stored instr (offset_address instr base offset)
    go_next back

  -- The offset is read before the check.
  unfoldable pub store_user :
      AccessSize → System → (instr : ℕ) → (System → Outcome ℕ) → Outcome (System × ℕ)
  unfolding set_register
  store_user size s instr offset_of = do
    address ← get_register thumb2 s (rn instr)
    offset ← offset_of s
    (aborts, checked) ← bus.user_aborts s true address
    let rest = (do
      value ← get_register thumb2 checked (rt instr)
      stored ← bus.vm_store checked size address (low_part size value)
      back ← set_register stored (rn instr) (offset_address instr address offset)
      go_next back)
    (if aborts then ok (checked, checked.guest.registers 15) else rest)

  -- `armLdrd*`: both words go to Rt.
  unfoldable pub load_dual : System → (instr : ℕ) → (System → Outcome ℕ) → Outcome (System × ℕ)
  unfolding set_register write_back
  load_dual s instr offset_of = do
    base ← get_register thumb2 s (rn instr)
    offset ← offset_of s
    let address = access_address instr base offset
    (value, loaded) ← bus.vm_load s word address
    (value2, loaded2) ← bus.vm_load loaded word ((address + 4) % 2 ^ 32)
    filled ← set_register loaded2 (rt instr) value
    refilled ← set_register filled (rt instr) value2
    back ← write_back refilled instr (offset_address instr base offset)
    go_next back

  unfoldable pub store_dual : System → (instr : ℕ) → (System → Outcome ℕ) → Outcome (System × ℕ)
  unfolding write_back
  store_dual s instr offset_of = do
    base ← get_register thumb2 s (rn instr)
    offset ← offset_of s
    let address = access_address instr base offset
    value ← get_register thumb2 s (rt instr)
    stored ← bus.vm_store s word address value
    value2 ← get_register thumb2 stored (rt instr + 1)
    stored2 ← bus.vm_store stored word ((address + 4) % 2 ^ 32) value2
    back ← write_back stored2 instr (offset_address instr base offset)
    go_next back
