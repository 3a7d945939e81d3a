-- ===== src/Instr/Sync.antt =====
-- The exclusive loads and stores (src/instructionEmu/interpreter/arm/syncInstructions.c). The
-- monitors always pass.
use hyparm.Common.{ℕ, ◌+◌, ◌%◌, ◌^◌, Bool, Outcome, die, ◌>>=◌, not_implemented}
use hyparm.Access.{AccessSize, halfword, word}
use hyparm.Handle.System.{System}
use hyparm.Instr.Encoding.{rn, rt, rm}
use hyparm.Instr.Machine.{Bus, when_passed, go_next, set_register, get_register}
use hyparm.Instr.Transfers.{low_part}

-- `armClrexInstruction`
unfoldable pub arm_clrex_instruction : System → ℕ → Outcome (System × ℕ)
arm_clrex_instruction s instr = go_next s

module _ (thumb2 : Bool) (bus : Bus) where
  -- `armLdrexInstruction`, `armLdrexbInstruction` and `armLdrexhInstruction`, by the size.
  unfoldable pub arm_ldrex_instruction : AccessSize → System → ℕ → Outcome (System × ℕ)
  unfolding when_passed set_register
  arm_ldrex_instruction size s instr = when_passed s instr (do
    address ← get_register thumb2 s (rn instr)
    (value, loaded) ← bus.vm_load s size address
    filled ← set_register loaded (rt instr) (low_part size value)
    go_next filled)

  unfoldable pub arm_ldrexd_instruction : System → ℕ → Outcome (System × ℕ)
  unfolding when_passed set_register
  arm_ldrexd_instruction s instr = when_passed s instr (do
    address ← get_register thumb2 s (rn instr)
    (value, loaded) ← bus.vm_load s word address
    (value2, loaded2) ← bus.vm_load loaded word ((address + 4) % 2 ^ 32)
    filled ← set_register loaded2 (rt instr) value
    filled2 ← set_register filled (rt instr + 1) value2
    go_next filled2)

  -- `armStrexInstruction`, `armStrexbInstruction` and `armStrexhInstruction`, by the size. Rt of the
  -- encoding stands at bit 0, and Rd at bit 12.
  unfoldable pub arm_strex_instruction : AccessSize → System → ℕ → Outcome (System × ℕ)
  unfolding when_passed set_register
  arm_strex_instruction size s instr = when_passed s instr (do
    address ← get_register thumb2 s (rn instr)
    value ← get_register thumb2 s (rm instr)
    stored ← bus.vm_store s size address (low_part size value)
    told ← set_register stored (rt instr) 0
    go_next told)

  -- A halfword is stored first, and then the second register before the first.
  unfoldable pub arm_strexd_instruction : System → ℕ → Outcome (System × ℕ)
  unfolding when_passed set_register
  arm_strexd_instruction s instr = when_passed s instr (do
    address ← get_register thumb2 s (rn instr)
    value ← get_register thumb2 s (rm instr)
    value2 ← get_register thumb2 s (rm instr + 1)
    half ← bus.vm_store s halfword address (low_part halfword value)
    told ← set_register half (rt instr) 0
    stored ← bus.vm_store told word address value2
    stored2 ← bus.vm_store stored word ((address + 4) % 2 ^ 32) value
    go_next stored2)

  -- `armSwpInstruction`
  unfoldable pub arm_swp_instruction : System → ℕ → Outcome (System × ℕ)
  arm_swp_instruction s instr = die not_implemented
