-- ===== src/Instr/Emulate.antt =====
-- `emulateLoadStoreGeneric` (src/instructionEmu/loadStoreDecode.c) without CONFIG_THUMB2: the
-- instruction at R15 is decoded by masks, in this order, and its function is called.
use hyparm.Common.{
  ℕ, bit_and, Bool, false, ◌==◌, if◌then◌else◌, Outcome, ok, die, ◌>>=◌, not_implemented,
}
use hyparm.Memory.{Memory}
use hyparm.Access.{word}
use hyparm.Handle.System.{System}
use hyparm.Instr.Machine.{Bus}
use hyparm.Instr.Multiple.{clear_at, arm_stm_instruction, arm_ldm_instruction}
use hyparm.Instr.Loads.{
  arm_ldr_reg_instruction, arm_ldr_imm_instruction, arm_ldrb_imm_instruction,
  arm_ldrb_reg_instruction, arm_ldrh_imm_instruction, arm_ldrh_reg_instruction,
  arm_ldrd_imm_instruction, arm_ldrd_reg_instruction,
}
use hyparm.Instr.Stores.{
  arm_str_imm_instruction, arm_str_reg_instruction, arm_strb_imm_instruction,
  arm_strb_reg_instruction, arm_strh_imm_instruction, arm_strh_reg_instruction,
  arm_strd_imm_instruction, arm_strd_reg_instruction,
}
use hyparm.Instr.Sync.{arm_ldrex_instruction, arm_strex_instruction}

-- The functions that the decoding ends in.
pub data Access : Type 0 where
  str_imm str_reg strb_imm strb_reg strh_imm strh_reg strd_imm strd_reg strex stm : Access
  ldr_reg ldr_imm ldrb_imm ldrb_reg ldrh_imm ldrh_reg ldrd_imm ldrd_reg ldm ldrex : Access
  unknown : Access

-- `(instr.raw & MASK) == MASKED`
abbrev pub matches : (instr mask masked : ℕ) → Bool
matches instr mask masked = bit_and instr mask == masked

-- The loads, which are tried after the stores.
unfoldable pub decode_load : ℕ → Access
decode_load instr =
    if matches instr 0x0e50_0000 0x0610_0000
    then ldr_reg
    else if matches instr 0x0e50_0000 0x0410_0000
    then ldr_imm
    else if matches instr 0x0e50_0000 0x0450_0000
    then ldrb_imm
    else if matches instr 0x0e50_0010 0x0650_0000
    then ldrb_reg
    else if matches instr 0x0e50_0090 0x0050_0090
    then ldrh_imm
    else if matches instr 0x0e50_0f90 0x0010_0090
    then ldrh_reg
    else if matches instr 0x0e50_00f0 0x0040_00d0
    then ldrd_imm
    else if matches instr 0x0e50_0ff0 0x0000_00d0
    then ldrd_reg
    else if matches instr 0x0e10_0000 0x0810_0000
    then ldm
    else if matches instr 0x0ff0_0fff 0x0190_0f9f
    then ldrex
    else unknown

unfoldable pub decode_access : ℕ → Access
unfolding decode_load
decode_access instr =
    if matches instr 0x0e50_0000 0x0400_0000
    then str_imm
    else if matches instr 0x0e50_0010 0x0600_0000
    then str_reg
    else if matches instr 0x0e50_0000 0x0440_0000
    then strb_imm
    else if matches instr 0x0e50_0010 0x0640_0000
    then strb_reg
    else if matches instr 0x0e50_00f0 0x0040_00b0
    then strh_imm
    else if matches instr 0x0e50_0ff0 0x0000_00b0
    then strh_reg
    else if matches instr 0x0e50_00f0 0x0040_00f0
    then strd_imm
    else if matches instr 0x0e50_0ff0 0x0000_00f0
    then strd_reg
    else if matches instr 0x0ff0_0ff0 0x0180_0f90
    then strex
    else if matches instr 0x0e10_0000 0x0800_0000
    then stm
    else decode_load instr

module _ (bus : Bus) where
  -- The call; a single store clears the translations of the address first.
  unfoldable pub run_access : Access → System → (instr address : ℕ) → Outcome (System × ℕ)
  unfolding clear_at
  run_access str_imm s instr address = arm_str_imm_instruction false bus (clear_at s address) instr
  run_access str_reg s instr address = arm_str_reg_instruction false bus (clear_at s address) instr
  run_access strb_imm s instr address =
      arm_strb_imm_instruction false bus (clear_at s address) instr
  run_access strb_reg s instr address =
      arm_strb_reg_instruction false bus (clear_at s address) instr
  run_access strh_imm s instr address =
      arm_strh_imm_instruction false bus (clear_at s address) instr
  run_access strh_reg s instr address =
      arm_strh_reg_instruction false bus (clear_at s address) instr
  run_access strd_imm s instr address =
      arm_strd_imm_instruction false bus (clear_at s address) instr
  run_access strd_reg s instr address =
      arm_strd_reg_instruction false bus (clear_at s address) instr
  run_access strex s instr address = arm_strex_instruction false bus word (clear_at s address) instr
  run_access stm s instr address = arm_stm_instruction false bus s instr
  run_access ldr_reg s instr address = arm_ldr_reg_instruction false bus s instr
  run_access ldr_imm s instr address = arm_ldr_imm_instruction false bus s instr
  run_access ldrb_imm s instr address = arm_ldrb_imm_instruction false bus s instr
  run_access ldrb_reg s instr address = arm_ldrb_reg_instruction false bus s instr
  run_access ldrh_imm s instr address = arm_ldrh_imm_instruction false bus s instr
  run_access ldrh_reg s instr address = arm_ldrh_reg_instruction false bus s instr
  run_access ldrd_imm s instr address = arm_ldrd_imm_instruction false bus s instr
  run_access ldrd_reg s instr address = arm_ldrd_reg_instruction false bus s instr
  run_access ldm s instr address = arm_ldm_instruction false bus s instr
  run_access ldrex s instr address = arm_ldrex_instruction false bus word s instr
  run_access unknown s instr address = die not_implemented

  -- `code_memory` is the memory that R15 points into. The address that the function returns is not
  -- used.
  unfoldable pub emulate_load_store_generic : Memory ℕ → System → (address : ℕ) → Outcome System
  unfolding decode_access run_access
  emulate_load_store_generic code_memory s address = do
    let instr = code_memory (s.guest.registers 15)
    (after, next) ← run_access (decode_access instr) s instr address
    ok after
