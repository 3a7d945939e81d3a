-- ===== src/Instr/Branches.antt =====
-- Branches and the arithmetic on R15 (src/instructionEmu/interpreter/arm: branchInstructions.c and
-- aluInstructions.c), and `signExtend` (src/common/bit.h). The current instruction set is always
-- ARM.
use hyparm.Common.{
  ℕ, ◌+◌, ◌-◌, ◌*◌, ◌/◌, ◌%◌, ◌^◌, Bool, true, ◌==◌, ◌!=◌, leb, if◌then◌else◌, Outcome, ok, die,
  ◌>>=◌, not_implemented,
}
use hyparm.Cpu.State.{GuestContext, bit_field, c_bit}
use hyparm.Cpu.Registers.{pc, spsr}
use hyparm.Cpu.Shifts.{arm_expand_imm, decode_shift_immediate, shift_val}
use hyparm.Cpu.Modes.{cpsr_write_by_instr}
use hyparm.Handle.System.{change_guest, System}
use hyparm.Instr.Encoding.{bits, flag, rn, rm, imm5, imm12, imm24, shift_type}
use hyparm.Instr.Machine.{when_passed, go_to, set_register, get_register, plus}

-- An arithmetic shift to the right of a 32-bit value.
abbrev pub shift_right_signed : ℕ → ℕ → ℕ
shift_right_signed value amount =
    if leb (2 ^ 31) value
    then (2 ^ 32 - 2 ^ (32 - amount)) + value / 2 ^ amount
    else value / 2 ^ amount

unfoldable pub sign_extend : (value bits : ℕ) → ℕ
sign_extend value width = shift_right_signed (value * 2 ^ (32 - width) % 2 ^ 32) (32 - width)

-- GPR_LR
abbrev lr : ℕ
lr = 14

module _ (thumb2 : Bool) where
  unfoldable pub arm_b_instruction : System → ℕ → Outcome (System × ℕ)
  unfolding when_passed go_to pc sign_extend
  arm_b_instruction s instr =
      let offset = sign_extend (imm24 instr * 2 ^ 2) 26 in
      when_passed s instr (ok (go_to s (plus (pc thumb2 s.guest) offset)))

  unfoldable pub arm_bl_instruction : System → ℕ → Outcome (System × ℕ)
  unfolding when_passed go_to pc sign_extend set_register
  arm_bl_instruction s instr =
      let offset = sign_extend (imm24 instr * 2 ^ 2) 26 in
      let here = pc thumb2 s.guest in
      when_passed s instr (do
        linked ← set_register s lr ((here + 2 ^ 32 - 4) % 2 ^ 32)
        ok (go_to linked (plus here offset)))

  unfoldable pub arm_blx_register_instruction : System → ℕ → Outcome (System × ℕ)
  unfolding when_passed go_to pc set_register
  arm_blx_register_instruction s instr = when_passed s instr (do
    target ← get_register thumb2 s (rm instr)
    linked ← set_register s lr ((pc thumb2 s.guest + 2 ^ 32 - 4) % 2 ^ 32)
    ok (go_to linked target))

  unfoldable pub arm_bx_instruction : System → ℕ → Outcome (System × ℕ)
  unfolding when_passed go_to
  arm_bx_instruction s instr =
      when_passed s instr (do target ← get_register thumb2 s (rm instr); ok (go_to s target))

  -- ADD and MOV of `ALU opcodes`
  abbrev add_opcode : ℕ
  add_opcode = 4

  abbrev mov_opcode : ℕ
  mov_opcode = 13

  module _ (table_mapped : GuestContext → Bool) (hw_passthrough : Bool) where
    -- `if (instr.aluReg.S) ...; ALUWritePC(context, result & ~3); return context->R15;`
    unfoldable pub alu_write : System → (instr result : ℕ) → Outcome (System × ℕ)
    unfolding go_to spsr cpsr_write_by_instr change_guest
    alu_write s instr result =
        let restored = (do
          saved ← spsr s.guest
          returned ← cpsr_write_by_instr table_mapped hw_passthrough s.guest saved 0xf true
          ok (go_to (change_guest s returned) (result - result % 4))) in
        if flag 20 instr then restored else ok (go_to s (result - result % 4))

    unfoldable pub arm_alu_imm_instruction : System → ℕ → Outcome (System × ℕ)
    unfolding when_passed alu_write arm_expand_imm
    arm_alu_imm_instruction s instr = when_passed s instr (do
      operand1 ← get_register thumb2 s (rn instr)
      operand2 ← arm_expand_imm (imm12 instr) (bit_field s.guest.cpsr c_bit == 1)
      (if bits 21 4 instr == add_opcode
          then alu_write s instr (plus operand1 operand2)
          else die not_implemented))

    unfoldable pub arm_alu_reg_instruction : System → ℕ → Outcome (System × ℕ)
    unfolding when_passed alu_write decode_shift_immediate shift_val
    arm_alu_reg_instruction s instr = when_passed s instr (do
      let (kind, amount) = decode_shift_immediate (shift_type instr) (imm5 instr)
      value ← get_register thumb2 s (rm instr)
      operand1 ← get_register thumb2 s (rn instr)
      operand2 ← shift_val value kind amount
      (if bits 21 4 instr == add_opcode
          then alu_write s instr (plus operand1 operand2)
          else if bits 21 4 instr == mov_opcode
          then (if imm5 instr != 0 then die not_implemented else alu_write s instr value)
          else die not_implemented))
