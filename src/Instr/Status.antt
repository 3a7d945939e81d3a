-- ===== src/Instr/Status.antt =====
-- The instructions on the status registers, and those that wait or are not implemented
-- (src/instructionEmu/interpreter/arm/miscInstructions.c).
use hyparm.Common.{
  ℕ, bit_and, Bool, false, not, ◌&&◌, ◌==◌, if◌then◌else◌, Outcome, die, ◌>>=◌, not_implemented,
}
use hyparm.Cpu.State.{
  GuestContext, mode_of, bit_field, with_bit, with_mode, usr_mode, sys_mode, a_bit, i_bit, f_bit,
  c_bit,
}
use hyparm.Cpu.Registers.{spsr}
use hyparm.Cpu.Shifts.{arm_expand_imm}
use hyparm.Cpu.Modes.{cpsr_write_by_instr, spsr_write_by_instr}
use hyparm.Handle.System.{change_guest, System, with_guest}
use hyparm.Instr.Encoding.{bits, flag, rt, rm, imm12}
use hyparm.Instr.Machine.{when_passed, go_next, set_register, get_register}

-- `instr.cps.A`, `instr.cps.I` and `instr.cps.F`: the mask bit, if it is affected.
abbrev pub masked : (affected : Bool) (i v psr : ℕ) → ℕ
masked affected i v psr = if affected then with_bit psr i v else psr

-- The value that `armCpsInstruction` writes. `imod` is 2 to enable and 3 to disable.
unfoldable pub cps_value : (instr psr : ℕ) → ℕ
cps_value instr psr =
    let imod = bits 18 2 instr in
    let all = λ (v : ℕ).
      masked (flag 6 instr) f_bit v
        (masked (flag 7 instr) i_bit v (masked (flag 8 instr) a_bit v psr)) in
    let changed = if imod == 2 then all 0 else if imod == 3 then all 1 else psr in
    if flag 17 instr then with_mode changed (bits 0 5 instr) else changed

module _ (thumb2 : Bool) (table_mapped : GuestContext → Bool) (hw_passthrough : Bool) where
  -- `CPSRWriteByInstr`, and on.
  unfoldable pub write_cpsr : System → (value bytemask : ℕ) → Outcome (System × ℕ)
  unfolding cpsr_write_by_instr change_guest
  write_cpsr s value bytemask = do
    written ← cpsr_write_by_instr table_mapped hw_passthrough s.guest value bytemask false
    go_next (change_guest s written)

  unfoldable pub write_spsr : System → (value bytemask : ℕ) → Outcome (System × ℕ)
  unfolding spsr_write_by_instr
  write_spsr s value bytemask = do
    written ← spsr_write_by_instr s.guest value bytemask
    go_next (with_guest s written)

  unfoldable pub arm_cps_instruction : System → ℕ → Outcome (System × ℕ)
  unfolding cps_value write_cpsr
  arm_cps_instruction s instr = write_cpsr s (cps_value instr s.guest.cpsr) 0xf

  -- In user and system mode the SPSR is not read.
  unfoldable pub arm_mrs_instruction : System → ℕ → Outcome (System × ℕ)
  unfolding when_passed set_register spsr
  arm_mrs_instruction s instr =
      let mode = mode_of s.guest.cpsr in
      let from_spsr = (do
        value ← spsr s.guest
        read ← set_register s (rt instr) value
        go_next read) in
      let from_cpsr = (do
        read ← set_register s (rt instr) (bit_and s.guest.cpsr 0xf8ff_03df)
        go_next read) in
      when_passed s instr (
        if flag 22 instr
        then (if mode == usr_mode
            then go_next s
            else if mode == sys_mode
            then go_next s
            else from_spsr)
        else from_cpsr)

  -- `if (write_spsr) ... else ...`
  unfoldable pub msr : System → (instr value : ℕ) → Outcome (System × ℕ)
  unfolding write_cpsr write_spsr
  msr s instr value =
      if flag 22 instr
      then write_spsr s value (bits 16 4 instr)
      else write_cpsr s value (bits 16 4 instr)

  unfoldable pub arm_msr_reg_instruction : System → ℕ → Outcome (System × ℕ)
  unfolding when_passed msr
  arm_msr_reg_instruction s instr =
      when_passed s instr (do value ← get_register thumb2 s (rm instr); msr s instr value)

  unfoldable pub arm_msr_imm_instruction : System → ℕ → Outcome (System × ℕ)
  unfolding when_passed msr arm_expand_imm
  arm_msr_imm_instruction s instr = when_passed s instr (
      if bits 16 4 instr == 0 && not (flag 22 instr) then die not_implemented else (do
        value ← arm_expand_imm (imm12 instr) (bit_field s.guest.cpsr c_bit == 1)
        msr s instr value))
