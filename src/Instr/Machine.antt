-- ===== src/Instr/Machine.antt =====
-- What an instruction's function works on: the system of the handlers, its registers, and the
-- guest's memory behind `vmLoad` and `vmStore` (src/vm/omap35xx/hardwareLibrary.c). An instruction
-- gives the system after it and the address that it returns. `UNPREDICTABLE` does nothing.
use hyparm.Common.{ℕ, ◌+◌, ◌-◌, ◌%◌, ◌^◌, Bool, if◌then◌else◌, Outcome, ok, ◌>>=◌}
use hyparm.Access.{AccessSize}
use hyparm.Cpu.Registers.{get_gp_register, set_gp_register, condition_passed}
use hyparm.Cpu.Shifts.{decode_shift_immediate, shift_val}
use hyparm.Cpu.Exceptions.{jump}
use hyparm.Handle.System.{System, with_guest}
use hyparm.Instr.Encoding.{cc, rn, rm, shift_type, imm5, is_up, is_indexed, writes_back}

-- `vmLoad`, `vmStore`, and `shouldDataAbort` of an access in user mode.
pub record Bus : Type 0 where
  pub vm_load : System → AccessSize → (address : ℕ) → Outcome (ℕ × System)
  pub vm_store : System → AccessSize → (address value : ℕ) → Outcome System
  pub user_aborts : System → (is_write : Bool) (address : ℕ) → Outcome (Bool × System)

-- `context->R15 + ARM_INSTRUCTION_SIZE`
abbrev pub next_pc : System → ℕ
next_pc s = (s.guest.registers 15 + 4) % 2 ^ 32

abbrev pub go_next : System → Outcome (System × ℕ)
go_next s = ok (s, next_pc s)

-- `if (ConditionPassed(cc)) ...`
unfoldable pub when_passed : System → ℕ → Outcome (System × ℕ) → Outcome (System × ℕ)
when_passed s instr body = if condition_passed s.guest (cc instr) then body else go_next s

unfoldable pub set_register : System → (n value : ℕ) → Outcome System
unfolding set_gp_register
set_register s n value = set_gp_register s.guest n value >>= λ c. ok (with_guest s c)

-- `BXWritePC`, `ALUWritePC`, `LoadWritePC` and `BranchWritePC`: the current instruction set is
-- always ARM, so that the last assignment of each is this one.
unfoldable pub bx_write_pc : System → ℕ → System
unfolding jump
bx_write_pc s address = with_guest s (jump s.guest (address - address % 4))

-- `LoadWritePC(context, data); return context->R15;`
unfoldable pub go_to : System → ℕ → System × ℕ
unfolding bx_write_pc
go_to s address = let there = bx_write_pc s address in (there, there.guest.registers 15)

-- `base + offset` and `base - offset`
abbrev pub plus : ℕ → ℕ → ℕ
plus base offset = (base + offset) % 2 ^ 32

abbrev pub minus : ℕ → ℕ → ℕ
minus base offset = (base + 2 ^ 32 - offset) % 2 ^ 32

-- `offsetAddr` and `address`
abbrev pub offset_address : (instr base offset : ℕ) → ℕ
offset_address instr base offset = if is_up instr then plus base offset else minus base offset

abbrev pub access_address : (instr base offset : ℕ) → ℕ
access_address instr base offset =
    if is_indexed instr then offset_address instr base offset else base

-- `if (wback) setGPRegister(context, Rn, offsetAddr);`
unfoldable pub write_back : System → (instr offset_addr : ℕ) → Outcome System
unfolding set_register
write_back s instr offset_addr =
    if writes_back instr then set_register s (rn instr) offset_addr else ok s

module _ (thumb2 : Bool) where
  abbrev pub get_register : System → ℕ → Outcome ℕ
  get_register s n = get_gp_register thumb2 s.guest n

  -- The shifted register of an offset.
  unfoldable pub register_offset : (instr : ℕ) → System → Outcome ℕ
  unfolding decode_shift_immediate shift_val
  register_offset instr s = do
    value ← get_register s (rm instr)
    let (kind, amount) = decode_shift_immediate (shift_type instr) (imm5 instr)
    shift_val value kind amount
