-- ===== src/Cpu/Shifts.antt =====
-- The shifter operands: src/instructionEmu/interpreter/internals.c (`rorVal`, `armExpandImm12`,
-- `decodeShiftImmediate`, `shiftVal`) and src/instructionEmu/interpreter/common.c (`rorCarry`,
-- `shiftCarry`, `armExpandImm`). `rorCarry` is called with amounts below 32 only.
use hyparm.Common.{
  ℕ, zero, suc, ◌-◌, ◌*◌, ◌/◌, ◌%◌, ◌^◌, bit_and, bit_or, Bool, ◌==◌, ◌!=◌, if◌then◌else◌,
}
use hyparm.Common.{Outcome, ok, die, ◌>>=◌, not_implemented}

-- `ShiftType` of src/common/types.h.
pub data ShiftType : Type 0 where
  lsl lsr asr rrx ror : ShiftType

-- `u32int_c`
pub record Carried : Type 0 where
  pub val : ℕ
  pub carry : Bool

-- One round of the loop of `rorVal`.
unfoldable pub ror_once : ℕ → ℕ
ror_once value =
    if bit_and value 1 == 1 then bit_or (value / 2) 0x8000_0000 else bit_and (value / 2) 0x7fff_ffff

unfoldable pub ror_val : ℕ → ℕ → ℕ
ror_val value zero = value
ror_val value (suc left) = ror_val (ror_once value) left

unfoldable pub arm_expand_imm12 : ℕ → ℕ
arm_expand_imm12 imm12 = ror_val (bit_and imm12 0xff) (bit_and imm12 0xf00 / 2 ^ 8 * 2)

-- The two encodings 0 to 3 of a shift type, and the type and the amount that they stand for.
unfoldable pub decode_shift_immediate : ℕ → ℕ → ShiftType × ℕ
decode_shift_immediate instr_shift_type imm5 =
    let type = bit_and instr_shift_type 3 in
    let shamt = bit_and imm5 0x1f in
    let long = if shamt == 0 then 32 else shamt in
    if type == 0
    then (ShiftType.lsl, shamt)
    else if type == 1
    then (ShiftType.lsr, long)
    else if type == 2
    then (ShiftType.asr, long)
    else if shamt == 0
    then (ShiftType.rrx, 1)
    else (ShiftType.ror, shamt)

-- `shiftVal`; a shift by 32 or more, which C leaves undefined, is not a case of its own.
unfoldable pub shift_val : ℕ → ShiftType → ℕ → Outcome ℕ
shift_val value ShiftType.ror shamt = if shamt == 0 then ok value else ok (ror_val value shamt)
shift_val value ShiftType.lsl shamt =
    if shamt == 0 then ok value else ok (value * 2 ^ shamt % 2 ^ 32)
shift_val value ShiftType.lsr shamt = if shamt == 0 then ok value else ok (value / 2 ^ shamt)
shift_val value ShiftType.asr shamt = if shamt == 0 then ok value else die not_implemented
shift_val value ShiftType.rrx shamt = die not_implemented

unfoldable pub ror_carry : ℕ → ℕ → Carried
ror_carry value amount =
    let rotated = bit_or (value / 2 ^ amount) (value * 2 ^ (32 - amount) % 2 ^ 32) in
    record { val = rotated; carry = bit_and rotated 0x8000_0000 != 0 }

unfoldable pub shift_carry : ℕ → ShiftType → ℕ → Bool → Outcome Carried
shift_carry value ShiftType.ror amount carry_in =
    if amount == 0
    then ok (record { val = value; carry = carry_in })
    else ok (ror_carry value amount)
shift_carry value _ amount carry_in =
    if amount == 0 then ok (record { val = value; carry = carry_in }) else die not_implemented

unfoldable pub arm_expand_imm : ℕ → Bool → Outcome ℕ
arm_expand_imm imm12 carry_in =
    shift_carry (bit_and imm12 0xff) ShiftType.ror (bit_and imm12 0xf00 / 2 ^ 7) carry_in
    >>= λ shifted. ok shifted.val
