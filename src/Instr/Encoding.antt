-- ===== src/Instr/Encoding.antt =====
-- The bit-fields of an instruction (`union ARMInstruction` of
-- src/instructionEmu/decoder/arm/structs.h). `Rt` and `Rd` stand at the same place.
use hyparm.Common.{ℕ, ◌+◌, ◌*◌, ◌/◌, ◌%◌, ◌^◌, Bool, not, ◌||◌, ◌==◌}

-- The field of `w` bits at place `i`.
abbrev pub bits : ℕ → ℕ → ℕ → ℕ
bits i w instr = instr / 2 ^ i % 2 ^ w

abbrev pub flag : ℕ → ℕ → Bool
flag i instr = instr / 2 ^ i % 2 == 1

abbrev pub cc : ℕ → ℕ
cc instr = bits 28 4 instr

abbrev pub rn : ℕ → ℕ
rn instr = bits 16 4 instr

abbrev pub rt : ℕ → ℕ
rt instr = bits 12 4 instr

abbrev pub rm : ℕ → ℕ
rm instr = instr % 2 ^ 4

abbrev pub imm12 : ℕ → ℕ
imm12 instr = instr % 2 ^ 12

-- `instr.ldStImm2.imm4H << 4 | instr.ldStImm2.imm4L`; the two do not overlap.
abbrev pub imm8 : ℕ → ℕ
imm8 instr = bits 8 4 instr * 2 ^ 4 + instr % 2 ^ 4

abbrev pub shift_type : ℕ → ℕ
shift_type instr = bits 5 2 instr

abbrev pub imm5 : ℕ → ℕ
imm5 instr = bits 7 5 instr

-- `P`, `U` and `W` of loads and stores.
abbrev pub is_indexed : ℕ → Bool
is_indexed instr = flag 24 instr

abbrev pub is_up : ℕ → Bool
is_up instr = flag 23 instr

abbrev pub is_w : ℕ → Bool
is_w instr = flag 21 instr

-- `(!index) || W`
abbrev pub writes_back : ℕ → Bool
writes_back instr = not (is_indexed instr) || is_w instr

abbrev pub reg_list : ℕ → ℕ
reg_list instr = instr % 2 ^ 16

abbrev pub imm24 : ℕ → ℕ
imm24 instr = instr % 2 ^ 24
