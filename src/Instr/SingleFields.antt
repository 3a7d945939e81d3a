-- ===== src/Instr/SingleFields.antt =====
-- The fields that decide how a single load or store of a word or byte is decoded.
use hyparm.Common.{
  ℕ, ◌+◌, ◌-◌, ◌*◌, ◌/◌, ◌%◌, ◌^◌, ◌≤◌, ◌≡◌, ◌≢◌, refl, arith, true, false, ◌==◌, if◌then◌else◌,
}
use hyparm.Instr.Encoding.{flag}
use hyparm.Instr.Emulate.{
  Access, matches, decode_load, decode_access, str_imm, str_reg, strb_imm, strb_reg, ldr_reg,
  ldr_imm, ldrb_imm, ldrb_reg,
}
use hyparm.Instr.Masks.{kind_mask, kind_mask_4, other_class}

-- The decoding of single loads and stores of words and bytes by L, B, and whether the offset is a
-- register.
unfoldable pub single_access : ℕ → Access
single_access x =
    if flag 20 x
    then (if flag 22 x
        then (if flag 25 x then ldrb_reg else ldrb_imm)
        else (if flag 25 x then ldr_reg else ldr_imm))
    else if flag 22 x
    then (if flag 25 x then strb_reg else strb_imm)
    else (if flag 25 x then str_reg else str_imm)

-- The tests that are left, on the fields.
single_tests :
    (a b c d : ℕ) (rest : Access)
    → 2 ≤ a
    → a ≤ 3
    → b ≤ 1
    → c ≤ 1
    → d ≤ 1
    → (a ≡ 3 → d ≡ 0)
    → let kind = (a * 32 + b * 4 + c) * 2 ^ 20 in
      (if kind == 0x0400_0000
        then str_imm
        else if kind + d * 2 ^ 4 == 0x0600_0000
        then str_reg
        else if kind == 0x0440_0000
        then strb_imm
        else if kind + d * 2 ^ 4 == 0x0640_0000
        then strb_reg
        else if kind == 0x0610_0000
        then ldr_reg
        else if kind == 0x0410_0000
        then ldr_imm
        else if kind == 0x0450_0000
        then ldrb_imm
        else if kind + d * 2 ^ 4 == 0x0650_0000
        then ldrb_reg
        else rest)
      ≡ (if c == 1
          then (if b == 1
              then (if a - 2 == 1 then ldrb_reg else ldrb_imm)
              else (if a - 2 == 1 then ldr_reg else ldr_imm))
          else if b == 1
          then (if a - 2 == 1 then strb_reg else strb_imm)
          else (if a - 2 == 1 then str_reg else str_imm))
single_tests a b c d rest a2 a3 b1 c1 d1 d0 = ground arith

-- These fields decide, and no others.
pub decode_access-single_access :
    (x : ℕ)
    → x / 2 ^ 26 % 4 ≡ 1
    → (flag 25 x ≡ true → flag 4 x ≡ false)
    → decode_access x ≡ single_access x
unfolding decode_access decode_load single_access
decode_access-single_access x single memory =
    let no : (mask masked : ℕ)
        → mask / 2 ^ 25 ≡ 7
        → masked / 2 ^ 26 ≢ 1
        → matches x mask masked ≡ false =
      λ mask masked full low. other_class x mask masked full (omega arith) in
    let offset_kind : x / 2 ^ 25 % 2 ≡ x / 2 ^ 25 % 8 - 2 = omega (arith, single) in
    rw
      (
        no 0x0e50_00f0 0x0040_00b0 refl (omega arith),
        no 0x0e50_0ff0 0x0000_00b0 refl (omega arith),
        no 0x0e50_00f0 0x0040_00f0 refl (omega arith),
        no 0x0e50_0ff0 0x0000_00f0 refl (omega arith),
        no 0x0ff0_0ff0 0x0180_0f90 refl (omega arith),
        no 0x0e10_0000 0x0800_0000 refl (omega arith),
        kind_mask x,
        kind_mask_4 x,
        offset_kind,
      )
      (single_tests (x / 2 ^ 25 % 8) (x / 2 ^ 22 % 2) (x / 2 ^ 20 % 2) (x / 2 ^ 4 % 2) _
        (omega (arith, single)) (omega (arith, single)) (omega arith) (omega arith) (omega arith)
        (λ three. ground (arith, memory, three)))
