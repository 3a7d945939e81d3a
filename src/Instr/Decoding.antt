-- ===== src/Instr/Decoding.antt =====
-- The decoding of the loads and stores, against the fields of the architecture.
use hyparm.Common.{
  ℕ, ◌+◌, ◌*◌, ◌/◌, ◌%◌, ◌^◌, bit_and, ◌<◌, ◌≤◌, ◌≡◌, ◌≢◌, refl, ◌∙◌, arith, Bool, not, ◌&&◌, true,
  false, ◌==◌, if◌then◌else◌,
}
use hyparm.Instr.Encoding.{flag}
use hyparm.Instr.Emulate.{
  Access, matches, decode_load, decode_access, str_imm, str_reg, strb_imm, strb_reg, strh_imm,
  strh_reg, strd_imm, strd_reg, strex, ldr_reg, ldr_imm, ldrb_imm, ldrb_reg, ldrh_imm, ldrh_reg,
  ldrd_imm, ldrd_reg,
}
use hyparm.Instr.SingleFields.{single_access, decode_access-single_access}
use hyparm.Instr.Masks.{other_class, bit_and_split, low_mask, kind_mask_and, mask_90, mask_f90}

-- The table of the architecture for single loads and stores of words and bytes, with the forms that
-- access memory as user mode does: P clear and W set.
pub data Single : Type 0 where
  str strt strb strbt ldr ldrt ldrb ldrbt : (is_register : Bool) → Single

unfoldable pub single_encoding : ℕ → Single
single_encoding x =
    let user = not (flag 24 x) && flag 21 x in
    if flag 20 x
    then (if flag 22 x
        then (if user then ldrbt (flag 25 x) else ldrb (flag 25 x))
        else (if user then ldrt (flag 25 x) else ldr (flag 25 x)))
    else if flag 22 x
    then (if user then strbt (flag 25 x) else strb (flag 25 x))
    else (if user then strt (flag 25 x) else str (flag 25 x))

-- The access of each row, with no difference between a form for user mode and the ordinary one.
abbrev pub without_user : Single → Access
without_user (str r) = if r then str_reg else str_imm
without_user (strt r) = if r then str_reg else str_imm
without_user (strb r) = if r then strb_reg else strb_imm
without_user (strbt r) = if r then strb_reg else strb_imm
without_user (ldr r) = if r then ldr_reg else ldr_imm
without_user (ldrt r) = if r then ldr_reg else ldr_imm
without_user (ldrb r) = if r then ldrb_reg else ldrb_imm
without_user (ldrbt r) = if r then ldrb_reg else ldrb_imm

-- An instruction with 01 in bits 27 and 26, with bit 4 clear if bit 25 is set, is decoded as its row
-- in the architecture's table of single loads and stores has it, but that STRT, STRBT, LDRT and
-- LDRBT, the forms with P clear and W set, are decoded as STR, STRB, LDR and LDRB.
pub decode_access-single :
    (x : ℕ)
    → x / 2 ^ 26 % 4 ≡ 1
    → (flag 25 x ≡ true → flag 4 x ≡ false)
    → decode_access x ≡ without_user (single_encoding x)
unfolding single_access single_encoding
decode_access-single x single memory =
    decode_access-single_access x single memory
    ∙ without_user_lem (flag 20 x) (flag 22 x) (flag 25 x) (not (flag 24 x) && flag 21 x)
  where
    without_user_lem :
        (l b r user : Bool)
        → (if l
            then (if b
                then (if r then ldrb_reg else ldrb_imm)
                else (if r then ldr_reg else ldr_imm))
            else if b
            then (if r then strb_reg else strb_imm)
            else (if r then str_reg else str_imm))
          ≡ without_user (
              if l
              then (if b
                  then (if user then ldrbt r else ldrb r)
                  else (if user then ldrt r else ldr r))
              else if b
              then (if user then strbt r else strb r)
              else (if user then strt r else str r))
    without_user_lem true true r true = refl
    without_user_lem true true r false = refl
    without_user_lem true false r true = refl
    without_user_lem true false r false = refl
    without_user_lem false true r true = refl
    without_user_lem false true r false = refl
    without_user_lem false false r true = refl
    without_user_lem false false r false = refl

-- The decoding of the loads and stores of halfwords and of two words, as the masks have it: with L set,
-- bits 6 and 5 do not count.
unfoldable pub extra_access : ℕ → Access
extra_access x =
    if flag 20 x
    then (if flag 22 x then ldrh_imm else ldrh_reg)
    else if x / 2 ^ 5 % 4 == 1
    then (if flag 22 x then strh_imm else strh_reg)
    else if x / 2 ^ 5 % 4 == 2
    then (if flag 22 x then ldrd_imm else ldrd_reg)
    else (if flag 22 x then strd_imm else strd_reg)

extra_tests :
    (b c kind z top : ℕ) (rest : Access)
    → b ≤ 1
    → c ≤ 1
    → kind ≢ 0
    → kind < 4
    → z < 16
    → (b ≡ 0 → z ≡ 0)
    → let row = (b * 4 + c) * 2 ^ 20 in
      let low = 9 + 2 * kind in
      (if row + low * 2 ^ 4 == 0x0040_00b0
        then strh_imm
        else if row + (z * 16 + low) * 2 ^ 4 == 0x0000_00b0
        then strh_reg
        else if row + low * 2 ^ 4 == 0x0040_00f0
        then strd_imm
        else if row + (z * 16 + low) * 2 ^ 4 == 0x0000_00f0
        then strd_reg
        else if top * 2 ^ 20 + (z * 16 + low) * 2 ^ 4 == 0x0180_0f90
        then strex
        else if row + 0x90 == 0x0050_0090
        then ldrh_imm
        else if row + (z * 2 ^ 8 + 0x90) == 0x0010_0090
        then ldrh_reg
        else if row + low * 2 ^ 4 == 0x0040_00d0
        then ldrd_imm
        else if row + (z * 16 + low) * 2 ^ 4 == 0x0000_00d0
        then ldrd_reg
        else rest)
      ≡ (if c == 1
          then (if b == 1 then ldrh_imm else ldrh_reg)
          else if kind == 1
          then (if b == 1 then strh_imm else strh_reg)
          else if kind == 2
          then (if b == 1 then ldrd_imm else ldrd_reg)
          else (if b == 1 then strd_imm else strd_reg))
extra_tests b c kind z top rest b1 c1 k0 k4 z16 reserved = ground arith

-- An instruction with 000 in bits 27 to 25, with bits 7 and 4 set, another of bits 6 and 5 set, and
-- the reserved bits 11 to 8 clear where the offset is a register, is decoded by bits 6 and 5 as a
-- store of a halfword, or a load or store of two words, where L is clear; where L is set it is
-- always decoded as a load of a halfword without sign, also where bits 6 and 5 say a signed byte or
-- a signed halfword.
pub decode_access-extra :
    (x : ℕ)
    → x / 2 ^ 25 % 8 ≡ 0
    → flag 7 x ≡ true
    → flag 4 x ≡ true
    → x / 2 ^ 5 % 4 ≢ 0
    → (flag 22 x ≡ false → x / 2 ^ 8 % 16 ≡ 0)
    → decode_access x ≡ extra_access x
unfolding decode_access decode_load extra_access
decode_access-extra x extra b7 b4 some reserved =
    let no : (mask masked : ℕ)
        → mask / 2 ^ 25 ≡ 7
        → masked / 2 ^ 25 ≢ 0
        → matches x mask masked ≡ false =
      λ mask masked full low. other_class x mask masked full (omega arith) in
    let eb7 : x / 2 ^ 7 % 2 ≡ 1 = ground (arith, b7) in
    let eb4 : x / 2 ^ 4 % 2 ≡ 1 = ground (arith, b4) in
    let k = x / 2 ^ 5 % 4 in
    let z = x / 2 ^ 8 % 16 in
    let low : x / 2 ^ 4 % 16 ≡ 9 + 2 * k = omega (arith, eb7, eb4) in
    let low8 : x / 2 ^ 4 % 256 ≡ z * 16 + (9 + 2 * k) = omega (arith, eb7, eb4) in
    let kind : x / 2 ^ 25 % 8 * 32 + x / 2 ^ 22 % 2 * 4 + x / 2 ^ 20 % 2
        ≡ x / 2 ^ 22 % 2 * 4 + x / 2 ^ 20 % 2 =
      omega (arith, extra) in
    let f0 : bit_and x 0x0e50_00f0
        ≡ (x / 2 ^ 22 % 2 * 4 + x / 2 ^ 20 % 2) * 2 ^ 20 + (9 + 2 * k) * 2 ^ 4 =
      rw (kind_mask_and x 0xf0 (omega arith), kind, low_mask 4 x, low) refl in
    let ff0 : bit_and x 0x0e50_0ff0
        ≡ (x / 2 ^ 22 % 2 * 4 + x / 2 ^ 20 % 2) * 2 ^ 20 + (z * 16 + (9 + 2 * k)) * 2 ^ 4 =
      rw (kind_mask_and x 0xff0 (omega arith), kind, low_mask 8 x, low8) refl in
    let n90 : bit_and x 0x0e50_0090 ≡ (x / 2 ^ 22 % 2 * 4 + x / 2 ^ 20 % 2) * 2 ^ 20 + 0x90 =
      rw (kind_mask_and x 0x90 (omega arith), kind, mask_90 x, eb7, eb4) refl in
    let f90 : bit_and x 0x0e50_0f90
        ≡ (x / 2 ^ 22 % 2 * 4 + x / 2 ^ 20 % 2) * 2 ^ 20 + (z * 2 ^ 8 + 0x90) =
      rw (kind_mask_and x 0xf90 (omega arith), kind, mask_f90 x, eb7, eb4) refl in
    let ex : bit_and x 0x0ff0_0ff0
        ≡ bit_and (x / 2 ^ 20) 0xff * 2 ^ 20 + (z * 16 + (9 + 2 * k)) * 2 ^ 4 =
      rw (bit_and_split 20 x 0xff 0xff0 (omega arith), low_mask 8 x, low8) refl in
    rw
      (
        no 0x0e50_0000 0x0400_0000 refl (omega arith),
        no 0x0e50_0010 0x0600_0000 refl (omega arith),
        no 0x0e50_0000 0x0440_0000 refl (omega arith),
        no 0x0e50_0010 0x0640_0000 refl (omega arith),
        no 0x0e10_0000 0x0800_0000 refl (omega arith),
        no 0x0e50_0000 0x0610_0000 refl (omega arith),
        no 0x0e50_0000 0x0410_0000 refl (omega arith),
        no 0x0e50_0000 0x0450_0000 refl (omega arith),
        no 0x0e50_0010 0x0650_0000 refl (omega arith),
        f0,
        ff0,
        n90,
        f90,
        ex,
      )
      (extra_tests (x / 2 ^ 22 % 2) (x / 2 ^ 20 % 2) k z _ _ (omega arith) (omega arith) some
        (omega arith) (omega arith) (λ none. reserved (ground (arith, none))))
