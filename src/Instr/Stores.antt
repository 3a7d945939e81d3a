-- ===== src/Instr/Stores.antt =====
-- src/instructionEmu/interpreter/arm/storeInstructions.c, without the multiple stores.
use hyparm.Common.{ℕ, Bool, Outcome, ok}
use hyparm.Access.{byte, halfword, word}
use hyparm.Handle.System.{System}
use hyparm.Instr.Encoding.{rm, imm12, imm8}
use hyparm.Instr.Machine.{Bus, when_passed, get_register, register_offset}
use hyparm.Instr.Transfers.{store_part, store_user, store_dual}

module _ (thumb2 : Bool) (bus : Bus) where
  unfoldable pub arm_strb_imm_instruction : System → ℕ → Outcome (System × ℕ)
  unfolding store_part when_passed
  arm_strb_imm_instruction s instr =
      when_passed s instr (store_part thumb2 bus byte s instr (λ t. ok (imm12 instr)))

  unfoldable pub arm_strb_reg_instruction : System → ℕ → Outcome (System × ℕ)
  unfolding store_part when_passed register_offset
  arm_strb_reg_instruction s instr =
      when_passed s instr (store_part thumb2 bus byte s instr (register_offset thumb2 instr))

  unfoldable pub arm_strbt_imm_instruction : System → ℕ → Outcome (System × ℕ)
  unfolding store_user when_passed
  arm_strbt_imm_instruction s instr =
      when_passed s instr (store_user thumb2 bus byte s instr (λ t. ok (imm12 instr)))

  unfoldable pub arm_strbt_reg_instruction : System → ℕ → Outcome (System × ℕ)
  unfolding store_user when_passed register_offset
  arm_strbt_reg_instruction s instr =
      when_passed s instr (store_user thumb2 bus byte s instr (register_offset thumb2 instr))

  unfoldable pub arm_strh_imm_instruction : System → ℕ → Outcome (System × ℕ)
  unfolding store_part when_passed
  arm_strh_imm_instruction s instr =
      when_passed s instr (store_part thumb2 bus halfword s instr (λ t. ok (imm8 instr)))

  -- The shift is by 0.
  unfoldable pub arm_strh_reg_instruction : System → ℕ → Outcome (System × ℕ)
  unfolding store_part when_passed
  arm_strh_reg_instruction s instr =
      when_passed s instr
        (store_part thumb2 bus halfword s instr (λ t. get_register thumb2 t (rm instr)))

  unfoldable pub arm_strht_imm_instruction : System → ℕ → Outcome (System × ℕ)
  unfolding store_user when_passed
  arm_strht_imm_instruction s instr =
      when_passed s instr (store_user thumb2 bus halfword s instr (λ t. ok (imm8 instr)))

  unfoldable pub arm_strht_reg_instruction : System → ℕ → Outcome (System × ℕ)
  unfolding store_user when_passed
  arm_strht_reg_instruction s instr =
      when_passed s instr
        (store_user thumb2 bus halfword s instr (λ t. get_register thumb2 t (rm instr)))

  unfoldable pub arm_str_imm_instruction : System → ℕ → Outcome (System × ℕ)
  unfolding store_part when_passed
  arm_str_imm_instruction s instr =
      when_passed s instr (store_part thumb2 bus word s instr (λ t. ok (imm12 instr)))

  unfoldable pub arm_str_reg_instruction : System → ℕ → Outcome (System × ℕ)
  unfolding store_part when_passed register_offset
  arm_str_reg_instruction s instr =
      when_passed s instr (store_part thumb2 bus word s instr (register_offset thumb2 instr))

  unfoldable pub arm_strt_imm_instruction : System → ℕ → Outcome (System × ℕ)
  unfolding store_user when_passed
  arm_strt_imm_instruction s instr =
      when_passed s instr (store_user thumb2 bus word s instr (λ t. ok (imm12 instr)))

  unfoldable pub arm_strt_reg_instruction : System → ℕ → Outcome (System × ℕ)
  unfolding store_user when_passed register_offset
  arm_strt_reg_instruction s instr =
      when_passed s instr (store_user thumb2 bus word s instr (register_offset thumb2 instr))

  unfoldable pub arm_strd_imm_instruction : System → ℕ → Outcome (System × ℕ)
  unfolding store_dual when_passed
  arm_strd_imm_instruction s instr =
      when_passed s instr (store_dual thumb2 bus s instr (λ t. ok (imm8 instr)))

  unfoldable pub arm_strd_reg_instruction : System → ℕ → Outcome (System × ℕ)
  unfolding store_dual when_passed
  arm_strd_reg_instruction s instr =
      when_passed s instr (store_dual thumb2 bus s instr (λ t. get_register thumb2 t (rm instr)))
