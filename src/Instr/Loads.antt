-- ===== src/Instr/Loads.antt =====
-- src/instructionEmu/interpreter/arm/loadInstructions.c, without the multiple loads.
use hyparm.Common.{ℕ, Bool, Outcome, ok}
use hyparm.Access.{byte, halfword, word}
use hyparm.Handle.System.{System}
use hyparm.Instr.Encoding.{rm, imm12, imm8}
use hyparm.Instr.Machine.{Bus, when_passed, get_register, register_offset}
use hyparm.Instr.Transfers.{load_part, load_word, load_user, load_dual}

module _ (thumb2 : Bool) (bus : Bus) where
  unfoldable pub arm_ldrb_imm_instruction : System → ℕ → Outcome (System × ℕ)
  unfolding load_part when_passed
  arm_ldrb_imm_instruction s instr =
      when_passed s instr (load_part thumb2 bus byte s instr (λ t. ok (imm12 instr)))

  unfoldable pub arm_ldrb_reg_instruction : System → ℕ → Outcome (System × ℕ)
  unfolding load_part when_passed register_offset
  arm_ldrb_reg_instruction s instr =
      when_passed s instr (load_part thumb2 bus byte s instr (register_offset thumb2 instr))

  unfoldable pub arm_ldrbt_imm_instruction : System → ℕ → Outcome (System × ℕ)
  unfolding load_user when_passed
  arm_ldrbt_imm_instruction s instr =
      when_passed s instr (load_user thumb2 bus byte s instr (λ t. ok (imm12 instr)))

  unfoldable pub arm_ldrbt_reg_instruction : System → ℕ → Outcome (System × ℕ)
  unfolding load_user when_passed register_offset
  arm_ldrbt_reg_instruction s instr =
      when_passed s instr (load_user thumb2 bus byte s instr (register_offset thumb2 instr))

  unfoldable pub arm_ldrh_imm_instruction : System → ℕ → Outcome (System × ℕ)
  unfolding load_part when_passed
  arm_ldrh_imm_instruction s instr =
      when_passed s instr (load_part thumb2 bus halfword s instr (λ t. ok (imm8 instr)))

  -- The shift is by 0.
  unfoldable pub arm_ldrh_reg_instruction : System → ℕ → Outcome (System × ℕ)
  unfolding load_part when_passed
  arm_ldrh_reg_instruction s instr =
      when_passed s instr
        (load_part thumb2 bus halfword s instr (λ t. get_register thumb2 t (rm instr)))

  -- A byte is loaded.
  unfoldable pub arm_ldrht_imm_instruction : System → ℕ → Outcome (System × ℕ)
  unfolding load_user when_passed
  arm_ldrht_imm_instruction s instr =
      when_passed s instr (load_user thumb2 bus byte s instr (λ t. ok (imm8 instr)))

  unfoldable pub arm_ldrht_reg_instruction : System → ℕ → Outcome (System × ℕ)
  unfolding load_user when_passed
  arm_ldrht_reg_instruction s instr =
      when_passed s instr
        (load_user thumb2 bus byte s instr (λ t. get_register thumb2 t (rm instr)))

  unfoldable pub arm_ldr_imm_instruction : System → ℕ → Outcome (System × ℕ)
  unfolding load_word when_passed
  arm_ldr_imm_instruction s instr =
      when_passed s instr (load_word thumb2 bus s instr (λ t. ok (imm12 instr)))

  unfoldable pub arm_ldr_reg_instruction : System → ℕ → Outcome (System × ℕ)
  unfolding load_word when_passed register_offset
  arm_ldr_reg_instruction s instr =
      when_passed s instr (load_word thumb2 bus s instr (register_offset thumb2 instr))

  unfoldable pub arm_ldrt_imm_instruction : System → ℕ → Outcome (System × ℕ)
  unfolding load_user when_passed
  arm_ldrt_imm_instruction s instr =
      when_passed s instr (load_user thumb2 bus word s instr (λ t. ok (imm12 instr)))

  unfoldable pub arm_ldrt_reg_instruction : System → ℕ → Outcome (System × ℕ)
  unfolding load_user when_passed register_offset
  arm_ldrt_reg_instruction s instr =
      when_passed s instr (load_user thumb2 bus word s instr (register_offset thumb2 instr))

  unfoldable pub arm_ldrd_imm_instruction : System → ℕ → Outcome (System × ℕ)
  unfolding load_dual when_passed
  arm_ldrd_imm_instruction s instr =
      when_passed s instr (load_dual thumb2 bus s instr (λ t. ok (imm8 instr)))

  unfoldable pub arm_ldrd_reg_instruction : System → ℕ → Outcome (System × ℕ)
  unfolding load_dual when_passed
  arm_ldrd_reg_instruction s instr =
      when_passed s instr (load_dual thumb2 bus s instr (λ t. get_register thumb2 t (rm instr)))
