-- ===== src/Instr/Dual.antt =====
-- What a dual load leaves in the registers.
use hyparm.Common.{
  ℕ, ◌+◌, ◌%◌, ◌^◌, ◌<◌, ◌≡◌, refl, ◌∙◌, arith, Bool, true, false, ◌==◌, ◌&&◌, if◌then◌else◌,
  Bool-cases, inl, inr, Returns, ok,
}
use hyparm.Cpu.State.{mode_of}
use hyparm.Cpu.Registers.{get_gp_register, condition_passed}
use hyparm.Cpu.Banking.{has_bank}
use hyparm.Handle.System.{System}
use hyparm.Instr.Encoding.{cc, rn, rt, writes_back, imm8}
use hyparm.Instr.Machine.{Bus, access_address, offset_address, next_pc, when_passed, write_back}
use hyparm.Instr.Transfers.{load_dual}
use hyparm.Instr.Loads.{arm_ldrd_imm_instruction}
use hyparm.Instr.Ram.{IsRam, register}
use hyparm.Instr.Saving.{register-ok}
use hyparm.Instr.Loading.{Same, set_register_lem}

last_write :
    {A : Type 0} (b a : Bool) (x y w z : A)
    → (if b then x else if a then y else if a then w else z) ≡ (if b then x else if a then y else z)
last_write true a x y w z = refl
last_write false true x y w z = refl
last_write false false x y w z = refl

module _ (bus : Bus) (ram : IsRam bus) where
  open ram use {read}

  write_back_lem :
      (s : System) (instr target : ℕ)
      → has_bank (mode_of s.guest.cpsr) ≡ true
      → rn instr < 15
      → (t : System) × (write_back s instr target ≡ ok t)
        × Same bus ram s t
        × ((m : ℕ)
            → m < 15
            → get_gp_register false t.guest m ≡ (
                if writes_back instr && rn instr == m
                then ok target
                else get_gp_register false s.guest m))
  unfolding write_back
  write_back_lem s instr target banked r = elim (Bool-cases (writes_back instr)) [
    | inl e ↦
        let (t, returns, same, reads) = set_register_lem bus ram s (rn instr) target banked r in
        rw e (t, returns, same, reads)
    | inr e ↦ rw e (s, refl, (refl, refl, refl, λ b w. w), λ m lt. refl)
  ]

-- `armLdrdImmInstruction`, with a condition that passes, in a mode with a bank, with a base other
-- than R15 and Rt at most R13, where both words are RAM: Rt takes the second word, a base that is written back takes
-- the offset's address, and all other registers stay, R(t+1) too unless it is such a base.
pub arm_ldrd_imm_instruction_lem :
    (bus : Bus) (ram : IsRam bus) (s : System) (instr : ℕ)
    → has_bank (mode_of s.guest.cpsr) ≡ true
    → condition_passed s.guest (cc instr) ≡ true
    → rn instr < 15
    → rt instr < 14
    → let base = register s.guest (rn instr) in
      let at = access_address instr base (imm8 instr) in
      ram.IsWord s at
      → ram.IsWord s ((at + 4) % 2 ^ 32)
      → Returns (arm_ldrd_imm_instruction false bus s instr) λ (t, next).
        (next ≡ (s.guest.registers 15 + 4) % 2 ^ 32)
        × (ram.read t ≡ ram.read s)
        × ((n : ℕ)
            → n < 15
            → get_gp_register false t.guest n ≡ (
                if writes_back instr && rn instr == n
                then ok (offset_address instr base (imm8 instr))
                else if rt instr == n
                then ok (ram.read s ((at + 4) % 2 ^ 32))
                else get_gp_register false s.guest n))
unfolding arm_ldrd_imm_instruction when_passed load_dual
arm_ldrd_imm_instruction_lem bus ram s instr banked passes r small first second =
    let base = register s.guest (rn instr) in
    let at = access_address instr base (imm8 instr) in
    let word1 = ram.read s at in
    let word2 = ram.read s ((at + 4) % 2 ^ 32) in
    let reads = register-ok s.guest (rn instr) banked (omega (arith, r)) in
    let (t, sets, (mode, here, memory, kept), after) =
      set_register_lem bus ram s (rt instr) word1 banked (omega (arith, small)) in
    let (u, sets2, (mode2, here2, memory2, kept2), after2) =
      set_register_lem bus ram t (rt instr) word2 (rw mode banked) (omega (arith, small)) in
    let (w, sets3, (mode3, here3, memory3, kept3), after3) =
      write_back_lem bus ram u instr (offset_address instr base (imm8 instr))
        (rw (mode2, mode) banked) r in
    rw
      (
        passes,
        reads,
        ram.loads s at first,
        ram.loads s ((at + 4) % 2 ^ 32) second,
        sets,
        sets2,
        sets3,
      )
      (
        (w, next_pc w),
        refl,
        (
          rw (here3, here2, here) refl,
          memory3 ∙ memory2 ∙ memory,
          λ n lt.
              rw (after3 n lt, after2 n lt, after n lt)
                (last_write (writes_back instr && rn instr == n) (rt instr == n) _ _ _ _),
        ),
      )
