-- ===== src/Instr/PushPop.antt =====
-- A multiple load undoes the multiple store of the other direction.
use hyparm.Common.{
  ℕ, ◌+◌, ◌*◌, ◌%◌, ◌^◌, ◌<◌, ◌≡◌, refl, ap, ◌∙◌, arith, true, false, not, ◌==◌, ◌||◌,
  if◌then◌else◌, Returns, Outcome, ok,
}
use hyparm.Cpu.State.{GuestContext, mode_of}
use hyparm.Cpu.Registers.{get_gp_register, condition_passed}
use hyparm.Cpu.Banking.{has_bank}
use hyparm.Handle.System.{System}
use hyparm.Instr.Encoding.{cc, flag, rn, is_indexed, is_up, is_w, reg_list}
use hyparm.Instr.Machine.{Bus, when_passed, next_pc}
use hyparm.Instr.Multiple.{
  count_bits_set, start_address, end_address, move_base, stm, ldm, load_pc, arm_stm_instruction,
  arm_ldm_instruction,
}
use hyparm.Instr.Ram.{IsRam, register}
use hyparm.Instr.Saving.{Holds, register-ok, store_registers_lem}
use hyparm.Instr.Loading.{set_register_lem, load_registers_lem}
use hyparm.Instr.Directions.{
  count_bits_set_bound, start_address_back, end_address_back, start_address-small, Holds-init,
  test_self, is_loaded-all, same_value, back_again,
}

-- What a load leaves, where the values are the registers of `c`.
loaded_back :
    (u : System) (c : GuestContext) (pop r registers top : ℕ) (result : Outcome (System × ℕ))
    → has_bank (mode_of c.cpsr) ≡ true
    → rn pop ≡ r
    → reg_list pop ≡ registers
    → end_address pop top (4 * count_bits_set registers) ≡ register c r
    → Returns result (λ (w, after).
      (after ≡ (u.guest.registers 15 + 4) % 2 ^ 32)
      × ((n : ℕ)
          → n < 15
          → get_gp_register false w.guest n ≡ (
              if rn pop == n
              then ok (end_address pop top (4 * count_bits_set (reg_list pop)))
              else if flag n (reg_list pop)
              then ok (register c n)
              else get_gp_register false u.guest n)))
    → Returns result λ (w, after).
      (after ≡ (u.guest.registers 15 + 4) % 2 ^ 32)
      × ((n : ℕ)
          → n < 15
          → get_gp_register false w.guest n
            ≡ get_gp_register false (if flag n registers || r == n then c else u.guest) n)
loaded_back u c pop r registers top result banked same_r same_list ends
      (wa, returns, (there, values)) =
    let same_end = ap (λ l. end_address pop top (4 * count_bits_set l)) same_list ∙ ends in
    (
      wa,
      returns,
      (
        there,
        λ n lt.
            values n lt
            ∙ same_value same_r same_list same_end n _ _
            ∙ back_again c u.guest registers r n banked lt,
      ),
    )

module _ (bus : Bus) (ram : IsRam bus) where
  open ram use {read, IsWord}

  -- A store leaves the registers in memory, and the base after them.
  stm_lem :
      (s : System) (instr : ℕ)
      → has_bank (mode_of s.guest.cpsr) ≡ true
      → condition_passed s.guest (cc instr) ≡ true
      → is_w instr ≡ true
      → rn instr < 15
      → register s.guest (rn instr) < 2 ^ 32
      → let base = register s.guest (rn instr) in
        let count = count_bits_set (reg_list instr) in
        ((j : ℕ) → j < 16 → IsWord s ((start_address instr base count + 4 * j) % 2 ^ 32))
        → Returns (arm_stm_instruction false bus s instr) λ (t, next).
          (next ≡ (s.guest.registers 15 + 4) % 2 ^ 32)
          × Holds 16 (reg_list instr) 0 (start_address instr base count) (read t) (register s.guest)
          × (get_gp_register false t.guest (rn instr) ≡ ok (end_address instr base (4 * count)))
  unfolding arm_stm_instruction stm when_passed move_base
  stm_lem s instr banked passes w r small words =
      let base = register s.guest (rn instr) in
      let count = count_bits_set (reg_list instr) in
      let reads = register-ok s.guest (rn instr) banked (omega (arith, r)) in
      let (t, last, stores, same, holds, kept, beyond) =
        store_registers_lem bus ram 16 (reg_list instr) 0 s (start_address instr base count) banked
          (omega arith) (start_address-small instr base count small) words in
      let (u, sets, (mode, here, memory, kept2), after) =
        set_register_lem bus ram t (rn instr) (end_address instr base (4 * count)) (rw same banked)
          r in
      rw (passes, reads, stores, w, sets)
        (
          (u, next_pc u),
          refl,
          (
            rw (here, same) refl,
            rw memory holds,
            rw (test_self (rn instr)) at (after (rn instr) r),
          ),
        )

  -- A load from memory that has the values.
  ldm_lem :
      (s : System) (instr base : ℕ) (values : ℕ → ℕ)
      → let count = count_bits_set (reg_list instr) in
        has_bank (mode_of s.guest.cpsr) ≡ true
        → condition_passed s.guest (cc instr) ≡ true
        → is_w instr ≡ true
        → rn instr < 15
        → flag 15 (reg_list instr) ≡ false
        → get_gp_register false s.guest (rn instr) ≡ ok base
        → start_address instr base count < 2 ^ 32
        → ((j : ℕ) → j < 15 → IsWord s ((start_address instr base count + 4 * j) % 2 ^ 32))
        → Holds 15 (reg_list instr) 0 (start_address instr base count) (read s) values
        → Returns (arm_ldm_instruction false bus s instr) λ (t, next).
          (next ≡ (s.guest.registers 15 + 4) % 2 ^ 32)
          × ((m : ℕ)
              → m < 15
              → get_gp_register false t.guest m ≡ (
                  if rn instr == m
                  then ok (end_address instr base (4 * count))
                  else if flag m (reg_list instr)
                  then ok (values m)
                  else get_gp_register false s.guest m))
  unfolding arm_ldm_instruction ldm when_passed move_base load_pc
  ldm_lem s instr base values banked passes w r no_pc reads small words holds =
      let count = count_bits_set (reg_list instr) in
      let (t, last, loads, (mode, here, memory, kept), filled) =
        load_registers_lem bus ram 15 (reg_list instr) 0 s (start_address instr base count) values
          banked (omega arith) small words holds in
      let (u, sets, (mode2, here2, memory2, kept2), after) =
        set_register_lem bus ram t (rn instr) (end_address instr base (4 * count)) (rw mode banked)
          r in
      rw (passes, reads, loads, w, sets, no_pc)
        (
          (u, next_pc u),
          refl,
          (
            rw (here2, here) refl,
            λ m lt. rw (is_loaded-all (reg_list instr) m lt) at (rw (filled m lt) at (after m lt)),
          ),
        )

  -- A load from memory that has the registers of `c`.
  ldm_back :
      (u : System) (c : GuestContext) (pop r registers start top : ℕ)
      → has_bank (mode_of c.cpsr) ≡ true
      → has_bank (mode_of u.guest.cpsr) ≡ true
      → condition_passed u.guest (cc pop) ≡ true
      → is_w pop ≡ true
      → r < 15
      → flag 15 registers ≡ false
      → rn pop ≡ r
      → reg_list pop ≡ registers
      → get_gp_register false u.guest r ≡ ok top
      → start_address pop top (count_bits_set registers) ≡ start
      → end_address pop top (4 * count_bits_set registers) ≡ register c r
      → start < 2 ^ 32
      → ((j : ℕ) → j < 15 → IsWord u ((start + 4 * j) % 2 ^ 32))
      → Holds 15 registers 0 start (read u) (register c)
      → Returns (arm_ldm_instruction false bus u pop) λ (w, after).
        (after ≡ (u.guest.registers 15 + 4) % 2 ^ 32)
        × ((n : ℕ)
            → n < 15
            → get_gp_register false w.guest n
              ≡ get_gp_register false (if flag n registers || r == n then c else u.guest) n)
  ldm_back u c pop r registers start top banked banked2 passes w small no_pc same_r same_list
        at_base starts ends room words holds =
      let same_start = ap (λ l. start_address pop top (count_bits_set l)) same_list ∙ starts in
      loaded_back u c pop r registers top _ banked same_r same_list ends (
        ldm_lem u pop top (register c) banked2 passes w (rw same_r small) (rw same_list no_pc)
          (rw same_r at_base) (rw same_start room) (rw same_start words)
          (rw (same_start, same_list) holds))

-- `armStmInstruction`, then `armLdmInstruction` of the same registers and base in the opposite
-- direction (increment for decrement, after for before), both with write-back, give every register
-- of the list and the base the value that it had. The guest may be elsewhere by then, in another
-- mode, with other registers, as long as memory and the base are as the store left them; registers
-- that are not in the list stay. R15 is not in the list and is not the base, the base is a word,
-- both conditions pass, both modes have a bank, and the sixteen words from the lowest address of the
-- store on are RAM, all of them at the store and fifteen at the load.
pub arm_ldm-arm_stm :
    (bus : Bus) (ram : IsRam bus) (s : System) (push pop : ℕ)
    → has_bank (mode_of s.guest.cpsr) ≡ true
    → condition_passed s.guest (cc push) ≡ true
    → is_w push ≡ true
    → rn push < 15
    → flag 15 (reg_list push) ≡ false
    → register s.guest (rn push) < 2 ^ 32
    → is_w pop ≡ true
    → rn pop ≡ rn push
    → reg_list pop ≡ reg_list push
    → is_up pop ≡ not (is_up push)
    → is_indexed pop ≡ not (is_indexed push)
    → let start =
        start_address push (register s.guest (rn push)) (count_bits_set (reg_list push)) in
      ((j : ℕ) → j < 16 → ram.IsWord s ((start + 4 * j) % 2 ^ 32))
      → Returns (arm_stm_instruction false bus s push) λ (t, next).
        (next ≡ (s.guest.registers 15 + 4) % 2 ^ 32)
        × ((u : System)
            → has_bank (mode_of u.guest.cpsr) ≡ true
            → condition_passed u.guest (cc pop) ≡ true
            → ram.read u ≡ ram.read t
            → ((j : ℕ) → j < 15 → ram.IsWord u ((start + 4 * j) % 2 ^ 32))
            → get_gp_register false u.guest (rn push) ≡ get_gp_register false t.guest (rn push)
            → Returns (arm_ldm_instruction false bus u pop) λ (w, after).
              (after ≡ (u.guest.registers 15 + 4) % 2 ^ 32)
              × ((n : ℕ)
                  → n < 15
                  → get_gp_register false w.guest n
                    ≡ get_gp_register false
                        (if flag n (reg_list push) || rn push == n then s.guest else u.guest)
                        n))
arm_ldm-arm_stm bus ram s push pop banked passes w r no_pc small w2 same_rn same_list up indexed
      words =
    let base = register s.guest (rn push) in
    let count = count_bits_set (reg_list push) in
    let bound = count_bits_set_bound (reg_list push) in
    let (after, stores, (on, holds, moved)) =
      stm_lem bus ram s push banked passes w r small words in
    (
      after,
      stores,
      (
        on,
        λ u banked2 passes2 memory words2 at_base.
            ldm_back bus ram u s.guest pop (rn push) (reg_list push) (start_address push base count)
              (end_address push base (4 * count)) banked banked2 passes2 w2 r no_pc same_rn
              same_list (at_base ∙ moved)
              (start_address_back push pop base count up indexed small bound)
              (end_address_back push pop base count up small bound)
              (start_address-small push base count small) words2
              (rw memory (
                Holds-init 15 (reg_list push) 0 (start_address push base count) (ram.read after.0)
                  (register s.guest) holds)),
      ),
    )
