-- ===== src/Instr/Jumps.antt =====
-- Branches go where the architecture says, and a call comes back.
use hyparm.Common.{
  ℕ, ◌+◌, ◌-◌, ◌*◌, ◌%◌, ◌^◌, ◌<◌, ◌≡◌, refl, ◌∙◌, arith, true, false, ◌==◌, ltb, if◌then◌else◌,
  Returns, ok,
}
use hyparm.Memory.{update}
use hyparm.Cpu.State.{GuestContext, mode_of}
use hyparm.Cpu.Registers.{
  pc, high_gp_register_pointer, read_place, get_gp_register, condition_passed,
}
use hyparm.Cpu.Banking.{has_bank, set_gp_register_all}
use hyparm.Cpu.Exceptions.{jump}
use hyparm.Handle.System.{System, with_guest}
use hyparm.Scan.Linking.{branch_destination}
use hyparm.Instr.Encoding.{cc, rm, imm24}
use hyparm.Instr.Machine.{when_passed, bx_write_pc, go_to, set_register, plus}
use hyparm.Instr.Branches.{sign_extend, arm_b_instruction, arm_bl_instruction, arm_bx_instruction}

sign_extend_lem :
    (n : ℕ)
    → n < 2 ^ 24
    → sign_extend (n * 2 ^ 2) 26 ≡ (if ltb n (2 ^ 23) then n * 4 else n * 4 + 2 ^ 32 - 2 ^ 26)
unfolding sign_extend
sign_extend_lem n h =
    let whole : n * 2 ^ 2 * 2 ^ 6 % 2 ^ 32 ≡ n * 256 = omega arith in rw whole (ground arith)

mod_sum : (x k : ℕ) → ((x + 2 * 4) % 2 ^ 32 + k) % 2 ^ 32 ≡ (x + 8 + k) % 2 ^ 32
mod_sum x k = omega arith

-- R15, and the address that a branch computes.
here_and_there :
    (s : System) (instr : ℕ)
    → plus (pc false s.guest) (sign_extend (imm24 instr * 2 ^ 2) 26)
      ≡ branch_destination (s.guest.registers 15) instr
unfolding pc
here_and_there s instr =
    rw (sign_extend_lem (imm24 instr) (omega arith)) (mod_sum (s.guest.registers 15) _)

branch_destination-aligned :
    (location word : ℕ)
    → location % 4 ≡ 0
    → branch_destination location word - branch_destination location word % 4
      ≡ branch_destination location word
branch_destination-aligned location word h = ground arith

-- `armBInstruction` at a multiple of four returns the address that the architecture gives the
-- branch, and the guest is there, if the condition passes; else it returns the next instruction, and
-- leaves the guest as it was.
pub arm_b_instruction_lem :
    (s : System) (instr : ℕ)
    → s.guest.registers 15 % 4 ≡ 0
    → let target = branch_destination (s.guest.registers 15) instr in
      arm_b_instruction false s instr ≡ (
        if condition_passed s.guest (cc instr)
        then ok (with_guest s (jump s.guest target), target)
        else ok (s, (s.guest.registers 15 + 4) % 2 ^ 32))
unfolding arm_b_instruction when_passed go_to bx_write_pc jump update
arm_b_instruction_lem s instr aligned =
    rw (here_and_there s instr, branch_destination-aligned (s.guest.registers 15) instr aligned)

-- A jump leaves R0 to R14.
get_gp_register-jump :
    (c : GuestContext) (target n : ℕ)
    → n < 15
    → get_gp_register false (jump c target) n ≡ get_gp_register false c n
unfolding get_gp_register high_gp_register_pointer read_place jump update
get_gp_register-jump c target n h = ground arith

-- `armBlInstruction` at a multiple of four, in a mode with a bank, with a condition that passes,
-- returns the address that the architecture gives the branch, and leaves R0 to R13 as they were. A
-- later `armBxInstruction` by R14, while R14 is as the call left it and its condition passes,
-- returns the instruction after the call.
pub arm_bx-arm_bl :
    (s : System) (call : ℕ)
    → s.guest.registers 15 % 4 ≡ 0
    → s.guest.registers 15 < 2 ^ 32
    → has_bank (mode_of s.guest.cpsr) ≡ true
    → condition_passed s.guest (cc call) ≡ true
    → Returns (arm_bl_instruction false s call) λ (t, target).
      (target ≡ branch_destination (s.guest.registers 15) call)
      × ((n : ℕ) → n < 14 → get_gp_register false t.guest n ≡ get_gp_register false s.guest n)
      × ((u : System) (return : ℕ)
          → get_gp_register false u.guest 14 ≡ get_gp_register false t.guest 14
          → condition_passed u.guest (cc return) ≡ true
          → rm return ≡ 14
          → Returns
              (arm_bx_instruction false u return)
              λ (w, next). next ≡ (s.guest.registers 15 + 4) % 2 ^ 32)
unfolding arm_bl_instruction arm_bx_instruction when_passed set_register go_to bx_write_pc update
arm_bx-arm_bl s call aligned small banked passes =
    let link = (pc false s.guest + 2 ^ 32 - 4) % 2 ^ 32 in
    let (d, returns, (reads, mode, here)) =
      set_gp_register_all false s.guest 14 link banked (omega arith) in
    let target = branch_destination (s.guest.registers 15) call in
    let even = branch_destination-aligned (s.guest.registers 15) call aligned in
    let linked : get_gp_register false (jump d target) 14 ≡ ok link =
      get_gp_register-jump d target 14 (omega arith) ∙ reads 14 (omega arith) in
    let back : link - link % 4 ≡ (s.guest.registers 15 + 4) % 2 ^ 32 =
      omega (arith, aligned, small) in
    rw (passes, returns, here_and_there s call, even)
      (
        (with_guest s (jump d target), target),
        refl,
        (
          refl,
          λ n lt.
              let e : (14 == n) ≡ false = ground arith in
              get_gp_register-jump d target n (omega arith) ∙ rw e at (reads n (omega arith)),
          λ u return same again by_link. rw (again, by_link, same, linked) (_, refl, back),
        ),
      )
