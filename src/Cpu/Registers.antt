-- ===== src/Cpu/Registers.antt =====
-- The registers by number, in the bank of the current mode (`getGPRegister`, `setGPRegister`,
-- `SPSR`, `SPSRwrite`), and the condition codes.
use hyparm.Common.{
  ℕ, ◌+◌, ◌-◌, ◌*◌, ◌/◌, ◌%◌, ◌^◌, bit_and, Bool, true, not, ◌&&◌, ◌||◌, ◌==◌, ◌!=◌, ltb, leb,
  if◌then◌else◌,
}
use hyparm.Common.{Outcome, ok, die, ◌>>=◌, not_implemented, bad_mode}
use hyparm.Memory.{update}
use hyparm.Cpu.State.{
  GuestContext, mode_of, bit_field, usr_mode, fiq_mode, irq_mode, svc_mode, abt_mode, und_mode,
  sys_mode, v_bit, c_bit, z_bit, n_bit, t_bit,
}

abbrev pub gpr_pc : ℕ
gpr_pc = 15

-- What `getHighGPRegisterPointer` points at.
pub data Place : Type 0 where
  common : ℕ → Place
  fiq_bank : ℕ → Place
  sp_fiq lr_fiq sp_irq lr_irq sp_svc lr_svc sp_abt lr_abt sp_und lr_und : Place

-- `registerIndex == 13 ? &context->R13_... : &context->R14_...`
abbrev pub either : ℕ → Place → Place → Place
either n sp lr = if n == 13 then sp else lr

unfoldable pub high_gp_register_pointer : ℕ → ℕ → Outcome Place
high_gp_register_pointer mode n =
    if leb n 12
    then ok (if mode == fiq_mode then Place.fiq_bank (n - 8) else Place.common n)
    else if mode == usr_mode || mode == sys_mode
    then ok (either n (Place.common 13) (Place.common 14))
    else if mode == fiq_mode
    then ok (either n Place.sp_fiq Place.lr_fiq)
    else if mode == irq_mode
    then ok (either n Place.sp_irq Place.lr_irq)
    else if mode == svc_mode
    then ok (either n Place.sp_svc Place.lr_svc)
    else if mode == abt_mode
    then ok (either n Place.sp_abt Place.lr_abt)
    else if mode == und_mode
    then ok (either n Place.sp_und Place.lr_und)
    else die not_implemented

-- A load and a store through the pointer.
unfoldable pub read_place : GuestContext → Place → ℕ
read_place c (Place.common n) = c.registers n
read_place c (Place.fiq_bank n) = c.fiq_registers n
read_place c Place.sp_fiq = c.r13_fiq
read_place c Place.lr_fiq = c.r14_fiq
read_place c Place.sp_irq = c.r13_irq
read_place c Place.lr_irq = c.r14_irq
read_place c Place.sp_svc = c.r13_svc
read_place c Place.lr_svc = c.r14_svc
read_place c Place.sp_abt = c.r13_abt
read_place c Place.lr_abt = c.r14_abt
read_place c Place.sp_und = c.r13_und
read_place c Place.lr_und = c.r14_und

unfoldable pub write_place : GuestContext → Place → ℕ → GuestContext
write_place c (Place.common n) v = record c { registers = update c.registers n v }
write_place c (Place.fiq_bank n) v = record c { fiq_registers = update c.fiq_registers n v }
write_place c Place.sp_fiq v = record c { r13_fiq = v }
write_place c Place.lr_fiq v = record c { r14_fiq = v }
write_place c Place.sp_irq v = record c { r13_irq = v }
write_place c Place.lr_irq v = record c { r14_irq = v }
write_place c Place.sp_svc v = record c { r13_svc = v }
write_place c Place.lr_svc v = record c { r14_svc = v }
write_place c Place.sp_abt v = record c { r13_abt = v }
write_place c Place.lr_abt v = record c { r14_abt = v }
write_place c Place.sp_und v = record c { r13_und = v }
write_place c Place.lr_und v = record c { r14_und = v }

-- `PC`; with CONFIG_THUMB2 the source leaves R15 out.
unfoldable pub pc : Bool → GuestContext → ℕ
pc thumb2 c =
    if thumb2
    then 2 * (if bit_field c.cpsr t_bit != 0 then 2 else 4)
    else (c.registers 15 + 2 * 4) % 2 ^ 32

unfoldable pub get_gp_register : Bool → GuestContext → ℕ → Outcome ℕ
unfolding pc high_gp_register_pointer read_place
get_gp_register thumb2 c n =
    if ltb n 8
    then ok (c.registers n)
    else if n == gpr_pc
    then ok (pc thumb2 c)
    else (high_gp_register_pointer (mode_of c.cpsr) n >>= λ p. ok (read_place c p))

unfoldable pub set_gp_register : GuestContext → ℕ → ℕ → Outcome GuestContext
unfolding high_gp_register_pointer write_place
set_gp_register c n value =
    if ltb n 8 || n == gpr_pc
    then ok (record c { registers = update c.registers n value })
    else (high_gp_register_pointer (mode_of c.cpsr) n >>= λ p. ok (write_place c p value))

-- `SPSR`
unfoldable pub spsr : GuestContext → Outcome ℕ
spsr c =
    let mode = mode_of c.cpsr in
    if mode == fiq_mode
    then ok c.spsr_fiq
    else if mode == irq_mode
    then ok c.spsr_irq
    else if mode == svc_mode
    then ok c.spsr_svc
    else if mode == abt_mode
    then ok c.spsr_abt
    else if mode == und_mode
    then ok c.spsr_und
    else die bad_mode

-- `SPSRwrite`
unfoldable pub spsr_write : GuestContext → ℕ → Outcome GuestContext
spsr_write c value =
    let mode = mode_of c.cpsr in
    if mode == fiq_mode
    then ok (record c { spsr_fiq = value })
    else if mode == irq_mode
    then ok (record c { spsr_irq = value })
    else if mode == svc_mode
    then ok (record c { spsr_svc = value })
    else if mode == abt_mode
    then ok (record c { spsr_abt = value })
    else if mode == und_mode
    then ok (record c { spsr_und = value })
    else die bad_mode

-- The `switch` of `evaluateConditionCode`, on cond<3:1>.
unfoldable pub condition_holds : ℕ → ℕ → Bool
condition_holds psr which =
    let n = bit_field psr n_bit in
    let z = bit_field psr z_bit in
    let c = bit_field psr c_bit in
    let v = bit_field psr v_bit in
    if which == 0
    then z == 1
    else if which == 1
    then c == 1
    else if which == 2
    then n == 1
    else if which == 3
    then v == 1
    else if which == 4
    then c == 1 && z == 0
    else if which == 5
    then n == v
    else if which == 6
    then n == v && z == 0
    else true

-- `evaluateConditionCode`; 15 is `NV`.
unfoldable pub evaluate_condition_code : GuestContext → ℕ → Bool
unfolding condition_holds
evaluate_condition_code c condition_code =
    let result = condition_holds c.cpsr (bit_and condition_code 0xe / 2) in
    if bit_and condition_code 1 == 1 && condition_code != 15 then not result else result

-- `ConditionPassed`; 14 is `AL`.
unfoldable pub condition_passed : GuestContext → ℕ → Bool
unfolding evaluate_condition_code
condition_passed c code = if code == 14 || code == 15 then true else evaluate_condition_code c code
