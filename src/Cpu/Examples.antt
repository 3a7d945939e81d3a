-- ===== src/Cpu/Examples.antt =====
-- The theorems on the guest's processor at concrete states.
use hyparm.Common.{
  ◌+◌, ◌%◌, ◌^◌, ◌≡◌, refl, arith, Bool, true, false, not, ◌&&◌, ◌==◌, if◌then◌else◌, bit_and,
}
use hyparm.Common.{ok, Returns}
use hyparm.Bits.{bit_at}
use hyparm.Intc.Lines.{is_irq_pending}
use hyparm.Intc.Views.{pending_bit}
use hyparm.Cpu.State.{
  GuestContext, Vector, mode_of, bit_field, irq_mode, i_bit, a_bit, cp15_ifsr, cp15_ifar,
}
use hyparm.Cpu.Registers.{get_gp_register, set_gp_register, condition_passed}
use hyparm.Cpu.Modes.{cpsr_write_by_instr}
use hyparm.Cpu.Exceptions.{
  deliver_interrupt, exc_vect_low_irq, is_forwarded, throw_interrupt, throw_prefetch_abort,
}
use hyparm.Cpu.Handlers.{StartsHandler}
use hyparm.Cpu.Delivery.{deliver_interrupt_lem}
use hyparm.Cpu.Throwing.{status_bit, throw_interrupt_lem, throw_prefetch_abort_lem}
use hyparm.Cpu.Banking.{set_gp_register_lem}
use hyparm.Cpu.Conditions.{ConditionCode, number_of, expected, condition_passed_lem}
use hyparm.Cpu.Return.{exception_return_lem}
use hyparm.Cpu.Shifts.{arm_expand_imm, arm_expand_imm12}
use hyparm.Cpu.Rotations.{arm_expand_imm_lem}
use hyparm.Cpu.Resume.{deliver_interrupt-return}
use hyparm.Common.{◌>>=◌}
use hyparm.Cpu.Registers.{spsr}
use hyparm.Cpu.Sample.{user}
use hyparm.Cpu.Msr.{cpsr_write_loses_mode}

abbrev always : GuestContext → Bool
always c = true

deliver_interrupt_lem_example : Returns (deliver_interrupt always true user) λ d.
    StartsHandler user d irq_mode exc_vect_low_irq Vector.irq_vector
    × (bit_field d.cpsr a_bit ≡ 1)
    × (d.spsr_irq ≡ user.cpsr)
    × (d.r14_irq ≡ (user.registers 15 + 4) % 2 ^ 32)
    × (d.guest_irq_pending ≡ false)
deliver_interrupt_lem_example = deliver_interrupt_lem always (λ c. refl) true user

throw_interrupt_lem_example : Returns (throw_interrupt false user 37) λ d.
    (pending_bit d.irq_controller 37 ≡ 1)
    × (d.guest_irq_pending
        ≡ (if bit_field user.cpsr i_bit == 0 then true else user.guest_irq_pending))
    × (d.cpsr ≡ user.cpsr)
unfolding is_forwarded
throw_interrupt_lem_example = throw_interrupt_lem user 37 refl

throw_prefetch_abort_lem_example :
    let d = throw_prefetch_abort user 0x1234 0x16 in
    (bit_at (d.coproc_reg_bank cp15_ifsr) 14 ≡ status_bit 14 0x16 0 14)
    × (d.coproc_reg_bank cp15_ifar ≡ 0x1234)
    × (d.guest_prefetch_abt_pending ≡ true)
throw_prefetch_abort_lem_example = throw_prefetch_abort_lem user 0x1234 0x16 14

set_gp_register_lem_example :
    Returns (set_gp_register user 13 0x77) λ d.
      get_gp_register false d 13 ≡ (if 13 == 13 then ok 0x77 else get_gp_register false user 13)
set_gp_register_lem_example =
    set_gp_register_lem false user 13 13 0x77 refl (omega arith) (omega arith)

condition_passed_lem_example :
    condition_passed user (number_of ConditionCode.ls) ≡ expected user ConditionCode.ls
condition_passed_lem_example = condition_passed_lem user ConditionCode.ls

exception_return_lem_example :
    Returns (cpsr_write_by_instr always false user 0x6000_0113 0xf true) λ d.
      (d.cpsr ≡ bit_and 0x6000_0113 0xff0f_ffff)
      × (d.guest_irq_pending ≡ (
          if not false
            && (bit_field 0x6000_0113 i_bit == 0 && bit_field user.cpsr i_bit == 1)
            && is_irq_pending user.irq_controller
          then true
          else user.guest_irq_pending))
exception_return_lem_example =
    exception_return_lem always (λ c. refl) false user 0x6000_0113 (omega arith) refl refl

cpsr_write_loses_mode_example :
    Returns (cpsr_write_by_instr always false user 0xf000_0000 8 false) λ d. mode_of d.cpsr ≡ 0
cpsr_write_loses_mode_example = cpsr_write_loses_mode always false user 0xf000_0000 8 false refl

arm_expand_imm_lem_example : arm_expand_imm 0x4ff true ≡ ok (arm_expand_imm12 0x4ff)
arm_expand_imm_lem_example = arm_expand_imm_lem 0x4ff true

deliver_interrupt-return_example :
    Returns
      (deliver_interrupt always true user >>= λ d.
        spsr d >>= λ saved. cpsr_write_by_instr always false d saved 0xf true)
      λ e. e.cpsr ≡ bit_and user.cpsr 0xff0f_ffff
deliver_interrupt-return_example =
    deliver_interrupt-return always (λ c. refl) true false user (omega arith) refl refl
