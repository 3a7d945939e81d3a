-- ===== src/Cpu/Conditions.antt =====
-- The condition codes against the table of the architecture.
use hyparm.Common.{ℕ, ◌≡◌, arith, Bool, true, not, ◌&&◌, ◌||◌, ◌==◌, if◌then◌else◌}
use hyparm.Cpu.State.{GuestContext, bit_field, n_bit, z_bit, c_bit, v_bit}
use hyparm.Cpu.Registers.{condition_passed}

-- `ConditionCode` of src/cpuArch/state.h.
pub data ConditionCode : Type 0 where
  eq ne hs lo mi pl vs vc hi ls ge lt gt le al nv : ConditionCode

abbrev pub number_of : ConditionCode → ℕ
number_of ConditionCode.eq = 0
number_of ConditionCode.ne = 1
number_of ConditionCode.hs = 2
number_of ConditionCode.lo = 3
number_of ConditionCode.mi = 4
number_of ConditionCode.pl = 5
number_of ConditionCode.vs = 6
number_of ConditionCode.vc = 7
number_of ConditionCode.hi = 8
number_of ConditionCode.ls = 9
number_of ConditionCode.ge = 10
number_of ConditionCode.lt = 11
number_of ConditionCode.gt = 12
number_of ConditionCode.le = 13
number_of ConditionCode.al = 14
number_of ConditionCode.nv = 15

-- The table of the architecture, on the flags N, Z, C and V.
abbrev pub arm_condition : ConditionCode → Bool → Bool → Bool → Bool → Bool
arm_condition ConditionCode.eq n z c v = z
arm_condition ConditionCode.ne n z c v = not z
arm_condition ConditionCode.hs n z c v = c
arm_condition ConditionCode.lo n z c v = not c
arm_condition ConditionCode.mi n z c v = n
arm_condition ConditionCode.pl n z c v = not n
arm_condition ConditionCode.vs n z c v = v
arm_condition ConditionCode.vc n z c v = not v
arm_condition ConditionCode.hi n z c v = c && not z
arm_condition ConditionCode.ls n z c v = not c || z
arm_condition ConditionCode.ge n z c v = if n then v else not v
arm_condition ConditionCode.lt n z c v = if n then not v else v
arm_condition ConditionCode.gt n z c v = not z && (if n then v else not v)
arm_condition ConditionCode.le n z c v = z || (if n then not v else v)
arm_condition ConditionCode.al n z c v = true
arm_condition ConditionCode.nv n z c v = true

abbrev pub is_set : ℕ → ℕ → Bool
is_set psr i = bit_field psr i == 1

module _ (c : GuestContext) where
  abbrev pub expected : ConditionCode → Bool
  expected code =
      arm_condition code (is_set c.cpsr n_bit) (is_set c.cpsr z_bit) (is_set c.cpsr c_bit)
        (is_set c.cpsr v_bit)

  -- `ConditionPassed` of each of the sixteen codes is what the architecture's table says of the
  -- flags in the CPSR.
  pub condition_passed_lem :
      (code : ConditionCode) → condition_passed c (number_of code) ≡ expected code
  unfolding condition_passed
  condition_passed_lem code = ground arith
