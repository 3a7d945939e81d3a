-- ===== src/Cpu/State.antt =====
-- The processor state of the guest (`struct guestContext` of src/guestManager/guestContext.h, the
-- modes of src/cpuArch/state.h). A CPSR is its 32-bit value. The code walks the registers R0 to R15
-- by a pointer to R0, and R8_FIQ to R12_FIQ by a pointer to R8_FIQ: they are functions of the index.
use hyparm.Common.{ℕ, ◌+◌, ◌-◌, ◌*◌, ◌/◌, ◌%◌, ◌^◌, Bool}
use hyparm.Memory.{Memory}
use hyparm.Intc.State.{InterruptController}

abbrev pub usr_mode : ℕ
usr_mode = 0x10

abbrev pub fiq_mode : ℕ
fiq_mode = 0x11

abbrev pub irq_mode : ℕ
irq_mode = 0x12

abbrev pub svc_mode : ℕ
svc_mode = 0x13

abbrev pub mon_mode : ℕ
mon_mode = 0x16

abbrev pub abt_mode : ℕ
abt_mode = 0x17

abbrev pub hyp_mode : ℕ
hyp_mode = 0x1a

abbrev pub und_mode : ℕ
und_mode = 0x1b

abbrev pub sys_mode : ℕ
sys_mode = 0x1f

-- The table of exception entries that the host runs (`mmuSetExceptionVector`).
pub data Vector : Type 0 where
  usr_vector irq_vector svc_vector abort_vector und_vector : Vector

pub record GuestContext : Type 0 where
  pub registers : Memory ℕ
  pub cpsr : ℕ
  pub fiq_registers : Memory ℕ
  pub r13_fiq : ℕ
  pub r14_fiq : ℕ
  pub spsr_fiq : ℕ
  pub r13_svc : ℕ
  pub r14_svc : ℕ
  pub spsr_svc : ℕ
  pub r13_abt : ℕ
  pub r14_abt : ℕ
  pub spsr_abt : ℕ
  pub r13_irq : ℕ
  pub r14_irq : ℕ
  pub spsr_irq : ℕ
  pub r13_und : ℕ
  pub r14_und : ℕ
  pub spsr_und : ℕ
  pub coproc_reg_bank : Memory ℕ
  pub shadow_priv : ℕ
  pub shadow_user : ℕ
  pub shadow_active : ℕ
  pub guest_virtual : ℕ
  pub irq_controller : InterruptController
  pub guest_high_vector_set : Bool
  -- guestUndefinedHandler and the six words after it
  pub handlers : Memory ℕ
  pub guest_irq_pending : Bool
  pub guest_data_abt_pending : Bool
  pub guest_prefetch_abt_pending : Bool
  -- of the host
  pub exception_vector : Vector

-- `CPSR.bits.mode`
abbrev pub mode_of : ℕ → ℕ
mode_of psr = psr % 0x20

-- A one-bit field of a CPSR, at bit `i`.
abbrev pub bit_field : ℕ → ℕ → ℕ
bit_field psr i = psr / 2 ^ i % 2

-- Assignments to the fields.
abbrev pub with_mode : ℕ → ℕ → ℕ
with_mode psr mode = psr - psr % 0x20 + mode % 0x20

abbrev pub with_bit : ℕ → ℕ → ℕ → ℕ
with_bit psr i v = psr - psr / 2 ^ i % 2 * 2 ^ i + v * 2 ^ i

-- `CPSR.bits.*`, by the place of the bit.
abbrev pub t_bit : ℕ
t_bit = 5

abbrev pub f_bit : ℕ
f_bit = 6

abbrev pub i_bit : ℕ
i_bit = 7

abbrev pub a_bit : ℕ
a_bit = 8

abbrev pub v_bit : ℕ
v_bit = 28

abbrev pub c_bit : ℕ
c_bit = 29

abbrev pub z_bit : ℕ
z_bit = 30

abbrev pub n_bit : ℕ
n_bit = 31

-- `CRB_INDEX(CRn, opc1, CRm, opc2)`
abbrev pub crb_index : ℕ → ℕ → ℕ → ℕ → ℕ
crb_index crn opc1 crm opc2 = ((crn * 8 + opc1) * 16 + crm) * 8 + opc2

abbrev pub cp15_sctrl : ℕ
cp15_sctrl = crb_index 1 0 0 0

abbrev pub cp15_dfsr : ℕ
cp15_dfsr = crb_index 5 0 0 0

abbrev pub cp15_ifsr : ℕ
cp15_ifsr = crb_index 5 0 0 1

abbrev pub cp15_dfar : ℕ
cp15_dfar = crb_index 6 0 0 0

abbrev pub cp15_ifar : ℕ
cp15_ifar = crb_index 6 0 0 2

abbrev pub cp15_vbar : ℕ
cp15_vbar = crb_index 12 0 0 0
