-- ===== src/Cpu/Sample.antt =====
-- A state of the guest's processor (src/guestManager/guestContext.h) for the examples.
use hyparm.Common.{true, ◌==◌, if◌then◌else◌}
use hyparm.Intc.State.{blank}
use hyparm.Cpu.State.{GuestContext, Vector}

-- A guest in user mode, at 0x8000, with Z set and IRQs enabled.
abbrev pub user : GuestContext
user = record {
  registers = λ n. if n == 15 then 0x8000 else n;
  cpsr = 0x4000_0010;
  fiq_registers = λ n. n;
  r13_fiq = 0;
  r14_fiq = 0;
  spsr_fiq = 0;
  r13_svc = 0;
  r14_svc = 0;
  spsr_svc = 0;
  r13_abt = 0;
  r14_abt = 0;
  spsr_abt = 0;
  r13_irq = 0;
  r14_irq = 0;
  spsr_irq = 0;
  r13_und = 0;
  r14_und = 0;
  spsr_und = 0;
  coproc_reg_bank = λ n. 0;
  shadow_priv = 0x1000;
  shadow_user = 0x2000;
  shadow_active = 0x2000;
  guest_virtual = 0xc000_4000;
  irq_controller = blank;
  guest_high_vector_set = true;
  handlers = λ n. 0;
  guest_irq_pending = true;
  guest_data_abt_pending = true;
  guest_prefetch_abt_pending = true;
  exception_vector = Vector.usr_vector;
}
