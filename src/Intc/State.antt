-- ===== src/Intc/State.antt =====
-- The registers of the controller and their reset values (`struct InterruptController`,
-- `intcReset`).
use hyparm.Common.{ℕ, List, bit_or, replicate}

pub record InterruptController : Type 0 where
  pub intc_sys_config : ℕ
  pub intc_sys_status : ℕ
  pub intc_sir_irq : ℕ
  pub intc_sir_fiq : ℕ
  pub intc_control : ℕ
  pub intc_protection : ℕ
  pub intc_idle : ℕ
  pub intc_irq_priority : ℕ
  pub intc_fiq_priority : ℕ
  pub intc_threshold : ℕ
  pub intc_itr0 : ℕ
  pub intc_itr1 : ℕ
  pub intc_itr2 : ℕ
  pub intc_mir0 : ℕ
  pub intc_mir1 : ℕ
  pub intc_mir2 : ℕ
  pub intc_mir_clear0 : ℕ
  pub intc_mir_clear1 : ℕ
  pub intc_mir_clear2 : ℕ
  pub intc_mir_set0 : ℕ
  pub intc_mir_set1 : ℕ
  pub intc_mir_set2 : ℕ
  pub intc_isr_set0 : ℕ
  pub intc_isr_set1 : ℕ
  pub intc_isr_set2 : ℕ
  pub intc_isr_clear0 : ℕ
  pub intc_isr_clear1 : ℕ
  pub intc_isr_clear2 : ℕ
  pub intc_pending_irq0 : ℕ
  pub intc_pending_irq1 : ℕ
  pub intc_pending_irq2 : ℕ
  pub intc_pending_fiq0 : ℕ
  pub intc_pending_fiq1 : ℕ
  pub intc_pending_fiq2 : ℕ
  pub intc_ilr : List ℕ

-- `intcReset`: every register is written, so the old state does not matter.
unfoldable pub intc_reset : InterruptController → InterruptController
unfolding replicate
intc_reset c = record {
  intc_sys_config = 0x0;
  intc_sys_status = bit_or 0 0x1;
  intc_sir_irq = 0xffffff80;
  intc_sir_fiq = 0xffffff80;
  intc_control = 0x0;
  intc_protection = 0x0;
  intc_idle = 0x0;
  intc_irq_priority = 0xffffffc0;
  intc_fiq_priority = 0xffffffc0;
  intc_threshold = 0xff;
  intc_itr0 = 0x0;
  intc_itr1 = 0x0;
  intc_itr2 = 0x0;
  intc_mir0 = 0xffff_ffff;
  intc_mir1 = 0xffff_ffff;
  intc_mir2 = 0xffff_ffff;
  intc_mir_clear0 = 0x0;
  intc_mir_clear1 = 0x0;
  intc_mir_clear2 = 0x0;
  intc_mir_set0 = 0x0;
  intc_mir_set1 = 0x0;
  intc_mir_set2 = 0x0;
  intc_isr_set0 = 0x0;
  intc_isr_set1 = 0x0;
  intc_isr_set2 = 0x0;
  intc_isr_clear0 = 0x0;
  intc_isr_clear1 = 0x0;
  intc_isr_clear2 = 0x0;
  intc_pending_irq0 = 0x0;
  intc_pending_irq1 = 0x0;
  intc_pending_irq2 = 0x0;
  intc_pending_fiq0 = 0x0;
  intc_pending_fiq1 = 0x0;
  intc_pending_fiq2 = 0x0;
  intc_ilr = replicate 96 0;
}

-- What `calloc` gives.
abbrev pub blank : InterruptController
unfolding replicate
blank = record {
  intc_sys_config = 0;
  intc_sys_status = 0;
  intc_sir_irq = 0;
  intc_sir_fiq = 0;
  intc_control = 0;
  intc_protection = 0;
  intc_idle = 0;
  intc_irq_priority = 0;
  intc_fiq_priority = 0;
  intc_threshold = 0;
  intc_itr0 = 0;
  intc_itr1 = 0;
  intc_itr2 = 0;
  intc_mir0 = 0;
  intc_mir1 = 0;
  intc_mir2 = 0;
  intc_mir_clear0 = 0;
  intc_mir_clear1 = 0;
  intc_mir_clear2 = 0;
  intc_mir_set0 = 0;
  intc_mir_set1 = 0;
  intc_mir_set2 = 0;
  intc_isr_set0 = 0;
  intc_isr_set1 = 0;
  intc_isr_set2 = 0;
  intc_isr_clear0 = 0;
  intc_isr_clear1 = 0;
  intc_isr_clear2 = 0;
  intc_pending_irq0 = 0;
  intc_pending_irq1 = 0;
  intc_pending_irq2 = 0;
  intc_pending_fiq0 = 0;
  intc_pending_fiq1 = 0;
  intc_pending_fiq2 = 0;
  intc_ilr = replicate 96 0;
}

-- `initIntc`, where the allocation succeeds.
unfoldable pub init_intc : InterruptController
unfolding intc_reset
init_intc = intc_reset blank
