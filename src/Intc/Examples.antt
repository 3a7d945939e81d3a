-- ===== src/Intc/Examples.antt =====
-- The theorems on the interrupt controller of src/vm/omap35xx/intc.c at concrete states.
use hyparm.Common.{◌/◌, ◌%◌, ◌≤◌, ◌<◌, ◌≡◌, refl, arith, bit_or, false, not}
use hyparm.Common.{◌==◌, if◌then◌else◌, ◌&&◌, leb, ltb, ◌⊎◌, get_or, set, replicate, Returns}
use hyparm.Bits.{bit_at}
use hyparm.Intc.State.{InterruptController, intc_reset, blank}
use hyparm.Intc.Views.{mask_bit, pending_bit, raw_bit}
use hyparm.Intc.Banks.{is_guest_irq_masked}
use hyparm.Intc.Lines.{set_raw, set_pending, set_interrupt}
use hyparm.Intc.Priority.{priority_sort_irqs}
use hyparm.Intc.Store.{store_register}
use hyparm.Intc.Invariant.{IsValid, intc_reset-IsValid}
use hyparm.Intc.Reach.{Step, Reach, Reach-IsValid}
use hyparm.Intc.Raising.{stops, set_interrupt_lem}
use hyparm.Intc.Sorting.{priority_sort_irqs_lem}
use hyparm.Intc.MaskStores.{gpt1_told, mir_set_of, mir_set_lem}

-- Lines 7 and 38 are pending, and 38 has the greater priority register.
abbrev two_pending : InterruptController
unfolding replicate
two_pending = record blank {
  intc_pending_irq0 = 0x80;
  intc_pending_irq1 = 0x40;
  intc_mir1 = 0x20;
  intc_ilr = set (replicate 96 0) 38 4;
}

priority_sort_irqs_lem_example :
    let n = priority_sort_irqs two_pending in
    (n < 96)
    × (pending_bit two_pending n ≡ 1)
    × ((get_or two_pending.intc_ilr 7 0 < get_or two_pending.intc_ilr n 0)
        ⊎ ((get_or two_pending.intc_ilr 7 0 ≡ get_or two_pending.intc_ilr n 0) × (7 ≤ n)))
unfolding bit_at two_pending
priority_sort_irqs_lem_example = priority_sort_irqs_lem two_pending 7 (omega arith) refl

set_interrupt_lem_example : Returns (set_interrupt two_pending 40) λ d.
    (pending_bit d 40
      ≡ (if 40 == 40 && not (stops two_pending 40) then 1 else pending_bit two_pending 40))
    × (mask_bit d 40 ≡ (if 40 == 40 && leb 32 40 then 1 else mask_bit two_pending 40))
    × (raw_bit d 40 ≡ (if 40 == 40 && ltb 40 32 then 1 else raw_bit two_pending 40))
set_interrupt_lem_example = set_interrupt_lem two_pending 40 40 (omega arith) (omega arith)

-- After the reset GPT1 raises its line.
abbrev raised_once : InterruptController
raised_once = record (intc_reset blank) {
  intc_mir1 = bit_or (intc_reset blank).intc_mir1 0x20;
  intc_pending_irq1 = bit_or (intc_reset blank).intc_pending_irq1 0x20;
}

gpt1_history : Reach false raised_once
unfolding set_interrupt set_raw set_pending is_guest_irq_masked intc_reset
gpt1_history = Reach.next (Reach.start blank) (Step.raise 37 refl)

Reach-IsValid_example : IsValid raised_once
Reach-IsValid_example = Reach-IsValid gpt1_history

mir_set_lem_example : Returns (store_register false (intc_reset blank) (mir_set_of 1) 0x20) λ r.
    (mask_bit r.0 37
      ≡ (if 37 / 32 == 1 && bit_at 0x20 (37 % 32) == 1 then 1 else mask_bit (intc_reset blank) 37))
    × (pending_bit r.0 37 ≡ (
        if 37 / 32 == 1
        then (if mask_bit r.0 37 == 1 then 0 else raw_bit (intc_reset blank) 37)
        else pending_bit (intc_reset blank) 37))
    × (r.1 ≡ gpt1_told 1 0x20 0xac)
mir_set_lem_example =
    mir_set_lem false 1 37 0x20 (intc_reset-IsValid blank) (omega arith) (omega arith) (omega arith)
