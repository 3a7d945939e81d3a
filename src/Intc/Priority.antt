-- ===== src/Intc/Priority.antt =====
-- `prioritySortIrqs` and `getIrqNumber`: which pending interrupt the guest is told of.
use hyparm.Common.{ℕ, zero, suc, ◌+◌, ◌^◌, bit_and, ◌!=◌, leb, if◌then◌else◌, List, get_or}
use hyparm.Common.{Outcome, die, not_implemented}
use hyparm.Intc.State.{InterruptController}
use hyparm.Intc.Lines.{is_irq_pending}

-- `currentHighestPriority` and `currentIrqNumber`.
pub record Best : Type 0 where
  pub priority : ℕ
  pub irq : ℕ

-- One round of a bank's loop, at bit `i`.
unfoldable pub scan_bit : List ℕ → ℕ → ℕ → ℕ → Best → Best
scan_bit ilr pending base i best =
    if bit_and pending (2 ^ i) != 0
    then (let priority = get_or ilr (i + base) 0 in
        if leb best.priority priority then record { priority = priority; irq = i + base } else best)
    else best

-- `for (i = 0; i < 32; i++)`, with the rounds that are left and the index.
unfoldable pub scan_bank : List ℕ → ℕ → ℕ → ℕ → ℕ → Best → Best
unfolding scan_bit
scan_bank ilr pending base zero i best = best
scan_bank ilr pending base (suc left) i best =
    scan_bank ilr pending base left (i + 1) (scan_bit ilr pending base i best)

-- `if (pending != 0)` round the loop of a bank.
unfoldable pub visit_bank : List ℕ → ℕ → ℕ → Best → Best
unfolding scan_bank
visit_bank ilr pending base best =
    if pending != 0 then scan_bank ilr pending base 32 0 best else best

unfoldable pub priority_sort_irqs : InterruptController → ℕ
unfolding visit_bank is_irq_pending
priority_sort_irqs c =
    if is_irq_pending c
    then (let start : Best = record { priority = 0; irq = 0 } in
        let first = visit_bank c.intc_ilr c.intc_pending_irq0 0 start in
        let second = visit_bank c.intc_ilr c.intc_pending_irq1 32 first in
        let third = visit_bank c.intc_ilr c.intc_pending_irq2 64 second in third.irq)
    else 0

-- Never finished in the source.
pub get_irq_number : InterruptController → Outcome ℕ
get_irq_number c = die not_implemented
