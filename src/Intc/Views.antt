-- ===== src/Intc/Views.antt =====
-- The state of one interrupt line, whatever its bank.
use hyparm.Common.{ℕ, ◌/◌, ◌%◌, ◌==◌, if◌then◌else◌}
use hyparm.Bits.{bit_at}
use hyparm.Intc.State.{InterruptController}

abbrev pub bank_of {ℓ} : {A : Type ℓ} → ℕ → A → A → A → A
bank_of n a b c = if n / 32 == 0 then a else if n / 32 == 1 then b else c

abbrev pub mask_bit : InterruptController → ℕ → ℕ
mask_bit c n = bit_at (bank_of n c.intc_mir0 c.intc_mir1 c.intc_mir2) (n % 32)

abbrev pub pending_bit : InterruptController → ℕ → ℕ
pending_bit c n =
    bit_at (bank_of n c.intc_pending_irq0 c.intc_pending_irq1 c.intc_pending_irq2) (n % 32)

abbrev pub raw_bit : InterruptController → ℕ → ℕ
raw_bit c n = bit_at (bank_of n c.intc_itr0 c.intc_itr1 c.intc_itr2) (n % 32)
