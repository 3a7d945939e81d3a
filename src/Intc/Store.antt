-- ===== src/Intc/Store.antt =====
-- `storeIntc`: a guest store to the controller. `freertos` is CONFIG_GUEST_FREERTOS. The result
-- is the controller after the store and the words written to the host's controller.
use hyparm.Common.{ℕ, zero, suc, ◌+◌, ◌^◌, bit_and, bit_or, Bool, ◌!=◌, ◌==◌, ◌&&◌}
use hyparm.Common.{if◌then◌else◌, none, some, Outcome, ok, die, ◌>>=◌, List, [], ◌∷◌, set}
use hyparm.Common.{bad_access_size, read_only_register, not_implemented, no_such_register}
use hyparm.Bits.{not32}
use hyparm.Host.{HostWrite, mask_interrupt_be, unmask_interrupt_be}
use hyparm.Access.{AccessSize, byte, halfword, word}
use hyparm.Intc.State.{InterruptController, intc_reset}
use hyparm.Intc.Banks.{unmask_interrupt}
use hyparm.Intc.Registers.{Register, register_at, reg_offset}

abbrev pub Stored : Type 0
Stored = InterruptController × List HostWrite

abbrev pub gpt1_irq : ℕ
gpt1_irq = 37

unfoldable pub store_sysconfig : InterruptController → ℕ → InterruptController
store_sysconfig c value =
    let reset = bit_and value 0x2 != 0 in
    let c' = if reset then intc_reset c else c in
    let value' = if reset then bit_and value (not32 0x2) else value in
    record c' { intc_sys_config = bit_and value' 0x1 }

-- The loop of MIR_CLEAR1 and of MIR_SET1, which tells the host of GPT1 only. (In the loops of the
-- other banks there is nothing but tracing.)
unfoldable pub forward_gpt1 : (ℕ → Outcome HostWrite) → ℕ → ℕ → ℕ → Outcome (List HostWrite)
forward_gpt1 tell value zero i = ok []
forward_gpt1 tell value (suc left) i =
    let rest = forward_gpt1 tell value left (i + 1) in
    if bit_and value (2 ^ i) != 0 && i + 32 == gpt1_irq
    then (tell (i + 32) >>= λ w. rest >>= λ ws. ok (w ∷ ws))
    else rest

unfoldable pub store_mir_clear1 : InterruptController → ℕ → Outcome Stored
store_mir_clear1 c value = do
  writes ← forward_gpt1 unmask_interrupt_be value 32 0
  ok (record c { intc_mir1 = bit_and c.intc_mir1 (not32 value) }, writes)

-- The FreeRTOS build unmasks GPT1 here too.
unfoldable pub store_mir_clear2 : Bool → InterruptController → ℕ → Outcome Stored
store_mir_clear2 freertos c value =
    let c' = record c { intc_mir2 = bit_and c.intc_mir2 (not32 value) } in
    if freertos then (unmask_interrupt c' gpt1_irq >>= λ d. ok (d, [])) else ok (c', [])

unfoldable pub store_mir_set0 : InterruptController → ℕ → InterruptController
store_mir_set0 c value =
    let mir = bit_or c.intc_mir0 value in
    record c { intc_mir0 = mir; intc_pending_irq0 = bit_and c.intc_itr0 (not32 mir) }

unfoldable pub or_mir1 : InterruptController → ℕ → InterruptController
or_mir1 c value =
    let mir = bit_or c.intc_mir1 value in
    record c { intc_mir1 = mir; intc_pending_irq1 = bit_and c.intc_itr1 (not32 mir) }

unfoldable pub store_mir_set1 : InterruptController → ℕ → Outcome Stored
store_mir_set1 c value = do
  writes ← forward_gpt1 mask_interrupt_be value 32 0
  ok (or_mir1 c value, writes)

unfoldable pub store_mir_set2 : InterruptController → ℕ → InterruptController
store_mir_set2 c value =
    let mir = bit_or c.intc_mir2 value in
    record c { intc_mir2 = mir; intc_pending_irq2 = bit_and c.intc_itr2 (not32 mir) }

-- MIR1 is writable in the FreeRTOS build only.
unfoldable pub store_mir1 : InterruptController → ℕ → Outcome Stored
store_mir1 c value = do
  let c' = or_mir1 c value
  write ←
      (if bit_and value 0x20 == 0 then unmask_interrupt_be gpt1_irq else mask_interrupt_be gpt1_irq)
  ok (c', write ∷ [])

unfoldable pub store_isr_clear1 : InterruptController → ℕ → Outcome Stored
store_isr_clear1 c value =
    let c' = record c { intc_isr_clear1 = value } in
    if bit_and value 0x20 != 0
    then (unmask_interrupt_be gpt1_irq >>= λ w. ok (c', w ∷ []))
    else ok (c', [])

-- ILR37 is writable in the FreeRTOS build only; no other priority is.
unfoldable pub store_ilr : Bool → InterruptController → ℕ → ℕ → Outcome Stored
store_ilr freertos c m value =
    if freertos && m == 37
    then ok (record c { intc_ilr = set c.intc_ilr 37 (bit_and value 0xfc) }, [])
    else die not_implemented

-- The `switch (regOffset)`.
unfoldable pub store_register : Bool → InterruptController → Register → ℕ → Outcome Stored
store_register freertos c Register.revision value = die read_only_register
store_register freertos c Register.sysconfig value = ok (store_sysconfig c value, [])
store_register freertos c Register.sysstatus value = die read_only_register
store_register freertos c Register.sir_irq value = die read_only_register
store_register freertos c Register.sir_fiq value = die read_only_register
store_register freertos c Register.mir_clear0 value =
    ok (record c { intc_mir0 = bit_and c.intc_mir0 (not32 value) }, [])
store_register freertos c Register.mir_clear1 value = store_mir_clear1 c value
store_register freertos c Register.mir_clear2 value = store_mir_clear2 freertos c value
store_register freertos c Register.mir_set0 value = ok (store_mir_set0 c value, [])
store_register freertos c Register.mir_set1 value = store_mir_set1 c value
store_register freertos c Register.mir_set2 value = ok (store_mir_set2 c value, [])
store_register freertos c Register.control value =
    ok (record c { intc_control = bit_and value 0xffff_fffc }, [])
store_register freertos c Register.idle value =
    if freertos
    then ok (record c { intc_idle = bit_and value 0xffff_fffd }, [])
    else die not_implemented
store_register freertos c Register.mir1 value =
    if freertos then store_mir1 c value else die not_implemented
store_register freertos c Register.isr_clear1 value =
    if freertos then store_isr_clear1 c value else die not_implemented
store_register freertos c (Register.ilr m) value = store_ilr freertos c m value
store_register freertos c Register.unknown_20 value = die no_such_register
store_register freertos c _ value = die not_implemented

unfoldable pub store_intc : Bool → InterruptController → AccessSize → ℕ → ℕ → Outcome Stored
store_intc freertos c word phy_addr value = elim (register_at (reg_offset phy_addr)) [
  | none ↦ die no_such_register
  | some r ↦ store_register freertos c r value
]
store_intc freertos c byte phy_addr value = die bad_access_size
store_intc freertos c halfword phy_addr value = die bad_access_size
