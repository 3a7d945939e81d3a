-- ===== src/Intc/Accesses.antt =====
-- Guest loads and stores keep the invariant of the controller.
use hyparm.Common.{ℕ, ◌^◌, ◌<◌, ◌≡◌, arith, bit_and, bit_or, Bool, ◌!=◌}
use hyparm.Common.{>>=-eq-ok, die-ne-ok, Bool-cases, Option-cases, inl, inr, true, false}
use hyparm.Common.{ok, length-set, List, ◌==◌, if◌then◌else◌}
use hyparm.Bits.{not32, bit_or-lt, bit_and-le}
use hyparm.Host.{HostWrite, mask_interrupt_be, unmask_interrupt_be}
use hyparm.Access.{AccessSize, byte, halfword, word}
use hyparm.Intc.State.{InterruptController}
use hyparm.Intc.Banks.{unmask_interrupt}
use hyparm.Intc.Registers.{Register, register_at, reg_offset}
use hyparm.Intc.Load.{load_sysstatus, load_register, load_intc}
use hyparm.Intc.Store.{
  gpt1_irq, forward_gpt1, store_sysconfig, store_mir_clear1, store_mir_clear2, store_mir_set0,
  or_mir1, store_mir_set1, store_mir_set2, store_mir1, store_isr_clear1, store_ilr, store_register,
  store_intc,
}
use hyparm.Intc.Invariant.{IsValid, intc_reset-IsValid, unmask_interrupt-IsValid}

module _ {c : InterruptController} (value : ℕ) (v : IsValid c) where
  store_sysconfig-IsValid : IsValid (store_sysconfig c value)
  unfolding store_sysconfig
  store_sysconfig-IsValid = elim (Bool-cases (bit_and value 0x2 != 0)) [
    | inl e ↦ rw e (omega (arith, intc_reset-IsValid c))
    | inr e ↦ rw e (omega arith)
  ]

  store_mir_clear1-IsValid :
      {d : InterruptController} {ws : List HostWrite}
      → store_mir_clear1 c value ≡ ok (d, ws)
      → IsValid d
  unfolding store_mir_clear1
  store_mir_clear1-IsValid h =
      let (_, _, last) = >>=-eq-ok (forward_gpt1 unmask_interrupt_be value 32 0) _ h in
      ground (arith, bit_and-le c.intc_mir1 (not32 value))

  store_mir_clear2-IsValid :
      (freertos : Bool) {d : InterruptController} {ws : List HostWrite}
      → store_mir_clear2 freertos c value ≡ ok (d, ws)
      → IsValid d
  unfolding store_mir_clear2
  store_mir_clear2-IsValid freertos h =
      let c' : InterruptController = record c { intc_mir2 = bit_and c.intc_mir2 (not32 value) } in
      let valid : IsValid c' = omega (arith, bit_and-le c.intc_mir2 (not32 value)) in
      elim (Bool-cases freertos) [
        | inr linux ↦ ground (arith)
        | inl free ↦
            let (e, first, last) = >>=-eq-ok (unmask_interrupt c' gpt1_irq) _ (rw free at h) in
            let valid' = unmask_interrupt-IsValid gpt1_irq valid first in ground arith
      ]

module _ {c : InterruptController} {value : ℕ} (fits : value < 2 ^ 32) (v : IsValid c) where
  store_mir_set0-IsValid : IsValid (store_mir_set0 c value)
  unfolding store_mir_set0
  store_mir_set0-IsValid =
      let mir = bit_or c.intc_mir0 value in
      omega (arith, bit_or-lt 32 c.intc_mir0 value, bit_and-le c.intc_itr0 (not32 mir))

  or_mir1-IsValid : IsValid (or_mir1 c value)
  unfolding or_mir1
  or_mir1-IsValid =
      let mir = bit_or c.intc_mir1 value in
      omega (arith, bit_or-lt 32 c.intc_mir1 value, bit_and-le c.intc_itr1 (not32 mir))

  store_mir_set2-IsValid : IsValid (store_mir_set2 c value)
  unfolding store_mir_set2
  store_mir_set2-IsValid =
      let mir = bit_or c.intc_mir2 value in
      omega (arith, bit_or-lt 32 c.intc_mir2 value, bit_and-le c.intc_itr2 (not32 mir))

  module _ {d : InterruptController} {ws : List HostWrite} where
    store_mir_set1-IsValid : store_mir_set1 c value ≡ ok (d, ws) → IsValid d
    unfolding store_mir_set1
    store_mir_set1-IsValid h =
        let (_, _, last) = >>=-eq-ok (forward_gpt1 mask_interrupt_be value 32 0) _ h in
        let valid = or_mir1-IsValid in ground arith

    store_mir1-IsValid : store_mir1 c value ≡ ok (d, ws) → IsValid d
    unfolding store_mir1
    store_mir1-IsValid h =
        let (_, _, last) =
          >>=-eq-ok
            (if bit_and value 0x20 == 0
              then unmask_interrupt_be gpt1_irq
              else mask_interrupt_be gpt1_irq)
            _ h in
        let valid = or_mir1-IsValid in ground arith

    store_isr_clear1-IsValid : store_isr_clear1 c value ≡ ok (d, ws) → IsValid d
    unfolding store_isr_clear1 unmask_interrupt_be
    store_isr_clear1-IsValid h = ground arith

    store_ilr-IsValid :
        (freertos : Bool) (m : ℕ) → store_ilr freertos c m value ≡ ok (d, ws) → IsValid d
    unfolding store_ilr
    store_ilr-IsValid freertos m h = ground (arith, length-set c.intc_ilr 37 (bit_and value 0xfc))

    pub store_register-IsValid :
        (freertos : Bool) (r : Register)
        → store_register freertos c r value ≡ ok (d, ws)
        → IsValid d
    unfolding store_register
    store_register-IsValid freertos Register.sysconfig h =
        let valid = store_sysconfig-IsValid value v in ground arith
    store_register-IsValid freertos Register.mir_clear0 h =
        ground (arith, bit_and-le c.intc_mir0 (not32 value))
    store_register-IsValid freertos Register.mir_clear1 h = store_mir_clear1-IsValid value v h
    store_register-IsValid freertos Register.mir_clear2 h =
        store_mir_clear2-IsValid value v freertos h
    store_register-IsValid freertos Register.mir_set0 h =
        let valid = store_mir_set0-IsValid in ground arith
    store_register-IsValid freertos Register.mir_set1 h = store_mir_set1-IsValid h
    store_register-IsValid freertos Register.mir_set2 h =
        let valid = store_mir_set2-IsValid in ground arith
    store_register-IsValid true Register.mir1 h = store_mir1-IsValid h
    store_register-IsValid true Register.isr_clear1 h = store_isr_clear1-IsValid h
    store_register-IsValid false Register.mir1 h = ground arith
    store_register-IsValid false Register.isr_clear1 h = ground arith
    store_register-IsValid freertos (Register.ilr m) h = store_ilr-IsValid freertos m h
    store_register-IsValid freertos _ h = ground arith

pub store_intc-IsValid :
    (freertos : Bool) {c d : InterruptController} (size : AccessSize) (phy_addr : ℕ) {value : ℕ}
    {ws : List HostWrite}
    → value < 2 ^ 32
    → IsValid c
    → store_intc freertos c size phy_addr value ≡ ok (d, ws)
    → IsValid d
unfolding store_intc
store_intc-IsValid freertos {c} word phy_addr {value} fits v h =
    elim (Option-cases (register_at (reg_offset phy_addr))) [
      | inl absent ↦ absurd (die-ne-ok (rw (absent, store_intc) at h))
      | inr (r, found) ↦ store_register-IsValid fits v freertos r (rw (found, store_intc) at h)
    ]
store_intc-IsValid _ byte _ fits v h = absurd (die-ne-ok h)
store_intc-IsValid _ halfword _ fits v h = absurd (die-ne-ok h)

load_register-IsValid :
    {c d : InterruptController} {value : ℕ} (freertos : Bool) (r : Register)
    → IsValid c
    → load_register freertos c r ≡ ok (d, value)
    → IsValid d
unfolding load_register load_sysstatus
load_register-IsValid freertos Register.revision v h = ground arith
load_register-IsValid freertos _ v h = ground arith

pub load_intc-IsValid :
    (freertos : Bool) {c d : InterruptController} (size : AccessSize) (phy_addr : ℕ) {value : ℕ}
    → IsValid c
    → load_intc freertos c size phy_addr ≡ ok (d, value)
    → IsValid d
unfolding load_intc
load_intc-IsValid freertos {c} word phy_addr v h =
    elim (Option-cases (register_at (reg_offset phy_addr))) [
      | inl absent ↦ absurd (die-ne-ok (rw (absent, load_intc) at h))
      | inr (r, found) ↦ load_register-IsValid freertos r v (rw (found, load_intc) at h)
    ]
load_intc-IsValid _ byte _ v h = absurd (die-ne-ok h)
load_intc-IsValid _ halfword _ v h = absurd (die-ne-ok h)
