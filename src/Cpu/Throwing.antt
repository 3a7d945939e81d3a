-- ===== src/Cpu/Throwing.antt =====
-- What the devices' interrupts and the memory faults leave for the guest (`throwInterrupt`,
-- `throwDataAbort`, `throwPrefetchAbort`).
use hyparm.Common.{
  ℕ, ◌-◌, ◌*◌, ◌%◌, ◌^◌, ◌<◌, ◌≡◌, refl, arith, Bool, true, false, ◌&&◌, ◌==◌, if◌then◌else◌,
  bit_and, bit_or, leb,
}
use hyparm.Common.{Returns, inl, inr, ◌⊎◌, Bool-cases}
use hyparm.Bits.{
  bit_at-zero, bit_and-pow, bit_and_mask, bit_at-nibble, bit_at-shift_left, bit_at-pow,
  bit_at-le-one, bit_at, bit_at-bit_or,
}
use hyparm.Memory.{update}
use hyparm.Intc.Views.{pending_bit}
use hyparm.Intc.Raising.{set_interrupt_lem}
use hyparm.Intc.Sorting.{is_irq_pending-of}
use hyparm.Cpu.State.{GuestContext, bit_field, i_bit, cp15_dfsr, cp15_dfar, cp15_ifsr, cp15_ifar}
use hyparm.Cpu.Exceptions.{is_forwarded, throw_interrupt, throw_data_abort, throw_prefetch_abort}

forwarded_line : (n : ℕ) → is_forwarded n ≡ true → (n < 96) × ((n % 32 == 0) ≡ false)
unfolding is_forwarded
forwarded_line n h = ground arith

-- `throwInterrupt` of each of the fourteen lines that it forwards returns, with the line pending at
-- the guest's controller. The guest's IRQ flag is raised if the guest has IRQs enabled, and else
-- stays as it was.
pub throw_interrupt_lem :
    (c : GuestContext) (n : ℕ)
    → is_forwarded n ≡ true
    → Returns (throw_interrupt false c n) λ d.
      (pending_bit d.irq_controller n ≡ 1)
      × (d.guest_irq_pending ≡ (if bit_field c.cpsr i_bit == 0 then true else c.guest_irq_pending))
      × (d.cpsr ≡ c.cpsr)
unfolding throw_interrupt
throw_interrupt_lem c n h =
    let (lt, inner) = forwarded_line n h in
    let (controller, returns, (pending, mask, raw)) =
      set_interrupt_lem c.irq_controller n n lt lt in
    let here : pending_bit controller n ≡ 1 = ground arith in
    let some_pending = is_irq_pending-of controller n lt here in
    rw (h, returns, some_pending)
      (elim (Bool-cases (bit_field c.cpsr i_bit == 0)) [
        | inl e ↦ rw e (_, refl, (here, refl, refl))
        | inr e ↦ rw e (_, refl, (here, refl, refl))
      ])

-- Bit `i` of a fault status word that has bits 0 to 3 of the fault type at 0, its bit 4 at `place`,
-- and a domain at bit 4.
abbrev pub status_bit : ℕ → ℕ → ℕ → ℕ → ℕ
status_bit place fault_type domain i =
    if leb i 3
    then bit_at fault_type i
    else if leb i 7
    then bit_at domain (i - 4)
    else if i == place
    then bit_at fault_type 4
    else 0

bit_at-domain :
    (domain i : ℕ)
    → domain < 0x10
    → bit_at (domain * 2 ^ 4 % 2 ^ 32) i ≡ (if leb 4 i && leb i 7 then bit_at domain (i - 4) else 0)
bit_at-domain domain i h =
    let small : domain * 2 ^ 4 % 2 ^ 32 ≡ domain * 2 ^ 4 = omega arith in
    let own : domain % 0x10 ≡ domain = omega arith in
    let bits = rw own at (bit_at-nibble domain (i - 4)) in
    rw small (ground (arith, bit_at-shift_left domain 4 i))

-- Bit 4 of a fault type, moved to bit 10 or to bit 14.
module _ (fault_type i : ℕ) where
  abbrev top : ℕ
  top = bit_and fault_type 0x10

  top_cases : ((top ≡ 0) × (bit_at fault_type 4 ≡ 0)) ⊎ ((top ≡ 0x10) × (bit_at fault_type 4 ≡ 1))
  top_cases = omega (arith, bit_and-pow fault_type 4, bit_at-le-one fault_type 4)

  bit_at-ten : bit_at (top * 2 ^ 6 % 2 ^ 32) i ≡ (if i == 10 then bit_at fault_type 4 else 0)
  bit_at-ten = elim top_cases [
    | inl (e, f) ↦ rw (e, f) (ground (arith, bit_at-zero i))
    | inr (e, f) ↦ rw (e, f) (ground (arith, bit_at-pow 10 i))
  ]

  bit_at-fourteen : bit_at (top * 2 ^ 10 % 2 ^ 32) i ≡ (if i == 14 then bit_at fault_type 4 else 0)
  bit_at-fourteen = elim top_cases [
    | inl (e, f) ↦ rw (e, f) (ground (arith, bit_at-zero i))
    | inr (e, f) ↦ rw (e, f) (ground (arith, bit_at-pow 14 i))
  ]

  bit_at-low : bit_at (bit_and fault_type 0xf) i ≡ (if leb i 3 then bit_at fault_type i else 0)
  bit_at-low = rw (bit_and_mask 4 fault_type) (bit_at-nibble fault_type i)

-- `throwDataAbort` with a domain below 16 leaves in DFSR, bit by bit, the fault type at bits 0 to 3
-- and 10, the domain at bits 4 to 7, and at bit 11 whether the access was a write. DFAR holds the
-- address, and a data abort is pending.
pub throw_data_abort_lem :
    (c : GuestContext) (address fault_type : ℕ) (is_write : Bool) (domain i : ℕ)
    → domain < 0x10
    → let d = throw_data_abort c address fault_type is_write domain in
      (bit_at (d.coproc_reg_bank cp15_dfsr) i
        ≡ (if i == 11 then (if is_write then 1 else 0) else status_bit 10 fault_type domain i))
      × (d.coproc_reg_bank cp15_dfar ≡ address)
      × (d.guest_data_abt_pending ≡ true)
unfolding throw_data_abort update
throw_data_abort_lem c address fault_type true domain i h = (
  ground (
    arith,
    bit_at-bit_or (bit_or (bit_and fault_type 0xf) (bit_and fault_type 0x10 * 2 ^ 6 % 2 ^ 32))
        (domain * 2 ^ 4 % 2 ^ 32) i,
    bit_at-bit_or
        (bit_or (bit_or (bit_and fault_type 0xf) (bit_and fault_type 0x10 * 2 ^ 6 % 2 ^ 32))
          (domain * 2 ^ 4 % 2 ^ 32))
        0x800 i,
    bit_at-bit_or (bit_and fault_type 0xf) (bit_and fault_type 0x10 * 2 ^ 6 % 2 ^ 32) i,
    bit_at-low fault_type i,
    bit_at-ten fault_type i,
    bit_at-domain domain i h,
    bit_at-pow 11 i,
  ),
  refl,
  refl,
)
throw_data_abort_lem c address fault_type false domain i h = (
  ground (
    arith,
    bit_at-bit_or (bit_or (bit_and fault_type 0xf) (bit_and fault_type 0x10 * 2 ^ 6 % 2 ^ 32))
        (domain * 2 ^ 4 % 2 ^ 32) i,
    bit_at-bit_or (bit_and fault_type 0xf) (bit_and fault_type 0x10 * 2 ^ 6 % 2 ^ 32) i,
    bit_at-low fault_type i,
    bit_at-ten fault_type i,
    bit_at-domain domain i h,
  ),
  refl,
  refl,
)

-- `throwPrefetchAbort` leaves in IFSR, bit by bit, the fault type at bits 0 to 3, and its bit 4 at
-- bit 14 (the architecture has it at bit 10). IFAR holds the address, and a prefetch abort is
-- pending.
pub throw_prefetch_abort_lem :
    (c : GuestContext) (address fault_type i : ℕ)
    → let d = throw_prefetch_abort c address fault_type in
      (bit_at (d.coproc_reg_bank cp15_ifsr) i ≡ status_bit 14 fault_type 0 i)
      × (d.coproc_reg_bank cp15_ifar ≡ address)
      × (d.guest_prefetch_abt_pending ≡ true)
unfolding throw_prefetch_abort update
throw_prefetch_abort_lem c address fault_type i = (
  ground (
    arith,
    bit_at-bit_or (bit_and fault_type 0xf) (bit_and fault_type 0x10 * 2 ^ 10 % 2 ^ 32) i,
    bit_at-low fault_type i,
    bit_at-fourteen fault_type i,
    bit_at-zero (i - 4),
  ),
  refl,
  refl,
)
