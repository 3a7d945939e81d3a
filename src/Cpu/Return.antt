-- ===== src/Cpu/Return.antt =====
-- The return from an exception: `CPSRWriteByInstr` of a saved CPSR, with all four bytes selected.
use hyparm.Common.{
  ℕ, ◌%◌, ◌^◌, ◌<◌, ◌≡◌, refl, arith, Bool, true, false, not, ◌&&◌, ◌||◌, ◌==◌, ◌!=◌, if◌then◌else◌,
  bit_and, bit_or,
}
use hyparm.Common.{ok, ◌∙◌, Returns, inl, inr, Bool-cases}
use hyparm.Bits.{bit_at_ext, bit_at-bit_and, bit_at-bit_or, bit_or-lt, bit_and-le}
use hyparm.Intc.Lines.{is_irq_pending}
use hyparm.Cpu.State.{
  GuestContext, Vector, mode_of, bit_field, usr_mode, irq_mode, svc_mode, abt_mode, und_mode, i_bit,
  cp15_sctrl,
}
use hyparm.Cpu.Modes.{
  set_exception_vector, is_guest_in_priv_mode, is_bad_mode, priv_to_user_addressing,
  guest_change_mode, write_mode, cpsr_write_by_instr,
}
use hyparm.Cpu.Entry.{entered, mode_of-with_mode, map_guest_table-ok, guest_change_mode-entered}

bit_and-join :
    (x a b : ℕ) → x < 2 ^ 32 → bit_or (bit_and x a) (bit_and x b) ≡ bit_and x (bit_or a b)
bit_and-join x a b h =
    bit_at_ext 32 (bit_or (bit_and x a) (bit_and x b)) (bit_and x (bit_or a b))
      (bit_or-lt 32 (bit_and x a) (bit_and x b) (omega (arith, bit_and-le x a))
        (omega (arith, bit_and-le x b)))
      (omega (arith, bit_and-le x (bit_or a b)))
      λ i lt. omega (
        arith,
        bit_at-bit_or (bit_and x a) (bit_and x b) i,
        bit_at-bit_and x a i,
        bit_at-bit_and x b i,
        bit_at-bit_and x (bit_or a b) i,
        bit_at-bit_or a b i,
      )

-- The fields that `CPSRWriteByInstr` puts together.
all_fields :
    (x : ℕ)
    → x < 2 ^ 32
    → (let top =
          bit_or (bit_or (bit_and x 0xf800_0000) (bit_and x 0x0700_0000)) (bit_and x 0x000f_0000) in
        let middle = bit_or (bit_and x 0xfc00) (bit_or (bit_and x 0x200) (bit_and x 0x100)) in
        let low = bit_or (bit_and x 0x80) (bit_or (bit_and x 0x40) (bit_and x 0x20)) in
        bit_or (bit_or (bit_or top middle) low) (bit_and x 0x1f) ≡ bit_and x 0xff0f_ffff)
all_fields x h =
    let join = λ (a : ℕ) (b : ℕ). bit_and-join x a b h in
    rw (
      join 0xf800_0000 0x0700_0000,
      join 0xff00_0000 0x000f_0000,
      join 0x200 0x100,
      join 0xfc00 0x300,
      join 0xff0f_0000 0xff00,
      join 0x40 0x20,
      join 0x80 0x60,
      join 0xff0f_ff00 0xe0,
      join 0xff0f_ffe0 0x1f,
    )

-- The modes whose exception vector the hypervisor has.
abbrev pub has_vector : ℕ → Bool
has_vector mode =
    mode == usr_mode || mode == irq_mode || mode == svc_mode || mode == abt_mode || mode == und_mode

vector_of :
    (c : GuestContext) (m : ℕ)
    → has_vector m ≡ true
    → (v : Vector) × (set_exception_vector c m ≡ ok (record c { exception_vector = v }))
unfolding set_exception_vector
vector_of c m h =
    let v =
      if m == usr_mode
      then Vector.usr_vector
      else if m == irq_mode
      then Vector.irq_vector
      else if m == svc_mode
      then Vector.svc_vector
      else if m == abt_mode
      then Vector.abort_vector
      else Vector.und_vector in
    (v, ground arith)

has_vector-is_bad_mode : (m : ℕ) → has_vector m ≡ true → is_bad_mode m ≡ false
unfolding is_bad_mode
has_vector-is_bad_mode m h = ground arith

module _ (table_mapped : GuestContext → Bool)
    (mapped : (d : GuestContext) → table_mapped d ≡ true) where
  enter_user :
      (c : GuestContext)
      → Returns
          (guest_change_mode table_mapped c usr_mode)
          λ d. d.guest_irq_pending ≡ c.guest_irq_pending
  unfolding guest_change_mode is_guest_in_priv_mode priv_to_user_addressing set_exception_vector
  enter_user c = elim (Bool-cases (mode_of c.cpsr == usr_mode)) [
    | inl e ↦ rw (mode_of-with_mode c.cpsr usr_mode, e) (_, refl, refl)
    | inr e ↦
        rw (mode_of-with_mode c.cpsr usr_mode, e)
          (_, map_guest_table-ok table_mapped mapped _, refl)
  ]

  guest_change_mode-returns :
      (c : GuestContext) (m : ℕ)
      → has_vector m ≡ true
      → Returns (guest_change_mode table_mapped c m) λ d. d.guest_irq_pending ≡ c.guest_irq_pending
  guest_change_mode-returns c m h = elim (Bool-cases (m == usr_mode)) [
    | inl e ↦ let same : m ≡ usr_mode = ground arith in rw same (enter_user c)
    | inr e ↦
        let (v, known) = vector_of c m h in
        let priv : (m % 0x20 == usr_mode) ≡ false = ground arith in
        (entered c v m, guest_change_mode-entered table_mapped mapped c v m known priv, refl)
  ]

  write_mode-returns :
      (c : GuestContext) (val : ℕ)
      → has_vector (mode_of val) ≡ true
      → Returns (write_mode table_mapped c val) λ d. d.guest_irq_pending ≡ c.guest_irq_pending
  unfolding write_mode
  write_mode-returns c val h = elim (Bool-cases (mode_of val != mode_of c.cpsr)) [
    | inl e ↦
        rw (has_vector-is_bad_mode (mode_of val) h, e) (guest_change_mode-returns c (mode_of val) h)
    | inr e ↦ rw (has_vector-is_bad_mode (mode_of val) h, e) (c, refl, refl)
  ]

  -- `CPSRWriteByInstr` with all four bytes selected, on an exception return to a user, IRQ,
  -- supervisor, abort or undefined mode, returns, if the guest's page table can be mapped and FIQs
  -- are maskable. The CPSR is the value with its reserved bits 20 to 23 cleared, and the IRQ flag is
  -- raised if the return enables IRQs while one is pending at the controller.
  pub exception_return_lem :
      (hw_passthrough : Bool) (c : GuestContext) (val : ℕ)
      → val < 2 ^ 32
      → has_vector (mode_of val) ≡ true
      → bit_and (c.coproc_reg_bank cp15_sctrl) 0x0800_0000 ≡ 0
      → Returns (cpsr_write_by_instr table_mapped hw_passthrough c val 0xf true) λ d.
        (d.cpsr ≡ bit_and val 0xff0f_ffff)
        × (d.guest_irq_pending ≡ (
            if not hw_passthrough
              && (bit_field val i_bit == 0 && bit_field c.cpsr i_bit == 1)
              && is_irq_pending c.irq_controller
            then true
            else c.guest_irq_pending))
  unfolding cpsr_write_by_instr
  exception_return_lem hw_passthrough c val fits h maskable =
      let raised =
        not hw_passthrough
        && (bit_field val i_bit == 0 && bit_field c.cpsr i_bit == 1)
        && is_irq_pending c.irq_controller in
      let told : GuestContext = if raised then record c { guest_irq_pending = true } else c in
      let (d, returns, same) = write_mode-returns told val h in
      rw (has_vector-is_bad_mode (mode_of val) h, maskable, returns)
        (
          _,
          refl,
          (all_fields val fits, same ∙ elim (Bool-cases raised) [ inl e ↦ rw e | inr e ↦ rw e ]),
        )
