-- ===== src/Cpu/Msr.antt =====
-- `CPSRWriteByInstr` without the byte that holds the mode.
use hyparm.Common.{ℕ, ◌/◌, ◌≡◌, refl, arith, Bool, true, false, if◌then◌else◌, bit_and, bit_or}
use hyparm.Common.{Returns}
use hyparm.Bits.{bit_and_step, bit_or_step}
use hyparm.Cpu.State.{GuestContext, mode_of}
use hyparm.Cpu.Modes.{cpsr_write_by_instr}

mode_of-bit_and : (x a : ℕ) → mode_of a ≡ 0 → mode_of (bit_and x a) ≡ 0
mode_of-bit_and x a h = omega (
  arith,
  bit_and_step x a,
  bit_and_step (x / 2) (a / 2),
  bit_and_step (x / 2 / 2) (a / 2 / 2),
  bit_and_step (x / 2 / 2 / 2) (a / 2 / 2 / 2),
  bit_and_step (x / 2 / 2 / 2 / 2) (a / 2 / 2 / 2 / 2),
)

mode_of-bit_or : (a b : ℕ) → mode_of a ≡ 0 → mode_of b ≡ 0 → mode_of (bit_or a b) ≡ 0
mode_of-bit_or a b h k = omega (
  arith,
  bit_or_step a b,
  bit_or_step (a / 2) (b / 2),
  bit_or_step (a / 2 / 2) (b / 2 / 2),
  bit_or_step (a / 2 / 2 / 2) (b / 2 / 2 / 2),
  bit_or_step (a / 2 / 2 / 2 / 2) (b / 2 / 2 / 2 / 2),
)

-- A part of the value that a byte of the mask selects.
selected : (b : Bool) (x : ℕ) → mode_of x ≡ 0 → mode_of (if b then x else 0) ≡ 0
selected true x h = h
selected false x h = refl

-- `CPSRWriteByInstr` with a byte mask that leaves out the lowest byte returns, in whatever mode the
-- guest is, and the mode bits of its CPSR are then zero, which is no mode.
pub cpsr_write_loses_mode :
    (table_mapped : GuestContext → Bool) (hw_passthrough : Bool) (c : GuestContext)
    (val bytemask : ℕ) (is_exc_ret : Bool)
    → bit_and bytemask 1 ≡ 0
    → Returns
        (cpsr_write_by_instr table_mapped hw_passthrough c val bytemask is_exc_ret)
        λ d. mode_of d.cpsr ≡ 0
unfolding cpsr_write_by_instr
cpsr_write_loses_mode table_mapped hw_passthrough c val bytemask is_exc_ret h =
    let part = λ (a : ℕ) (e : mode_of a ≡ 0). mode_of-bit_and val a e in
    rw h (
      _,
      refl,
      mode_of-bit_or _ _
          (mode_of-bit_or _ _
            (selected _ _ (
              mode_of-bit_or _ _ (part 0xf800_0000 refl)
                (selected is_exc_ret _ (part 0x0700_0000 refl))))
            (selected _ _ (part 0x000f_0000 refl)))
          (selected _ _ (
            mode_of-bit_or _ _ (selected is_exc_ret _ (part 0xfc00 refl))
              (mode_of-bit_or _ _ (part 0x200 refl) (part 0x100 refl)))),
    )
