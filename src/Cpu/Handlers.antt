-- ===== src/Cpu/Handlers.antt =====
-- How a handler of the guest starts (the common part of the deliver functions of
-- src/guestManager/guestExceptions.c).
use hyparm.Common.{
  ℕ, ◌/◌, ◌^◌, ◌≤◌, ◌<◌, ◌≡◌, refl, arith, Bool, true, false, ◌==◌, ◌!=◌, if◌then◌else◌, bit_and,
}
use hyparm.Memory.{Memory, update}
use hyparm.Cpu.State.{
  GuestContext, Vector, mode_of, bit_field, with_mode, with_bit, usr_mode, t_bit, i_bit, f_bit,
  a_bit, cp15_sctrl,
}
use hyparm.Cpu.Exceptions.{get_exception_handler_address, thumb_of_sctlr}

-- The state `d` is that in which the handler at `offset` starts, in a given mode, for a guest that
-- was in the state `c`: interrupts are masked, and R0 to R14 of the common bank, the coprocessor
-- registers, the flags and F are as they were.
pub record StartsHandler (c d : GuestContext) (mode offset : ℕ) (v : Vector) : Type 0 where
  pub in_mode : mode_of d.cpsr ≡ mode
  pub irq_masked : bit_field d.cpsr i_bit ≡ 1
  pub fiq_mask : bit_field d.cpsr f_bit ≡ bit_field c.cpsr f_bit
  pub flags : d.cpsr / 2 ^ 9 ≡ c.cpsr / 2 ^ 9
  pub common :
      (n : ℕ)
      → d.registers n ≡ (if n == 15 then get_exception_handler_address c offset else c.registers n)
  pub vector : d.exception_vector ≡ v
  pub coprocessor : d.coproc_reg_bank ≡ c.coproc_reg_bank
  pub shadow :
      d.shadow_active ≡ (if mode_of c.cpsr == usr_mode then c.shadow_priv else c.shadow_active)

-- The T bit after the entry.
abbrev pub sctlr_te : GuestContext → ℕ
sctlr_te c = if bit_and (c.coproc_reg_bank cp15_sctrl) 0x4000_0000 != 0 then 1 else 0

sctlr_te-le-one : (c : GuestContext) → sctlr_te c ≤ 1
sctlr_te-le-one c = ground arith

-- The CPSR after the entry, with and without the write of the T bit.
abbrev pub thumbed : Bool → GuestContext → ℕ → ℕ
thumbed thumb2 c psr = if thumb2 then with_bit psr t_bit (sctlr_te c) else psr

module _ (c : GuestContext) (psr m : ℕ) (k : m < 0x20) where
  pub masked_i :
      (thumb2 : Bool)
      → let r = with_bit (thumbed thumb2 c (with_mode psr m)) i_bit 1 in
        (mode_of r ≡ m)
        × (bit_field r i_bit ≡ 1)
        × (bit_field r f_bit ≡ bit_field psr f_bit)
        × (r / 2 ^ 8 ≡ psr / 2 ^ 8)
  masked_i true = let t = sctlr_te-le-one c in omega arith
  masked_i false = omega arith

  pub masked_a_i :
      (thumb2 : Bool)
      → let r = with_bit (with_bit (thumbed thumb2 c (with_mode psr m)) a_bit 1) i_bit 1 in
        (mode_of r ≡ m)
        × (bit_field r i_bit ≡ 1)
        × (bit_field r f_bit ≡ bit_field psr f_bit)
        × (r / 2 ^ 9 ≡ psr / 2 ^ 9)
        × (bit_field r a_bit ≡ 1)
  masked_a_i true = let t = sctlr_te-le-one c in omega arith
  masked_a_i false = omega arith

pub update_pc : (m : Memory ℕ) (v n : ℕ) → update m 15 v n ≡ (if n == 15 then v else m n)
unfolding update
update_pc m v n = ground arith

-- The entry's own part of `thumb_of_sctlr`.
pub thumb_of_sctlr-eq :
    (thumb2 : Bool) (c : GuestContext)
    → thumb_of_sctlr thumb2 c ≡ record c { cpsr = thumbed thumb2 c c.cpsr }
unfolding thumb_of_sctlr
thumb_of_sctlr-eq true c = refl
thumb_of_sctlr-eq false c = refl

pub starts :
    (c d : GuestContext) (m offset : ℕ) (v : Vector)
    → (mode_of d.cpsr ≡ m)
      × (bit_field d.cpsr i_bit ≡ 1)
      × (bit_field d.cpsr f_bit ≡ bit_field c.cpsr f_bit)
      × (d.cpsr / 2 ^ 9 ≡ c.cpsr / 2 ^ 9)
    → d.registers ≡ update c.registers 15 (get_exception_handler_address c offset)
    → d.exception_vector ≡ v
    → d.coproc_reg_bank ≡ c.coproc_reg_bank
    → d.shadow_active ≡ (if mode_of c.cpsr == usr_mode then c.shadow_priv else c.shadow_active)
    → StartsHandler c d m offset v
starts c d m offset v bits registers vector coprocessor shadow = record {
  in_mode = bits.0;
  irq_masked = bits.1;
  fiq_mask = bits.2;
  flags = bits.3;
  common = λ n. rw registers (update_pc c.registers _ n);
  vector = vector;
  coprocessor = coprocessor;
  shadow = shadow;
}
