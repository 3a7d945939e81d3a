-- ===== src/Handle/Taking.antt =====
-- A data abort that has been thrown is taken by the guest (`throwDataAbort` and `deliverDataAbort`,
-- src/guestManager/guestExceptions.c, one after the other).
use hyparm.Common.{
  ℕ, ◌+◌, ◌%◌, ◌^◌, ◌<◌, ◌≡◌, ◌≢◌, refl, arith, Bool, true, false, ◌==◌, if◌then◌else◌, some, ok,
}
use hyparm.Memory.{Memory, update}
use hyparm.Bits.{bit_at}
use hyparm.Cpu.State.{
  GuestContext, mode_of, usr_mode, bit_field, abt_mode, a_bit, i_bit, cp15_dfsr, cp15_dfar,
}
use hyparm.Cpu.Exceptions.{
  get_exception_handler_address, exc_vect_low_dabt, throw_data_abort, deliver_data_abort,
}
use hyparm.Cpu.Delivery.{deliver_data_abort_lem}
use hyparm.Cpu.Throwing.{status_bit, throw_data_abort_lem}
use hyparm.Mmu.Rights.{Fault, Walk, no_walk, unmapped, mapped, walk, decide_mapped, decide}

-- The guest `c`, at `pc`, has taken a data abort and is now `d`.
pub record TakesDataAbort (c d : GuestContext) (pc fault_status : ℕ) (is_write : Bool)
    (domain address : ℕ) : Type 0 where
  pub in_mode : mode_of d.cpsr ≡ abt_mode
  pub irq_masked : bit_field d.cpsr i_bit ≡ 1
  pub abort_masked : bit_field d.cpsr a_bit ≡ 1
  pub at_handler : d.registers 15 ≡ get_exception_handler_address c exc_vect_low_dabt
  pub common : (n : ℕ) → n ≢ 15 → d.registers n ≡ c.registers n
  pub saved : d.spsr_abt ≡ c.cpsr
  pub link : d.r14_abt ≡ (pc + 8) % 2 ^ 32
  pub dfsr :
      (i : ℕ)
      → bit_at (d.coproc_reg_bank cp15_dfsr) i
        ≡ (if i == 11 then (if is_write then 1 else 0) else status_bit 10 fault_status domain i)
  pub dfar : d.coproc_reg_bank cp15_dfar ≡ address
  pub shadow :
      d.shadow_active ≡ (if mode_of c.cpsr == usr_mode then c.shadow_priv else c.shadow_active)
  pub not_pending : d.guest_data_abt_pending ≡ false

decide_mapped-domain :
    (sctlr dacr : ℕ) (privileged is_write is_section : Bool) (domain ap10 ap2 : ℕ) {f : Fault}
    {b : Bool} {d : ℕ}
    → decide_mapped sctlr dacr privileged is_write is_section domain ap10 ap2 ≡ ok (some (f, b, d))
    → d ≡ domain
decide_mapped-domain sctlr dacr privileged is_write is_section domain ap10 ap2 h = grind arith

abbrev domain_of : Walk → ℕ
domain_of no_walk = 0
domain_of (unmapped is_section domain) = domain
domain_of (mapped is_section domain ap10 ap2) = domain

decide-domain_of :
    (sctlr dacr : ℕ) (privileged is_write : Bool) (w : Walk) {f : Fault} {b : Bool} {d : ℕ}
    → decide sctlr dacr privileged is_write w ≡ ok (some (f, b, d))
    → d ≡ domain_of w
decide-domain_of sctlr dacr privileged is_write no_walk h = cc
decide-domain_of sctlr dacr privileged is_write (unmapped is_section domain) h = cc
decide-domain_of sctlr dacr privileged is_write (mapped is_section domain ap10 ap2) h =
    decide_mapped-domain sctlr dacr privileged is_write is_section domain ap10 ap2 h

walk-domain : (memory : Memory ℕ) (base address : ℕ) → domain_of (walk memory base address) < 0x10
walk-domain memory base address = ground arith

pub decide-domain :
    (sctlr dacr : ℕ) (privileged is_write : Bool) (memory : Memory ℕ) (base address : ℕ) {f : Fault}
    {b : Bool} {d : ℕ}
    → decide sctlr dacr privileged is_write (walk memory base address) ≡ ok (some (f, b, d))
    → d < 0x10
decide-domain sctlr dacr privileged is_write memory base address h =
    let same = decide-domain_of sctlr dacr privileged is_write (walk memory base address) h in
    rw same (walk-domain memory base address)

module _ (table_mapped : GuestContext → Bool) (maps : (d : GuestContext) → table_mapped d ≡ true)
    (thumb2 : Bool) where
  -- The delivery of an abort that has just been thrown.
  pub deliver_thrown :
      (c : GuestContext) (address fault_status : ℕ) (is_write : Bool) (domain : ℕ)
      → domain < 0x10
      → (d : GuestContext) × (deliver_data_abort table_mapped thumb2
            (throw_data_abort c address fault_status is_write domain)
          ≡ ok d)
        × TakesDataAbort c d (c.registers 15) fault_status is_write domain address
  unfolding throw_data_abort get_exception_handler_address update
  deliver_thrown c address fault_status is_write domain small =
      let thrown = throw_data_abort c address fault_status is_write domain in
      let (d, returns, (starts, masked, saved, link, done)) =
        deliver_data_abort_lem table_mapped maps thumb2 thrown in
      let told = λ (i : ℕ). throw_data_abort_lem c address fault_status is_write domain i small in
      (
        d,
        returns,
        record {
          in_mode = starts.in_mode;
          irq_masked = starts.irq_masked;
          abort_masked = masked;
          at_handler = starts.common 15;
          common = λ n ne. let e : (n == 15) ≡ false = ground arith in rw e at (starts.common n);
          saved = saved;
          link = link;
          dfsr = λ i. rw starts.coprocessor (told i).0;
          dfar = rw starts.coprocessor refl;
          shadow = starts.shadow;
          not_pending = done;
        },
      )
