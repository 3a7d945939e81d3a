-- ===== src/Cpu/Banking.antt =====
-- The banks of registers: what a write of one register does to the reads of all.
use hyparm.Common.{ℕ, ◌<◌, ◌≡◌, ◌≢◌, arith, Bool, true, ◌||◌, ◌==◌, if◌then◌else◌, ltb}
use hyparm.Common.{Outcome, ok, Outcome-cases, ap, Returns, inl, inr, Bool-cases}
use hyparm.Memory.{update}
use hyparm.Cpu.State.{
  GuestContext, mode_of, usr_mode, fiq_mode, irq_mode, svc_mode, abt_mode, und_mode, sys_mode,
}
use hyparm.Cpu.Registers.{
  Place, high_gp_register_pointer, read_place, write_place, get_gp_register, set_gp_register,
}

-- The modes in which the registers can be read.
abbrev pub has_bank : ℕ → Bool
has_bank mode =
    mode == usr_mode
    || mode == sys_mode
    || mode == fiq_mode
    || mode == irq_mode
    || mode == svc_mode
    || mode == abt_mode
    || mode == und_mode

read_place-write_place :
    (c : GuestContext) (p : Place) (v : ℕ) → read_place (write_place c p v) p ≡ v
unfolding read_place write_place update
read_place-write_place c p v = ground arith

read_place_other :
    (c : GuestContext) (p q : Place) (v : ℕ)
    → p ≢ q
    → read_place (write_place c p v) q ≡ read_place c q
unfolding read_place write_place update
read_place_other c p q v h = ground arith

write_place-cpsr : (c : GuestContext) (p : Place) (v : ℕ) → (write_place c p v).cpsr ≡ c.cpsr
unfolding write_place
write_place-cpsr c p v = ground arith

-- The place of each of the registers R0 to R14.
abbrev slot : ℕ → ℕ → Outcome Place
slot mode n = if ltb n 8 then ok (Place.common n) else high_gp_register_pointer mode n

slot_of : (mode n : ℕ) → has_bank mode ≡ true → (p : Place) × (slot mode n ≡ ok p)
unfolding high_gp_register_pointer
slot_of mode n h = elim (Outcome-cases (slot mode n)) [
  | inl found ↦ found
  | inr (e, dead) ↦ absurd (ground arith)
]

slots_differ :
    (mode n m : ℕ) {p q : Place}
    → n < 15
    → m < 15
    → n ≢ m
    → slot mode n ≡ ok p
    → slot mode m ≡ ok q
    → p ≢ q
unfolding high_gp_register_pointer
slots_differ mode n m a b c d e f = ground arith

get-slot :
    (thumb2 : Bool) (c : GuestContext) (n : ℕ) {p : Place}
    → n < 15
    → slot (mode_of c.cpsr) n ≡ ok p
    → get_gp_register thumb2 c n ≡ ok (read_place c p)
unfolding get_gp_register
get-slot thumb2 c n h e = elim (Bool-cases (ltb n 8)) [
  | inl low ↦ ground arith
  | inr high ↦ ground arith
]

set-slot :
    (c : GuestContext) (n v : ℕ) {p : Place}
    → n < 15
    → slot (mode_of c.cpsr) n ≡ ok p
    → set_gp_register c n v ≡ ok (write_place c p v)
unfolding set_gp_register
set-slot c n v h e = elim (Bool-cases (ltb n 8)) [
  | inl low ↦ ground arith
  | inr high ↦ ground arith
]

write_place-pc :
    (c : GuestContext) (n v : ℕ) {p : Place}
    → n < 15
    → slot (mode_of c.cpsr) n ≡ ok p
    → (write_place c p v).registers 15 ≡ c.registers 15
unfolding high_gp_register_pointer write_place update
write_place-pc c n v h e = ground arith

-- In a mode with a bank each of R0 to R14 can be read.
pub get_gp_register_total :
    (thumb2 : Bool) (c : GuestContext) (n : ℕ)
    → has_bank (mode_of c.cpsr) ≡ true
    → n < 15
    → (v : ℕ) × (get_gp_register thumb2 c n ≡ ok v)
get_gp_register_total thumb2 c n banked h =
    let (p, at_n) = slot_of (mode_of c.cpsr) n banked in
    (read_place c p, get-slot thumb2 c n h at_n)

-- One write, and all that is read after it.
pub set_gp_register_all :
    (thumb2 : Bool) (c : GuestContext) (n v : ℕ)
    → has_bank (mode_of c.cpsr) ≡ true
    → n < 15
    → Returns (set_gp_register c n v) λ d.
      ((m : ℕ)
        → m < 15
        → get_gp_register thumb2 d m ≡ (if n == m then ok v else get_gp_register thumb2 c m))
      × (d.cpsr ≡ c.cpsr)
      × (d.registers 15 ≡ c.registers 15)
set_gp_register_all thumb2 c n v banked hn =
    let (p, at_n) = slot_of (mode_of c.cpsr) n banked in
    let d = write_place c p v in
    let reads : (m : ℕ)
        → m < 15
        → get_gp_register thumb2 d m ≡ (if n == m then ok v else get_gp_register thumb2 c m) =
      λ m hm.
        let (q, at_m) = slot_of (mode_of c.cpsr) m banked in
        let same : slot (mode_of d.cpsr) m ≡ ok q = rw (write_place-cpsr c p v) at_m in
        elim (Bool-cases (n == m)) [
          | inl e ↦
              let eq : n ≡ m = ground arith in
              let again : q ≡ p = ground arith in
              rw (e, get-slot thumb2 d m hm same, again) (ap ok (read_place-write_place c p v))
          | inr e ↦
              let apart : n ≢ m = ground arith in
              rw (e, get-slot thumb2 d m hm same, get-slot thumb2 c m hm at_m)
                (ap ok (
                  read_place_other c p q v
                    (slots_differ (mode_of c.cpsr) n m hn hm apart at_n at_m)))
        ] in
    (d, set-slot c n v hn at_n, (reads, write_place-cpsr c p v, write_place-pc c n v hn at_n))

-- In a mode with a bank, `setGPRegister` of each of R0 to R14 returns; `getGPRegister` then gives
-- that register the value, and every other of R0 to R14 as it was.
pub set_gp_register_lem :
    (thumb2 : Bool) (c : GuestContext) (n m v : ℕ)
    → has_bank (mode_of c.cpsr) ≡ true
    → n < 15
    → m < 15
    → Returns
        (set_gp_register c n v)
        λ d. get_gp_register thumb2 d m ≡ (if n == m then ok v else get_gp_register thumb2 c m)
set_gp_register_lem thumb2 c n m v banked hn hm =
    let (d, returns, (reads, psr, counter)) = set_gp_register_all thumb2 c n v banked hn in
    (d, returns, reads m hm)
