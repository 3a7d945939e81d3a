-- ===== src/Instr/Loading.antt =====
-- What the loop of a multiple load leaves in the registers.
use hyparm.Common.{
  ℕ, zero, suc, ◌+◌, ◌*◌, ◌%◌, ◌^◌, ◌≤◌, ◌<◌, ◌≡◌, refl, ◌∙◌, arith, Bool, true, false, ◌==◌, ◌&&◌,
  ltb, leb, if◌then◌else◌, Bool-cases, same_or_apart, inl, inr, Outcome, ok,
}
use hyparm.Cpu.State.{mode_of}
use hyparm.Cpu.Registers.{get_gp_register}
use hyparm.Cpu.Banking.{has_bank, set_gp_register_all}
use hyparm.Handle.System.{System, with_guest}
use hyparm.Instr.Encoding.{flag}
use hyparm.Instr.Machine.{Bus, set_register}
use hyparm.Instr.Multiple.{load_one, load_registers}
use hyparm.Instr.Ram.{IsRam}
use hyparm.Instr.Saving.{Holds, advance, advance-small, first_word, advance-words}

-- The list has register `j`, which is one of the `left` from `i` on.
abbrev pub is_loaded : (left registers i j : ℕ) → Bool
is_loaded left registers i j = (leb i j && ltb j (left + i)) && flag j registers

-- One turn and those after it.
loaded_step :
    (left registers i m : ℕ) (read_now : ℕ) (values : ℕ → ℕ) (old : Outcome ℕ)
    → (flag i registers ≡ true → read_now ≡ values i)
    → (if is_loaded left registers (suc i) m
        then ok (values m)
        else (if flag i registers && i == m then ok read_now else old))
      ≡ (if is_loaded (suc left) registers i m then ok (values m) else old)
loaded_step left registers i m read_now values old first = elim (same_or_apart i m) [
  | inl same ↦ elim (Bool-cases (flag i registers)) [
    | inl e ↦
        let flag_m : flag m registers ≡ true = rw same at e in
        let now : read_now ≡ values m = rw same at (first e) in
        rw (e, flag_m, now) (ground (arith, same))
    | inr e ↦
        let flag_m : flag m registers ≡ false = rw same at e in
        rw (e, flag_m) (ground (arith, same))
  ]
  | inr apart ↦ ground (arith, apart)
]

module _ (bus : Bus) (ram : IsRam bus) where
  open ram use {read, IsWord}

  -- `t` is `s` but for R0 to R14, and for the translations.
  abbrev pub Same : System → System → Type 0
  Same s t =
      (t.guest.cpsr ≡ s.guest.cpsr)
      × (t.guest.registers 15 ≡ s.guest.registers 15)
      × (read t ≡ read s)
      × ((b : ℕ) → IsWord s b → IsWord t b)

  -- One write of a register.
  pub set_register_lem :
      (s : System) (n v : ℕ)
      → has_bank (mode_of s.guest.cpsr) ≡ true
      → n < 15
      → (t : System) × (set_register s n v ≡ ok t)
        × Same s t
        × ((m : ℕ)
            → m < 15
            → get_gp_register false t.guest m
              ≡ (if n == m then ok v else get_gp_register false s.guest m))
  unfolding set_register
  set_register_lem s n v banked h =
      let (c, returns, (reads, mode, here)) = set_gp_register_all false s.guest n v banked h in
      let (memory, kept) = ram.of_guest s c in
      rw returns (with_guest s c, refl, (mode, here, memory, kept), reads)

  load_one_lem :
      (registers i : ℕ) (s : System) (address : ℕ)
      → has_bank (mode_of s.guest.cpsr) ≡ true
      → i < 15
      → IsWord s address
      → (t : System) × (load_one false bus registers i s address
          ≡ ok (t, advance registers i address))
        × Same s t
        × ((m : ℕ)
            → m < 15
            → get_gp_register false t.guest m ≡ (
                if flag i registers && i == m
                then ok (read s address)
                else get_gp_register false s.guest m))
  unfolding load_one
  load_one_lem registers i s address banked h word = elim (Bool-cases (flag i registers)) [
    | inl e ↦
        let (t, returns, same, reads) = set_register_lem s i (read s address) banked h in
        rw (e, ram.loads s address word, returns) (t, refl, same, reads)
    | inr e ↦ rw e (s, refl, (refl, refl, refl, λ b w. w), λ m lt. refl)
  ]

  -- The registers of the list take the values that memory has for them; the others stay.
  pub load_registers_lem :
      (left registers i : ℕ) (s : System) (address : ℕ) (values : ℕ → ℕ)
      → has_bank (mode_of s.guest.cpsr) ≡ true
      → left + i ≤ 15
      → address < 2 ^ 32
      → ((j : ℕ) → j < left → IsWord s ((address + 4 * j) % 2 ^ 32))
      → Holds left registers i address (read s) values
      → (t : System) × (next : ℕ) × (load_registers false bus left registers i s address
          ≡ ok (t, next))
        × Same s t
        × ((m : ℕ)
            → m < 15
            → get_gp_register false t.guest m ≡ (
                if is_loaded left registers i m
                then ok (values m)
                else get_gp_register false s.guest m))
  unfolding load_registers
  load_registers_lem zero registers i s address values banked h small words holds =
      (s, address, refl, (refl, refl, refl, λ b w. w), λ m lt. ground arith)
  load_registers_lem (suc left) registers i s address values banked h small words (first, holds) =
      let (t, one, (mode, here, memory, kept), reads) =
        load_one_lem registers i s address banked (omega (arith, h))
          (first_word left address (IsWord s) small words) in
      let (u, next, rest, (mode2, here2, memory2, kept2), reads2) =
        load_registers_lem left registers (suc i) t (advance registers i address) values
          (rw mode banked) (omega (arith, h)) (advance-small registers i address small)
          (λ j lt. kept _ (advance-words left registers i address (IsWord s) words j lt))
          (rw memory holds) in
      rw (one, rest)
        (
          u,
          next,
          refl,
          (mode2 ∙ mode, here2 ∙ here, memory2 ∙ memory, λ b w. kept2 b (kept b w)),
          λ m lt.
              rw (reads2 m lt, reads m lt)
                (loaded_step left registers i m (read s address) values _ first),
        )
