-- ===== src/Instr/Saving.antt =====
-- What the loop of a multiple store leaves in memory.
use hyparm.Common.{
  ℕ, zero, suc, ◌+◌, ◌*◌, ◌%◌, ◌^◌, ◌≤◌, ◌<◌, ◌≡◌, ◌≢◌, refl, ◌∙◌, arith, true, false,
  if◌then◌else◌, Bool-cases, inl, inr, ok, same_or_apart,
}
use hyparm.Memory.{Memory, update_self, update_ne}
use hyparm.Cpu.State.{GuestContext, mode_of}
use hyparm.Cpu.Registers.{get_gp_register}
use hyparm.Cpu.Banking.{has_bank, get_gp_register_total}
use hyparm.Handle.System.{System}
use hyparm.Instr.Encoding.{flag}
use hyparm.Instr.Machine.{Bus}
use hyparm.Instr.Multiple.{clear_at, store_one, store_registers}
use hyparm.Instr.Ram.{IsRam, register}

pub register-ok :
    (c : GuestContext) (n : ℕ)
    → has_bank (mode_of c.cpsr) ≡ true
    → n < 16
    → get_gp_register false c n ≡ ok (register c n)
unfolding get_gp_register
register-ok c n banked h = elim (same_or_apart n 15) [
  | inl e ↦ rw e refl
  | inr e ↦ let (v, e) = get_gp_register_total false c n banked (omega arith) in rw e refl
]

-- The address after the turn of register `i`.
abbrev pub advance : (registers i address : ℕ) → ℕ
advance registers i address = if flag i registers then (address + 4) % 2 ^ 32 else address

-- Memory has the registers from `i` on, `left` of them, from the address on.
abbrev pub Holds : (left registers i address : ℕ) → Memory ℕ → (ℕ → ℕ) → Type 0
Holds zero registers i address m values = Unit {0}
Holds (suc left) registers i address m values =
    (flag i registers ≡ true → m address ≡ values i)
    × Holds left registers (suc i) (advance registers i address) m values

-- No word from the address on, `left` of them, stands at `b`.
abbrev pub Apart : (left address b : ℕ) → Type 0
Apart left address b = (j : ℕ) → j < left → (address + 4 * j) % 2 ^ 32 ≢ b

pub advance-small :
    (registers i address : ℕ) → address < 2 ^ 32 → advance registers i address < 2 ^ 32
advance-small registers i address h = ground arith

advance_self :
    (left registers i address : ℕ)
    → flag i registers ≡ true
    → left ≤ 16
    → address < 2 ^ 32
    → Apart left (advance registers i address) address
advance_self left registers i address e h small j lt =
    rw e (λ same. omega (arith, h, small, lt, same))

advance-Apart :
    (left registers i address b : ℕ)
    → Apart (suc left) address b
    → Apart left (advance registers i address) b
advance-Apart left registers i address b apart j lt = elim (Bool-cases (flag i registers)) [
  | inl e ↦ rw e (λ same. apart (suc j) (omega arith) (omega (arith, same)))
  | inr e ↦ rw e (apart j (omega (arith, lt)))
]

-- What holds of the words from the address on holds of the first, and of those after a turn.
pub first_word :
    (left address : ℕ) (P : ℕ → Type 0)
    → address < 2 ^ 32
    → ((j : ℕ) → j < suc left → P ((address + 4 * j) % 2 ^ 32))
    → P address
first_word left address P small words =
    let here : (address + 4 * 0) % 2 ^ 32 ≡ address = omega (arith, small) in
    rw here at (words 0 (omega arith))

pub advance-words :
    (left registers i address : ℕ) (P : ℕ → Type 0)
    → ((j : ℕ) → j < suc left → P ((address + 4 * j) % 2 ^ 32))
    → (j : ℕ) → j < left
    → P ((advance registers i address + 4 * j) % 2 ^ 32)
advance-words left registers i address P words j lt = elim (Bool-cases (flag i registers)) [
  | inl e ↦
      let next : ((address + 4) % 2 ^ 32 + 4 * j) % 2 ^ 32 ≡ (address + 4 * suc j) % 2 ^ 32 =
        omega arith in
      rw (e, next) (words (suc j) (omega (arith, lt)))
  | inr e ↦ rw e (words j (omega (arith, lt)))
]

start_differs : (left address b : ℕ) → Apart (suc left) address b → address < 2 ^ 32 → address ≢ b
start_differs left address b apart small same = apart 0 (omega arith) (omega arith)

module _ (bus : Bus) (ram : IsRam bus) where
  open ram use {read, IsWord}

  -- One turn: the guest stays, and memory changes at most at the address.
  store_one_lem :
      (registers i : ℕ) (s : System) (address : ℕ)
      → has_bank (mode_of s.guest.cpsr) ≡ true
      → i < 16
      → IsWord s address
      → (t : System) × (store_one false bus registers i s address
          ≡ ok (t, advance registers i address))
        × (t.guest ≡ s.guest)
        × (flag i registers ≡ true → read t address ≡ register s.guest i)
        × ((b : ℕ) → IsWord s b → IsWord t b)
        × ((b : ℕ) → address ≢ b → IsWord s b → read t b ≡ read s b)
  unfolding store_one
  store_one_lem registers i s address banked h word =
      let value = register s.guest i in
      let reads = register-ok s.guest i banked h in
      let (memory, kept) = ram.of_store s address in
      let (t, returns, (same, holds)) =
        ram.stores (clear_at s address) address value (kept address word) in
      elim (Bool-cases (flag i registers)) [
        | inl e ↦
            rw (e, reads, returns)
              (
                t,
                refl,
                same,
                λ _.
                    (holds address (kept address word)).0
                    ∙ update_self (read (clear_at s address)) address value,
                λ b is_word. (holds b (kept b is_word)).1,
                λ b ne is_word.
                    (holds b (kept b is_word)).0
                    ∙ rw memory (update_ne (read s) address value b ne),
              )
        | inr e ↦ rw e (s, refl, refl, λ absurd. ground (arith, absurd), λ b w. w, λ b ne w. refl)
      ]

  pub store_registers_lem :
      (left registers i : ℕ) (s : System) (address : ℕ)
      → has_bank (mode_of s.guest.cpsr) ≡ true
      → left + i ≤ 16
      → address < 2 ^ 32
      → ((j : ℕ) → j < left → IsWord s ((address + 4 * j) % 2 ^ 32))
      → (t : System) × (next : ℕ) × (store_registers false bus left registers i s address
          ≡ ok (t, next))
        × (t.guest ≡ s.guest)
        × Holds left registers i address (read t) (register s.guest)
        × ((b : ℕ) → IsWord s b → IsWord t b)
        × ((b : ℕ) → Apart left address b → IsWord s b → read t b ≡ read s b)
  unfolding store_registers
  store_registers_lem zero registers i s address banked h small words =
      (s, address, refl, refl, tt, λ b w. w, λ b apart w. refl)
  store_registers_lem (suc left) registers i s address banked h small words =
      let here : IsWord s address = first_word left address (IsWord s) small words in
      let (t, one, same, at_address, kept, elsewhere) =
        store_one_lem registers i s address banked (omega (arith, h)) here in
      let after = advance registers i address in
      let (u, next, rest, same2, holds, kept2, beyond) =
        store_registers_lem left registers (suc i) t after (rw same banked) (omega (arith, h))
          (advance-small registers i address small)
          (λ j lt. kept _ (advance-words left registers i address (IsWord s) words j lt)) in
      rw (one, rest)
        (
          u,
          next,
          refl,
          same2 ∙ same,
          (
            λ e.
                beyond address (advance_self left registers i address e (omega (arith, h)) small)
                  (kept address here)
                ∙ at_address e,
            rw same at holds,
          ),
          λ b w. kept2 b (kept b w),
          λ b apart w.
              beyond b (advance-Apart left registers i address b apart) (kept b w)
              ∙ elsewhere b (start_differs left address b apart small) w,
        )
