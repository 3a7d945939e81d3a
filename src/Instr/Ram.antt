-- ===== src/Instr/Ram.antt =====
-- What the theorems on memory ask of `vmLoad` and `vmStore`: words that stay as they are stored.
use hyparm.Common.{ℕ, ◌≡◌, false, Returns, Outcome, ok, die}
use hyparm.Memory.{Memory, update}
use hyparm.Access.{word}
use hyparm.Cpu.State.{GuestContext}
use hyparm.Cpu.Registers.{get_gp_register}
use hyparm.Handle.System.{System, with_guest}
use hyparm.Instr.Machine.{Bus}
use hyparm.Instr.Multiple.{clear_at}

-- `read s` is what the guest's memory holds at its words, the addresses of `IsWord s`. Neither
-- depends on the guest's processor or on the translations.
pub record IsRam (bus : Bus) : Type 1 where
  pub read : System → Memory ℕ
  pub IsWord : System → ℕ → Type 0
  pub loads : (s : System) (a : ℕ) → IsWord s a → bus.vm_load s word a ≡ ok (read s a, s)
  pub stores :
      (s : System) (a v : ℕ)
      → IsWord s a
      → Returns (bus.vm_store s word a v) λ t.
        (t.guest ≡ s.guest)
        × ((b : ℕ) → IsWord s b → (read t b ≡ update (read s) a v b) × IsWord t b)
  pub of_guest :
      (s : System) (c : GuestContext)
      → (read (with_guest s c) ≡ read s) × ((b : ℕ) → IsWord s b → IsWord (with_guest s c) b)
  pub of_store :
      (s : System) (a : ℕ)
      → (read (clear_at s a) ≡ read s) × ((b : ℕ) → IsWord s b → IsWord (clear_at s a) b)

-- The value of a register, 0 if it cannot be read.
abbrev pub value_or_zero : Outcome ℕ → ℕ
value_or_zero (ok v) = v
value_or_zero (die e) = 0

abbrev pub register : GuestContext → ℕ → ℕ
register c n = value_or_zero (get_gp_register false c n)
