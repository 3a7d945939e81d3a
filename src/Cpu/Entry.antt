-- ===== src/Cpu/Entry.antt =====
-- What the guest's entry into a privileged mode does to its state.
use hyparm.Common.{ℕ, ◌%◌, ◌≡◌, arith, Bool, true, false, ◌==◌, if◌then◌else◌}
use hyparm.Common.{ok, inl, inr, Bool-cases}
use hyparm.Cpu.State.{GuestContext, Vector, mode_of, with_mode, usr_mode}
use hyparm.Cpu.Modes.{
  set_exception_vector, is_guest_in_priv_mode, map_guest_table, user_to_priv_addressing,
  guest_change_mode,
}

pub mode_of-with_mode : (psr m : ℕ) → mode_of (with_mode psr m) ≡ m % 0x20
mode_of-with_mode psr m = omega arith

-- The state in a privileged mode: the privileged shadow table is active.
abbrev pub entered : GuestContext → Vector → ℕ → GuestContext
entered c v m = record c {
  exception_vector = v;
  cpsr = with_mode c.cpsr m;
  shadow_active = if mode_of c.cpsr == usr_mode then c.shadow_priv else c.shadow_active;
}

module _ (table_mapped : GuestContext → Bool)
    (mapped : (d : GuestContext) → table_mapped d ≡ true) where
  pub map_guest_table-ok : (c : GuestContext) → map_guest_table table_mapped c ≡ ok c
  unfolding map_guest_table
  map_guest_table-ok c = ground (arith, mapped c)

  pub guest_change_mode-entered :
      (c : GuestContext) (v : Vector) (m : ℕ)
      → set_exception_vector c m ≡ ok (record c { exception_vector = v })
      → (m % 0x20 == usr_mode) ≡ false
      → guest_change_mode table_mapped c m ≡ ok (entered c v m)
  unfolding guest_change_mode is_guest_in_priv_mode user_to_priv_addressing
  guest_change_mode-entered c v m known priv = elim (Bool-cases (mode_of c.cpsr == usr_mode)) [
    | inl e ↦ rw (known, mode_of-with_mode c.cpsr m, priv, e) (map_guest_table-ok _)
    | inr e ↦ rw (known, mode_of-with_mode c.cpsr m, priv, e)
  ]
