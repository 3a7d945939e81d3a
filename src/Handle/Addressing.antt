-- ===== src/Handle/Addressing.antt =====
-- The MMU after the guest has taken an exception.
use hyparm.Common.{◌≡◌, refl, ap, bit_or, false, ◌==◌, if◌then◌else◌, Bool-cases, inl, inr}
use hyparm.Cpu.State.{GuestContext, mode_of, usr_mode}
use hyparm.Cpu.Modes.{is_guest_in_priv_mode}
use hyparm.Mmu.Protection.{Tables, Mmu, mmu_set_ttbr0}
use hyparm.Handle.System.{System, switched_mmu, change_guest}

-- The hardware walks the guest's privileged shadow table from now on; it did so already if the guest
-- was in a privileged mode.
abbrev pub exception_mmu : Tables → GuestContext → Mmu → Mmu
exception_mmu tables c mmu =
    if mode_of c.cpsr == usr_mode
    then record { ttbr0 = c.shadow_priv; asid = bit_or 0x100 tables.context_id }
    else mmu

switched_mmu-exception :
    (tables : Tables) (c d : GuestContext) (mmu : Mmu)
    → (mode_of d.cpsr == usr_mode) ≡ false
    → d.shadow_active ≡ (if mode_of c.cpsr == usr_mode then c.shadow_priv else c.shadow_active)
    → switched_mmu tables c d mmu ≡ exception_mmu tables c mmu
unfolding switched_mmu is_guest_in_priv_mode mmu_set_ttbr0
switched_mmu-exception tables c d mmu privileged shadow =
    elim (Bool-cases (mode_of c.cpsr == usr_mode)) [
      | inl e ↦ rw (e, privileged, (rw e at shadow)) refl
      | inr e ↦ rw (e, privileged) refl
    ]

pub change_guest-exception :
    (s : System) (d : GuestContext)
    → (mode_of d.cpsr == usr_mode) ≡ false
    → d.shadow_active
      ≡ (if mode_of s.guest.cpsr == usr_mode then s.guest.shadow_priv else s.guest.shadow_active)
    → change_guest s d ≡ record s { guest = d; mmu = exception_mmu s.tables s.guest s.mmu }
unfolding change_guest
change_guest-exception s d privileged shadow =
    ap (λ (m : Mmu). record s { guest = d; mmu = m })
      (switched_mmu-exception s.tables s.guest d s.mmu privileged shadow)

-- Between privileged modes the MMU stays as it is.
pub change_guest-privileged :
    (s : System) (d : GuestContext)
    → (mode_of s.guest.cpsr == usr_mode) ≡ false
    → (mode_of d.cpsr == usr_mode) ≡ false
    → change_guest s d ≡ record s { guest = d }
unfolding change_guest switched_mmu is_guest_in_priv_mode
change_guest-privileged s d before after = rw (before, after) refl
