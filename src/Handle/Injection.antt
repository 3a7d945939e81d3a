-- ===== src/Handle/Injection.antt =====
-- A fault of the host that is the guest's own becomes the guest's abort: the check of Mmu, the fault
-- registers of Cpu and the entry of its handler, one after the other.
use hyparm.Common.{
  ℕ, ◌^◌, ◌<◌, ◌≡◌, refl, ◌∙◌, Bool, true, false, ◌==◌, ap, arith, some, Outcome, ok,
}
use hyparm.Memory.{Memory, update}
use hyparm.Cpu.State.{GuestContext, cp15_sctrl, mode_of, usr_mode}
use hyparm.Cpu.Modes.{is_guest_in_priv_mode}
use hyparm.Cpu.Exceptions.{throw_data_abort, jump}
use hyparm.Mmu.Protection.{Mmu, cp15_dacr, restored, should_data_abort}
use hyparm.Mmu.Rights.{Fault, status, walk, decide}
use hyparm.Mmu.Faults.{should_data_abort_lem}
use hyparm.Mmu.Space.{Space}
use hyparm.Scan.Scanner.{Decoder}
use hyparm.Handle.System.{System, change_guest, scanner_view, scan_guest}
use hyparm.Handle.HostPc.{hostpc_to_guestpc}
use hyparm.Handle.Addressing.{exception_mmu, change_guest-exception, change_guest-privileged}
use hyparm.Cpu.Exceptions.{deliver_data_abort}
use hyparm.Handle.Aborts.{abort_data, find_guest_pc, dabt_permission_fault, dabt_translation_fault}
use hyparm.Handle.Taking.{TakesDataAbort, decide-domain, deliver_thrown}

module _ (pool_end : ℕ) (decoder : Decoder) (code_memory : Memory ℕ)
    (write_protect : Space → (start_address end_address : ℕ) → Outcome Space)
    (table_mapped : GuestContext → Bool) (maps : (d : GuestContext) → table_mapped d ≡ true)
    (thumb2 : Bool) (memory : Memory ℕ) (shadow_map : System → ℕ → Bool × System)
    (emulate : System → ℕ → Outcome System) where
  -- The guest's program counter is found behind the abort that was thrown.
  find_guest_pc-thrown :
      (s : System) (m : Mmu) (address fault_status : ℕ) (is_write : Bool) (domain pc : ℕ)
      → is_guest_in_priv_mode s.guest ≡ true
      → hostpc_to_guestpc pool_end decoder code_memory (scanner_view s)
        ≡ ok (s.scanning.translation_store, pc)
      → let thrown =
          λ (c : GuestContext). throw_data_abort c address fault_status is_write domain in
        find_guest_pc pool_end decoder code_memory write_protect
          (record s { guest = thrown s.guest; mmu = m })
        ≡ ok (record s { guest = thrown (jump s.guest pc); mmu = m })
  unfolding find_guest_pc throw_data_abort jump is_guest_in_priv_mode
  find_guest_pc-thrown s m address fault_status is_write domain pc privileged found =
      rw (privileged, found) refl

  abort_data-taken :
      (t u : System) (d : GuestContext)
      → deliver_data_abort table_mapped thumb2 t.guest ≡ ok d
      → change_guest t d ≡ u
      → abort_data pool_end decoder code_memory write_protect table_mapped thumb2 t
        ≡ scan_guest pool_end decoder code_memory write_protect u
  unfolding abort_data
  abort_data-taken t u d returns changed =
      rw returns (ap (scan_guest pool_end decoder code_memory write_protect) changed)

  dabt_permission_fault-aborts :
      (s : System) (is_write : Bool) (address : ℕ) (c : GuestContext) (m : Mmu)
      → s.virt_addr_enabled ≡ true
      → should_data_abort memory s.tables s.mmu s.guest
          (is_guest_in_priv_mode s.guest)
          is_write
          address
        ≡ ok (true, c, m)
      → dabt_permission_fault pool_end decoder code_memory write_protect table_mapped thumb2 memory
          shadow_map emulate s is_write address
        ≡ abort_data pool_end decoder code_memory write_protect table_mapped thumb2
            (record s { guest = c; mmu = m })
  unfolding dabt_permission_fault
  dabt_permission_fault-aborts s is_write address c m enabled aborts = rw (enabled, aborts) refl

  -- `dabtPermissionFault` of an access that the architecture's check of the guest's own tables
  -- refuses, with virtual addressing enabled, 32-bit words and addresses, and the guest's page table
  -- mapped: the guest takes a data abort with the fault status of the architecture, and the scanner
  -- is called in the state that this leaves, without an emulation of the access. The MMU walks the
  -- privileged shadow table if the guest was in user mode, and else the table of before. R14_ABT is
  -- R15 and 8, in the privileged modes too, where R15 is a place in translated code.
  pub dabt_permission_fault_lem :
      (s : System) (is_write : Bool) (address : ℕ) {f : Fault} {is_section : Bool} {domain : ℕ}
      → s.virt_addr_enabled ≡ true
      → ((a : ℕ) → memory a < 2 ^ 32)
      → s.tables.guest_physical < 2 ^ 32
      → address < 2 ^ 32
      → decide
          (s.guest.coproc_reg_bank cp15_sctrl)
          (s.guest.coproc_reg_bank cp15_dacr)
          (is_guest_in_priv_mode s.guest)
          is_write
          (walk memory s.tables.guest_physical address)
        ≡ ok (some (f, is_section, domain))
      → (d : GuestContext) × TakesDataAbort s.guest d
          (s.guest.registers 15)
          (status f is_section)
          is_write
          domain
          address
        × (dabt_permission_fault pool_end decoder code_memory write_protect table_mapped thumb2
              memory shadow_map emulate s is_write address
            ≡ scan_guest pool_end decoder code_memory write_protect (record s {
              guest = d;
              mmu = exception_mmu s.tables s.guest (restored s.tables s.mmu);
            }))
  unfolding throw_data_abort
  dabt_permission_fault_lem s is_write address {f} {is_section} {domain} enabled words base small
        refused =
      let privileged = is_guest_in_priv_mode s.guest in
      let check =
        should_data_abort_lem memory s.tables s.mmu s.guest privileged is_write address words base
          small in
      let bound =
        decide-domain (s.guest.coproc_reg_bank cp15_sctrl) (s.guest.coproc_reg_bank cp15_dacr)
          privileged is_write memory s.tables.guest_physical address refused in
      let (d, returns, taken) =
        deliver_thrown table_mapped maps thumb2 s.guest address (status f is_section) is_write
          domain bound in
      let thrown : System = record s {
        guest = throw_data_abort s.guest address (status f is_section) is_write domain;
        mmu = restored s.tables s.mmu;
      } in
      let entered : (mode_of d.cpsr == usr_mode) ≡ false = rw taken.in_mode refl in
      let changed = change_guest-exception thrown d entered taken.shadow in
      (
        d,
        taken,
        dabt_permission_fault-aborts s is_write address thrown.guest thrown.mmu enabled
              (rw refused at check)
            ∙ abort_data-taken thrown _ d returns changed,
      )

  not_user :
      (c : GuestContext) → is_guest_in_priv_mode c ≡ true → (mode_of c.cpsr == usr_mode) ≡ false
  unfolding is_guest_in_priv_mode
  not_user c h = ground arith

  -- `dabtTranslationFault` where `shadowMap` fails, for a guest in a privileged mode and an access
  -- that the architecture's check refuses, with 32-bit words and addresses, and the guest's page
  -- table mapped, where `hostpcToGuestpc` finds a program counter and leaves the translation store
  -- as it is. The guest takes a data abort, with the fault status of the architecture, at that
  -- program counter, and the scanner is called in the state that this leaves.
  pub dabt_translation_fault_lem :
      (s tried : System) (is_write : Bool) (address pc : ℕ) {f : Fault} {is_section : Bool}
      {domain : ℕ}
      → shadow_map s address ≡ (false, tried)
      → is_guest_in_priv_mode tried.guest ≡ true
      → hostpc_to_guestpc pool_end decoder code_memory (scanner_view tried)
        ≡ ok (tried.scanning.translation_store, pc)
      → ((a : ℕ) → memory a < 2 ^ 32)
      → tried.tables.guest_physical < 2 ^ 32
      → address < 2 ^ 32
      → decide
          (tried.guest.coproc_reg_bank cp15_sctrl)
          (tried.guest.coproc_reg_bank cp15_dacr)
          true
          is_write
          (walk memory tried.tables.guest_physical address)
        ≡ ok (some (f, is_section, domain))
      → (d : GuestContext) × TakesDataAbort
          (jump tried.guest pc)
          d
          pc
          (status f is_section)
          is_write
          domain
          address
        × (dabt_translation_fault pool_end decoder code_memory write_protect table_mapped thumb2
              memory shadow_map emulate s is_write address
            ≡ scan_guest pool_end decoder code_memory write_protect
                (record tried { guest = d; mmu = restored tried.tables tried.mmu }))
  unfolding dabt_translation_fault update throw_data_abort jump
  dabt_translation_fault_lem s tried is_write address pc {f} {is_section} {domain} failed privileged
        found words base small refused =
      let check =
        should_data_abort_lem memory tried.tables tried.mmu tried.guest true is_write address words
          base small in
      let bound =
        decide-domain (tried.guest.coproc_reg_bank cp15_sctrl)
          (tried.guest.coproc_reg_bank cp15_dacr) true is_write memory tried.tables.guest_physical
          address refused in
      let (d, returns, taken) =
        deliver_thrown table_mapped maps thumb2 (jump tried.guest pc) address (status f is_section)
          is_write domain bound in
      let moved =
        find_guest_pc-thrown tried (restored tried.tables tried.mmu) address (status f is_section)
          is_write domain pc privileged found in
      let left : System = record tried {
        guest =
            throw_data_abort (jump tried.guest pc) address (status f is_section) is_write domain;
        mmu = restored tried.tables tried.mmu;
      } in
      let before : (mode_of tried.guest.cpsr == usr_mode) ≡ false =
        not_user tried.guest privileged in
      let entered : (mode_of d.cpsr == usr_mode) ≡ false = rw taken.in_mode refl in
      let changed = change_guest-privileged left d before entered in
      (
        d,
        taken,
        rw (failed, privileged, check, refused, moved) (abort_data-taken left _ d returns changed),
      )
