-- ===== src/Handle/Aborts.antt =====
-- The data and prefetch aborts that the host takes (`dataAbort`, `dataAbortPrivileged`,
-- `prefetchAbort`, `dabtPermissionFault`, `dabtTranslationFault`, `iabtTranslationFault`,
-- src/exceptions/exceptionHandlers.c). A fault status is DFSR's or IFSR's five bits.
use hyparm.Common.{
  ℕ, ◌+◌, ◌%◌, ◌^◌, Bool, ◌==◌, ◌&&◌, ◌||◌, if◌then◌else◌, Outcome, ok, die, ◌>>=◌, not_implemented,
  panic,
}
use hyparm.Memory.{Memory}
use hyparm.Cpu.State.{GuestContext, bit_field, t_bit}
use hyparm.Cpu.Modes.{is_guest_in_priv_mode}
use hyparm.Cpu.Exceptions.{jump, deliver_data_abort, deliver_prefetch_abort}
use hyparm.Mmu.Protection.{should_data_abort, should_prefetch_abort}
use hyparm.Mmu.Space.{Space}
use hyparm.Scan.Scanner.{Decoder}
use hyparm.Handle.System.{System, with_guest, change_guest, scanner_view, scan_guest}
use hyparm.Handle.HostPc.{hostpc_to_guestpc}

module _ (pool_end : ℕ) (decoder : Decoder) (code_memory : Memory ℕ)
    (write_protect : Space → (start_address end_address : ℕ) → Outcome Space) where
  -- `context->R15 = hostpcToGuestpc(context)`, of a guest in a privileged mode.
  unfoldable pub find_guest_pc : System → Outcome System
  unfolding jump is_guest_in_priv_mode
  find_guest_pc s =
      let mapped = (do
        (store, pc) ← hostpc_to_guestpc pool_end decoder code_memory (scanner_view s)
        ok (record s {
          scanning = record s.scanning { translation_store = store };
          guest = jump s.guest pc;
        })) in
      if is_guest_in_priv_mode s.guest then mapped else ok s

  module _ (table_mapped : GuestContext → Bool) (thumb2 : Bool) where
    -- `deliverDataAbort`, and the scan at the handler.
    unfoldable pub abort_data : System → Outcome System
    unfolding deliver_data_abort scan_guest change_guest
    abort_data s = do
      delivered ← deliver_data_abort table_mapped thumb2 s.guest
      scan_guest pool_end decoder code_memory write_protect (change_guest s delivered)

    unfoldable pub abort_prefetch : System → Outcome System
    unfolding deliver_prefetch_abort scan_guest change_guest
    abort_prefetch s = do
      delivered ← deliver_prefetch_abort table_mapped thumb2 s.guest
      scan_guest pool_end decoder code_memory write_protect (change_guest s delivered)

    -- `emulateLoadStoreGeneric` and what follows it.
    unfoldable pub emulate_access :
        (emulate : System → ℕ → Outcome System) → System → ℕ → Outcome System
    unfolding abort_data jump
    emulate_access emulate s dfar = do
      done ← emulate s dfar
      let size = if thumb2 && bit_field done.guest.cpsr t_bit == 1 then 2 else 4
      let next = jump done.guest ((done.guest.registers 15 + size) % 2 ^ 32)
      if done.guest.guest_data_abt_pending then abort_data done else ok (with_guest done next)

    -- The parts that are arguments: the physical memory, `shadowMap`, `emulateLoadStoreGeneric`.
    module _ (memory : Memory ℕ) (shadow_map : System → ℕ → Bool × System)
        (emulate : System → ℕ → Outcome System) where
      unfoldable pub dabt_permission_fault : System → (wnr : Bool) (dfar : ℕ) → Outcome System
      unfolding abort_data emulate_access should_data_abort is_guest_in_priv_mode
      dabt_permission_fault s wnr dfar =
          let checking = (do
            (aborts, c, mmu) ←
                should_data_abort memory s.tables s.mmu s.guest (is_guest_in_priv_mode s.guest) wnr
                  dfar
            let told = record s { guest = c; mmu = mmu }
            if aborts then abort_data told else emulate_access emulate told dfar) in
          if s.virt_addr_enabled then checking else emulate_access emulate s dfar

      unfoldable pub dabt_translation_fault : System → (wnr : Bool) (dfar : ℕ) → Outcome System
      unfolding abort_data find_guest_pc should_data_abort is_guest_in_priv_mode
      dabt_translation_fault s wnr dfar =
          let (done, tried) = shadow_map s dfar in
          let checking = (do
            (aborts, c, mmu) ←
                should_data_abort memory tried.tables tried.mmu tried.guest
                  (is_guest_in_priv_mode tried.guest) wnr dfar
            let told = record tried { guest = c; mmu = mmu }
            if aborts then (find_guest_pc told >>= abort_data) else die panic) in
          if done then ok tried else checking

      unfoldable pub iabt_translation_fault : System → (ifar : ℕ) → Outcome System
      unfolding abort_prefetch find_guest_pc should_prefetch_abort is_guest_in_priv_mode
      iabt_translation_fault s ifar =
          let (done, tried) = shadow_map s ifar in
          let checking = (do
            (aborts, c, mmu) ←
                should_prefetch_abort memory tried.tables tried.mmu tried.guest
                  (is_guest_in_priv_mode tried.guest) ifar
            let told = record tried { guest = c; mmu = mmu }
            if aborts then (find_guest_pc told >>= abort_prefetch) else die panic) in
          if done then ok tried else checking

      unfoldable pub data_abort :
          System → (fault_status : ℕ) (wnr : Bool) (dfar : ℕ) → Outcome System
      unfolding dabt_permission_fault dabt_translation_fault
      data_abort s fault_status wnr dfar =
          if fault_status == 0xd || fault_status == 0xf
          then dabt_permission_fault s wnr dfar
          else if fault_status == 5 || fault_status == 7
          then dabt_translation_fault s wnr dfar
          else die not_implemented

      unfoldable pub data_abort_privileged :
          System → (fault_status : ℕ) (wnr : Bool) (dfar : ℕ) → Outcome System
      unfolding dabt_translation_fault
      data_abort_privileged s fault_status wnr dfar =
          if fault_status == 5 || fault_status == 7
          then dabt_translation_fault s wnr dfar
          else die not_implemented

      -- The case of an external abort in the second-level walk, with CONFIG_GUEST_FREERTOS.
      unfoldable pub external_prefetch_abort : System → (ifar : ℕ) → Outcome System
      unfolding abort_prefetch should_prefetch_abort is_guest_in_priv_mode
      external_prefetch_abort s ifar = do
        (aborts, c, mmu) ←
            should_prefetch_abort memory s.tables s.mmu s.guest (is_guest_in_priv_mode s.guest) ifar
        let told = record s { guest = c; mmu = mmu }
        if aborts then abort_prefetch told else ok told

      unfoldable pub prefetch_abort :
          (freertos : Bool) → System → (fault_status ifar : ℕ) → Outcome System
      unfolding iabt_translation_fault external_prefetch_abort
      prefetch_abort freertos s fault_status ifar =
          if fault_status == 5 || fault_status == 7
          then iabt_translation_fault s ifar
          else if freertos && fault_status == 0xe
          then external_prefetch_abort s ifar
          else die not_implemented
