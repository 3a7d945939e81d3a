-- ===== src/Instr/Emulation.antt =====
-- A store that the memory protection stops, from the exception to the next instruction.
use hyparm.Common.{
  ℕ, ◌+◌, ◌/◌, ◌%◌, ◌^◌, ◌≡◌, refl, ◌∙◌, arith, Bool, true, false, Returns, Outcome, ok,
}
use hyparm.Memory.{Memory, update}
use hyparm.Cpu.State.{GuestContext, mode_of}
use hyparm.Cpu.Registers.{condition_passed}
use hyparm.Cpu.Banking.{has_bank}
use hyparm.Cpu.Exceptions.{jump}
use hyparm.Mmu.Space.{Space}
use hyparm.Scan.Scanner.{Decoder}
use hyparm.Handle.System.{System, with_guest}
use hyparm.Handle.Aborts.{dabt_permission_fault, emulate_access}
use hyparm.Instr.Encoding.{cc, flag, rn, rt, imm12, writes_back}
use hyparm.Instr.Machine.{Bus, access_address, when_passed, write_back}
use hyparm.Instr.Transfers.{store_part}
use hyparm.Instr.Stores.{arm_str_imm_instruction}
use hyparm.Instr.Multiple.{clear_at}
use hyparm.Instr.Emulate.{decode_access, str_imm, run_access, emulate_load_store_generic}
use hyparm.Instr.SingleFields.{single_access, decode_access-single_access}
use hyparm.Instr.Ram.{IsRam, register}
use hyparm.Instr.Saving.{register-ok}

decode_access-str :
    (x : ℕ) → x / 2 ^ 25 % 8 ≡ 2 → flag 22 x ≡ false → flag 20 x ≡ false → decode_access x ≡ str_imm
unfolding single_access
decode_access-str x kind b l =
    let imm : flag 25 x ≡ false = ground (arith, kind) in
    decode_access-single_access x (omega (arith, kind)) (λ e. ground (arith, e, imm))
    ∙ rw (b, l, imm) refl

module _ (bus : Bus) (ram : IsRam bus) where
  open ram use {read, IsWord}

  -- The emulation of `STR Rt, [Rn, #imm]`.
  emulated_store :
      (code_memory : Memory ℕ) (s : System) (dfar : ℕ)
      → let instr = code_memory (s.guest.registers 15) in
        instr / 2 ^ 25 % 8 ≡ 2
        → flag 22 instr ≡ false
        → flag 20 instr ≡ false
        → writes_back instr ≡ false
        → condition_passed s.guest (cc instr) ≡ true
        → has_bank (mode_of s.guest.cpsr) ≡ true
        → let base = register s.guest (rn instr) in
          IsWord s (access_address instr base (imm12 instr))
          → Returns (emulate_load_store_generic bus code_memory s dfar) λ t.
            (t.guest ≡ s.guest)
            × ((b : ℕ)
                → IsWord s b
                → read t b
                  ≡ update
                      (read s)
                      (access_address instr base (imm12 instr))
                      (register s.guest (rt instr))
                      b)
  unfolding emulate_load_store_generic run_access arm_str_imm_instruction when_passed store_part
      write_back
  emulated_store code_memory s dfar kind b l no_back passes banked word =
      let instr = code_memory (s.guest.registers 15) in
      let base = register s.guest (rn instr) in
      let reads = register-ok s.guest (rn instr) banked (omega arith) in
      let reads2 = register-ok s.guest (rt instr) banked (omega arith) in
      let at = access_address instr base (imm12 instr) in
      let (memory, kept) = ram.of_store s dfar in
      let (t, stores, (same, holds)) =
        ram.stores (clear_at s dfar) at (register s.guest (rt instr)) (kept at word) in
      rw (decode_access-str instr kind b l, passes, reads, reads2, stores, no_back)
        (t, refl, (same, λ a w. rw memory at (holds a (kept a w)).0))

module _ (pool_end : ℕ) (decoder : Decoder) (code_memory memory : Memory ℕ)
    (write_protect : Space → (start_address end_address : ℕ) → Outcome Space)
    (table_mapped : GuestContext → Bool) (shadow_map : System → ℕ → Bool × System)
    (emulate : System → ℕ → Outcome System) where
  -- An emulated access without an abort.
  emulate_access-ok :
      (s t : System) (dfar : ℕ)
      → emulate s dfar ≡ ok t
      → t.guest.guest_data_abt_pending ≡ false
      → emulate_access pool_end decoder code_memory write_protect table_mapped false emulate s dfar
        ≡ ok (with_guest t (jump t.guest ((t.guest.registers 15 + 4) % 2 ^ 32)))
  unfolding emulate_access
  emulate_access-ok s t dfar returns pending = rw returns (simp pending refl)

  permission_off :
      (s : System) (wnr : Bool) (dfar : ℕ)
      → s.virt_addr_enabled ≡ false
      → dabt_permission_fault pool_end decoder code_memory write_protect table_mapped false memory
          shadow_map emulate s wnr dfar
        ≡ emulate_access pool_end decoder code_memory write_protect table_mapped false emulate s
            dfar
  unfolding dabt_permission_fault
  permission_off s wnr dfar off = simp off refl

-- `dabtPermissionFault` while the guest has not enabled virtual addressing, with R15 at `STR Rt,
-- [Rn, #imm]` without write-back, with a condition that passes, a mode with a bank, and no pending
-- data abort, emulates the store to a word of RAM: the word is in memory and no other word of RAM
-- changes, and the guest goes on at the next instruction, else as it was.
pub dabt_permission_fault-store :
    (bus : Bus) (ram : IsRam bus) (pool_end : ℕ) (decoder : Decoder) (code_memory memory : Memory ℕ)
    (write_protect : Space → (start_address end_address : ℕ) → Outcome Space)
    (table_mapped : GuestContext → Bool) (shadow_map : System → ℕ → Bool × System) (s : System)
    (dfar : ℕ)
    → let instr = code_memory (s.guest.registers 15) in
      s.virt_addr_enabled ≡ false
      → instr / 2 ^ 25 % 8 ≡ 2
      → flag 22 instr ≡ false
      → flag 20 instr ≡ false
      → writes_back instr ≡ false
      → condition_passed s.guest (cc instr) ≡ true
      → has_bank (mode_of s.guest.cpsr) ≡ true
      → s.guest.guest_data_abt_pending ≡ false
      → let base = register s.guest (rn instr) in
        ram.IsWord s (access_address instr base (imm12 instr))
        → Returns
            (dabt_permission_fault pool_end decoder code_memory write_protect table_mapped false
              memory shadow_map
              (emulate_load_store_generic bus code_memory)
              s
              true
              dfar)
            λ t.
              (t.guest ≡ jump s.guest ((s.guest.registers 15 + 4) % 2 ^ 32))
              × ((b : ℕ)
                  → ram.IsWord s b
                  → ram.read t b
                    ≡ update
                        (ram.read s)
                        (access_address instr base (imm12 instr))
                        (register s.guest (rt instr))
                        b)
dabt_permission_fault-store bus ram pool_end decoder code_memory memory write_protect table_mapped
      shadow_map s dfar off kind b l no_back passes banked none_pending word =
    let (t, stores, (same, holds)) =
      emulated_store bus ram code_memory s dfar kind b l no_back passes banked word in
    let next = jump t.guest ((t.guest.registers 15 + 4) % 2 ^ 32) in
    let emulate = emulate_load_store_generic bus code_memory in
    (
      with_guest t next,
      permission_off pool_end decoder code_memory memory write_protect table_mapped shadow_map
            emulate s true dfar off
          ∙ emulate_access-ok pool_end decoder code_memory memory write_protect table_mapped
              shadow_map emulate s t dfar stores (rw same none_pending),
      (rw same refl, λ a w. rw (ram.of_guest t next).0 (holds a w)),
    )
