-- ===== src/Scan/BlockEnds.antt =====
-- How the code of a scanned block ends: what `unlinkBlock` and the handler of hypercalls rely on.
use hyparm.Common.{
  ℕ, zero, suc, ◌+◌, ◌-◌, ◌*◌, ◌/◌, ◌%◌, ◌^◌, ◌≤◌, ◌<◌, ◌≡◌, refl, arith, bit_and, true, false,
  Bool-cases, ◌⊎◌, inl, inr,
}
use hyparm.Common.{Outcome, ok, Returns}
use hyparm.Memory.{Memory, update_self}
use hyparm.Blocks.Translations.{TranslationStore}
use hyparm.Blocks.Appending.{IsBuilding, add_instruction_to_block-IsBuilding}
use hyparm.Mmu.Space.{Space}
use hyparm.Scan.Translator.{is_branch, branch_links, is_conditional}
use hyparm.Scan.Scanner.{
  TranslateCode, irc_safe, irc_replace, irc_remove, irc_patch_pc, Decoder, ScanContext,
  translate_as, is_replaced, scan_instructions, hypercall_word, close_block, open_block, end_block,
  scan_arm_block, next_instruction,
}
use hyparm.Scan.Closing.{
  Adds, size_of_block, EndsWith, arm_write_pc_to_register-IsBuilding, one_call-EndsWith,
  two_calls-EndsWith,
}

module _ (pool_end : ℕ) (decoder : Decoder) (guest : Memory ℕ) (adds : Adds decoder) where
  close_block-EndsWith :
      (ts : TranslationStore) (index instruction_ptr : ℕ)
      → index < 0x1_0000
      → IsBuilding ts index
      → EndsWith
          (close_block pool_end decoder guest ts index instruction_ptr)
          index
          (hypercall_word index)
  unfolding close_block
  close_block-EndsWith ts index instruction_ptr small t =
      let instruction = guest instruction_ptr in
      let cc = bit_and instruction 0xf000_0000 in
      let linked =
        arm_write_pc_to_register-IsBuilding pool_end ts index (cc / 2 ^ 28) 14
          ((instruction_ptr + 2 ^ 32 - 4) % 2 ^ 32) t in
      elim (Bool-cases (is_branch instruction)) [
        | inr e ↦ rw e (one_call-EndsWith pool_end ts index t)
        | inl e ↦ elim (Bool-cases (branch_links instruction)) [
          | inl l ↦ elim (Bool-cases (is_conditional instruction)) [
            | inl c ↦ rw (e, l, c) (two_calls-EndsWith pool_end _ index cc small linked)
            | inr c ↦ rw (e, l, c) (one_call-EndsWith pool_end _ index linked)
          ]
          | inr l ↦ elim (Bool-cases (is_conditional instruction)) [
            | inl c ↦ rw (e, l, c) (two_calls-EndsWith pool_end ts index cc small t)
            | inr c ↦ rw (e, l, c) (one_call-EndsWith pool_end ts index t)
          ]
        ]
      ]

  translate_as-IsBuilding :
      (code : TranslateCode) (ts : TranslationStore) (index instruction_ptr : ℕ)
      → IsBuilding ts index
      → IsBuilding (translate_as pool_end decoder guest code ts index instruction_ptr) index
  unfolding translate_as
  translate_as-IsBuilding irc_safe ts index instruction_ptr t =
      add_instruction_to_block-IsBuilding pool_end ts index (guest instruction_ptr) t
  translate_as-IsBuilding irc_patch_pc ts index instruction_ptr t =
      adds ts index instruction_ptr (guest instruction_ptr) t
  translate_as-IsBuilding irc_replace ts index instruction_ptr t = t
  translate_as-IsBuilding irc_remove ts index instruction_ptr t = t

  -- The scan ends at an instruction that is replaced, if there is one within the fuel, and no later
  -- than there.
  scan_instructions_lem :
      (n fuel : ℕ) (ts : TranslationStore) (index instruction_ptr : ℕ)
      → n < fuel
      → instruction_ptr + 4 * n < 2 ^ 32
      → IsBuilding ts index
      → decoder.decode (guest (instruction_ptr + 4 * n)) ≡ irc_replace
      → Returns (scan_instructions pool_end decoder guest fuel ts index instruction_ptr) λ scanned.
        IsBuilding scanned.0 index
        × (decoder.decode (guest scanned.1) ≡ irc_replace)
        × (instruction_ptr ≤ scanned.1)
        × (scanned.1 ≤ instruction_ptr + 4 * n)
  unfolding scan_instructions
  scan_instructions_lem n zero ts index instruction_ptr enough small t h = absurd (omega arith)
  scan_instructions_lem zero (suc fuel) ts index instruction_ptr enough small t h =
      let own : instruction_ptr + 4 * 0 ≡ instruction_ptr = omega arith in
      let here = rw own at h in
      rw here ((ts, instruction_ptr), refl, (t, here, omega arith, omega arith))
  scan_instructions_lem (suc n) (suc fuel) ts index instruction_ptr enough small t h =
      let code = decoder.decode (guest instruction_ptr) in
      elim (replaced_or_not code) [
        | inl e ↦ rw e ((ts, instruction_ptr), refl, (t, e, omega arith, omega arith))
        | inr e ↦
            (let next : next_instruction instruction_ptr ≡ instruction_ptr + 4 = omega arith in
              let later : instruction_ptr + 4 + 4 * n ≡ instruction_ptr + 4 * suc n = omega arith in
              let (scanned, returns, (built, replaced, from, to)) =
                scan_instructions_lem n fuel
                  (translate_as pool_end decoder guest code ts index instruction_ptr) index
                  (instruction_ptr + 4) (omega arith) (omega arith)
                  (translate_as-IsBuilding code ts index instruction_ptr t) (rw later h) in
              rw (e, next)
                (scanned, returns, (built, replaced, omega (arith, from), omega (arith, to))))
      ]
    where
      replaced_or_not : (code : TranslateCode) → (code ≡ irc_replace) ⊎ (is_replaced code ≡ false)
      replaced_or_not irc_safe = inr refl
      replaced_or_not irc_replace = inl refl
      replaced_or_not irc_remove = inr refl
      replaced_or_not irc_patch_pc = inr refl

  open_block-IsBuilding :
      (ts : TranslationStore) (guest_start index : ℕ)
      → ts.write ≡ true
      → ts.code_store ≤ ts.code_store_free_ptr
      → IsBuilding (open_block ts guest_start index) index
  unfolding open_block
  open_block-IsBuilding ts guest_start index writing pool = record {
    writes = writing;
    above = rw (update_self ts.basic_block_store index) pool;
    contiguous = rw (update_self ts.basic_block_store index) (omega arith);
  }

  end_block-EndsWith :
      (ts : TranslationStore) (index instruction_ptr call : ℕ)
      → EndsWith ts index call
      → EndsWith (end_block pool_end decoder guest ts index instruction_ptr) index call
  unfolding end_block
  end_block-EndsWith ts index instruction_ptr call (n, size, word, last) =
      rw (size_of_block, update_self ts.basic_block_store index) (n, size, word, last)

  module _ (write_protect : Space → (start_address end_address : ℕ) → Outcome Space) where
    -- `scanArmBlock` returns, if an instruction that is replaced stands `n` instructions behind the
    -- start of the block, below the end of the address space, and the write protection returns for
    -- each range that starts at the block and ends no later than that instruction. The code of the block then ends with the
    -- hypercall that carries its index and with the index itself, whatever instruction ends the
    -- block, also where the code store wraps round, and the guest goes on at the start of that code.
    -- Writing is on, the free space begins in the code store, and the functions that rewrite
    -- instructions add to the block only (`Adds`).
    pub scan_arm_block_lem :
        (context : ScanContext) (guest_start index n : ℕ)
        → context.translation_store.write ≡ true
        → context.translation_store.code_store ≤ context.translation_store.code_store_free_ptr
        → index < 0x1_0000
        → guest_start + 4 * n < 2 ^ 32
        → decoder.decode (guest (guest_start + 4 * n)) ≡ irc_replace
        → ((end_address : ℕ)
            → guest_start ≤ end_address
            → end_address ≤ guest_start + 4 * n
            → (s : Space) × (write_protect context.space guest_start end_address ≡ ok s))
        → Returns
            (scan_arm_block pool_end decoder guest write_protect context guest_start index)
            λ after.
              EndsWith after.translation_store index (hypercall_word index)
              × (after.r15 ≡ (after.translation_store.basic_block_store index).code_store_start)
    unfolding scan_arm_block
    scan_arm_block_lem context guest_start index n writing pool small room h protects =
        let opened = open_block context.translation_store guest_start index in
        let building =
          open_block-IsBuilding context.translation_store guest_start index writing pool in
        let ((scanned, last), returns, (built, replaced, from, to)) =
          scan_instructions_lem n 0x4000_0000 opened index guest_start (omega arith) room building
            h in
        let closed = close_block pool_end decoder guest scanned index last in
        let ends =
          end_block-EndsWith closed index last (hypercall_word index)
            (close_block-EndsWith scanned index last small built) in
        let (space, protected) = protects last from to in
        rw (returns, protected) (_, refl, (ends, refl))
