-- ===== src/Scan/Rescan.antt =====
-- `rescanBlock` finds the guest's instruction of a place in the code of a block, and leaves the
-- store as it was.
use hyparm.Common.{
  ℕ, zero, suc, ◌+◌, ◌*◌, ◌%◌, ◌^◌, ◌≤◌, ◌<◌, ◌≡◌, refl, arith, true, false, leb, ltb,
}
use hyparm.Common.{ok}
use hyparm.Memory.{Memory}
use hyparm.Blocks.Translations.{TranslationStore, append_instruction, add_instruction_to_block}
use hyparm.Scan.Scanner.{Decoder, irc_safe, translate_as, rescan_instructions, rescan_block}

abbrev at_free : TranslationStore → ℕ → TranslationStore
at_free ts free = record ts { code_store_free_ptr = free }

-- With writes off and room left, only the free pointer moves.
add_off :
    (pool_end : ℕ) (ts : TranslationStore) (index instruction : ℕ)
    → ts.write ≡ false
    → ts.code_store_free_ptr + 4 < pool_end
    → add_instruction_to_block pool_end ts index instruction
      ≡ at_free ts (ts.code_store_free_ptr + 4)
unfolding add_instruction_to_block append_instruction
add_off pool_end ts index instruction off room =
    let inside : leb pool_end (ts.code_store_free_ptr + 4) ≡ false = ground arith in
    simp (inside, off) refl

module _ (pool_end : ℕ) (decoder : Decoder) (guest : Memory ℕ) where
  rescan_instructions_lem :
      (k fuel : ℕ) (ts : TranslationStore) (index instruction_ptr host_pc : ℕ)
      → k < fuel
      → instruction_ptr + 4 * k < 2 ^ 32
      → ((i : ℕ) → i ≤ k → decoder.decode (guest (instruction_ptr + 4 * i)) ≡ irc_safe)
      → ts.write ≡ false
      → ts.code_store_free_ptr + 4 * k + 4 < pool_end
      → ts.code_store_free_ptr + 4 * k ≤ host_pc
      → host_pc < ts.code_store_free_ptr + 4 * k + 4
      → rescan_instructions pool_end decoder guest fuel ts index instruction_ptr host_pc
        ≡ ok (at_free ts (ts.code_store_free_ptr + 4 * k + 4), instruction_ptr + 4 * k)
  unfolding rescan_instructions translate_as
  rescan_instructions_lem k zero ts index instruction_ptr host_pc enough small safe off room lo hi =
      absurd (omega arith)
  rescan_instructions_lem zero (suc fuel) ts index instruction_ptr host_pc enough small safe off
        room lo hi =
      let own : instruction_ptr + 4 * 0 ≡ instruction_ptr = omega arith in
      let here = rw own at (safe 0 (omega arith)) in
      let past : ltb host_pc (ts.code_store_free_ptr + 4) ≡ true = ground arith in
      let flat : ts.code_store_free_ptr + 4 * 0 + 4 ≡ ts.code_store_free_ptr + 4 = omega arith in
      rw
        (here, own, flat, add_off pool_end ts index (guest instruction_ptr) off (omega arith), past)
  rescan_instructions_lem (suc k) (suc fuel) ts index instruction_ptr host_pc enough small safe off
        room lo hi =
      let own : instruction_ptr + 4 * 0 ≡ instruction_ptr = omega arith in
      let here = rw own at (safe 0 (omega arith)) in
      let moved = at_free ts (ts.code_store_free_ptr + 4) in
      let short : ltb host_pc (ts.code_store_free_ptr + 4) ≡ false = ground arith in
      let step : (instruction_ptr + 4) % 2 ^ 32 ≡ instruction_ptr + 4 = omega arith in
      let rest =
        rescan_instructions_lem k fuel moved index (instruction_ptr + 4) host_pc (omega arith)
          (omega arith)
          (λ i lt.
            let e : instruction_ptr + 4 + 4 * i ≡ instruction_ptr + 4 * suc i = omega arith in
            rw e (safe (suc i) (omega arith)))
          off (omega arith) (omega arith) (omega arith) in
      let end : instruction_ptr + 4 + 4 * k ≡ instruction_ptr + 4 * suc k = omega arith in
      let free : ts.code_store_free_ptr + 4 + 4 * k + 4 ≡ ts.code_store_free_ptr + 4 * suc k + 4 =
        omega arith in
      rw (here, add_off pool_end ts index (guest instruction_ptr) off (omega arith), short, step)
        (rw (free, end) at rest)

  -- `rescanBlock` of a place in the code of a block, where the block's instructions up to there are
  -- copied unchanged and do not wrap round the addresses or reach the end of the code cache, gives
  -- the guest's instruction at that place. The translation store is then as it was, with writing on.
  pub rescan_block_lem :
      (ts : TranslationStore) (index host_pc k : ℕ)
      → let block = ts.basic_block_store index in
        k < 2 ^ 30
        → block.guest_start + 4 * k < 2 ^ 32
        → ((i : ℕ) → i ≤ k → decoder.decode (guest (block.guest_start + 4 * i)) ≡ irc_safe)
        → ts.write ≡ true
        → block.code_store_start + 4 * k + 4 < pool_end
        → block.code_store_start + 4 * k ≤ host_pc
        → host_pc < block.code_store_start + 4 * k + 4
        → rescan_block pool_end decoder guest ts index host_pc ≡ ok (ts, block.guest_start + 4 * k)
  unfolding rescan_block
  rescan_block_lem ts index host_pc k enough small safe writing room lo hi =
      let block = ts.basic_block_store index in
      let dry : TranslationStore = record ts {
        code_store_free_ptr = block.code_store_start;
        write = false;
      } in
      let found =
        rescan_instructions_lem k 0x4000_0000 dry index block.guest_start host_pc (omega arith)
          small safe refl room lo hi in
      rw found (rw (← writing) refl)
