-- ===== src/Handle/HostPc.antt =====
-- The guest's program counter of a place in translated code (`findBlockIndexNumber` and
-- `hostpcToGuestpc`, src/instructionEmu/translator/translator.c).
use hyparm.Common.{
  ℕ, zero, suc, ◌+◌, ◌-◌, ◌*◌, ◌/◌, ◌%◌, ◌^◌, ◌≤◌, ◌<◌, ◌≡◌, refl, arith, Bool, true, false, ◌==◌,
  ◌!=◌, ◌&&◌, if◌then◌else◌, Outcome, ok, die, ◌>>=◌, endless,
}
use hyparm.Memory.{Memory}
use hyparm.Blocks.Translations.{TranslationStore, unlink_block, is_group_arm}
use hyparm.Scan.Translator.{is_branch}
use hyparm.Scan.Scanner.{Decoder, ScanContext, rescan_block, irc_safe}
use hyparm.Scan.Rescan.{rescan_block_lem}

-- `isServiceCall`
unfoldable pub is_service_call : ℕ → Bool
is_service_call instr = instr / 2 ^ 24 % 2 ^ 4 == 0xf && instr / 2 ^ 28 % 2 ^ 4 != 0xf

-- `instr.svc.imm24 - 0x100`
abbrev pub called_index : ℕ → ℕ
called_index instr = (instr % 2 ^ 24 + 2 ^ 32 - 0x100) % 2 ^ 32

-- The block index after a first branch at `pc`.
unfoldable pub index_after_branch : Memory ℕ → ℕ → ℕ
unfolding is_branch is_service_call
index_after_branch words pc =
    let next = words ((pc + 4) % 2 ^ 32) in
    if is_branch next
    then words ((pc + 8) % 2 ^ 32)
    else if is_service_call next
    then called_index next
    else next

unfoldable pub find_block_index_number : (fuel : ℕ) → Memory ℕ → ℕ → Outcome ℕ
unfolding is_branch is_service_call index_after_branch
find_block_index_number zero words pc = die endless
find_block_index_number (suc fuel) words pc =
    let instr = words pc in
    let rest = find_block_index_number fuel words ((pc + 4) % 2 ^ 32) in
    if is_service_call instr
    then ok (called_index instr)
    else if is_branch instr
    then ok (index_after_branch words pc)
    else rest

module _ (pool_end : ℕ) (decoder : Decoder) (code_memory : Memory ℕ) where
  -- The search in the block that is known.
  unfoldable pub map_pc : TranslationStore → (index host_pc : ℕ) → Outcome (TranslationStore × ℕ)
  map_pc ts index host_pc =
      let block = ts.basic_block_store index in
      if host_pc == block.code_store_start
      then ok (ts, block.guest_start)
      else rescan_block pool_end decoder code_memory ts index host_pc

  -- In a group block the place leads to the block itself, which is unlinked. The fuel is the number
  -- of words of 32-bit addresses.
  unfoldable pub map_pc_in_group : TranslationStore → (host_pc : ℕ) → Outcome (TranslationStore × ℕ)
  map_pc_in_group ts host_pc = do
    index ← find_block_index_number 0x4000_0000 ts.words host_pc
    map_pc (unlink_block ts index) index host_pc

  -- The store and the guest's program counter, for the translated code's program counter in R15.
  unfoldable pub hostpc_to_guestpc : ScanContext → Outcome (TranslationStore × ℕ)
  hostpc_to_guestpc context =
      let ts = context.translation_store in
      let entered = context.last_entry_block_index in
      if is_group_arm (ts.basic_block_store entered).block_type
      then map_pc_in_group ts context.r15
      else map_pc ts entered context.r15

  map_pc_lem :
      (ts : TranslationStore) (index host_pc k : ℕ)
      → let block = ts.basic_block_store index in
        k < 2 ^ 30
        → block.guest_start + 4 * k < 2 ^ 32
        → ((i : ℕ) → i ≤ k → decoder.decode (code_memory (block.guest_start + 4 * i)) ≡ irc_safe)
        → ts.write ≡ true
        → block.code_store_start + 4 * k + 4 < pool_end
        → host_pc ≡ block.code_store_start + 4 * k
        → map_pc ts index host_pc ≡ ok (ts, block.guest_start + 4 * k)
  unfolding map_pc
  map_pc_lem ts index host_pc zero enough small safe writing room here =
      let block = ts.basic_block_store index in
      let start : (host_pc == block.code_store_start) ≡ true = ground arith in
      let own : block.guest_start + 4 * 0 ≡ block.guest_start = omega arith in rw (start, own) refl
  map_pc_lem ts index host_pc (suc k) enough small safe writing room here =
      let further : (host_pc == (ts.basic_block_store index).code_store_start) ≡ false =
        ground arith in
      rw further (
        rescan_block_lem pool_end decoder code_memory ts index host_pc (suc k) enough small safe
          writing room (omega arith) (omega arith))

  -- `hostpcToGuestpc` of a place in the code of the block that was entered last, outside of a group,
  -- gives the guest's instruction at that place and leaves the translation store as it was. The
  -- instructions of the block up to there are copied unchanged, and do not wrap round the addresses
  -- or reach the end of the code cache.
  pub hostpc_to_guestpc_lem :
      (context : ScanContext) (k : ℕ)
      → let ts = context.translation_store in
        let block = ts.basic_block_store context.last_entry_block_index in
        is_group_arm block.block_type ≡ false
        → k < 2 ^ 30
        → block.guest_start + 4 * k < 2 ^ 32
        → ((i : ℕ) → i ≤ k → decoder.decode (code_memory (block.guest_start + 4 * i)) ≡ irc_safe)
        → ts.write ≡ true
        → block.code_store_start + 4 * k + 4 < pool_end
        → context.r15 ≡ block.code_store_start + 4 * k
        → hostpc_to_guestpc context ≡ ok (ts, block.guest_start + 4 * k)
  unfolding hostpc_to_guestpc
  hostpc_to_guestpc_lem context k alone enough small safe writing room here =
      let ts = context.translation_store in
      rw (alone) (
        map_pc_lem ts context.last_entry_block_index context.r15 k enough small safe writing room
          here)
