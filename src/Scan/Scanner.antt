-- ===== src/Scan/Scanner.antt =====
-- The scanner (src/instructionEmu/scanner.c): `scanBlock`, `scanArmBlock` and `rescanBlock`, without
-- CONFIG_THUMB2. The decoder is an interface: what it says of an instruction, the address of its
-- handler, and the function that rewrites an instruction that reads the PC. `guest` is the guest's
-- memory by words, and `pool_end` the end of the code cache. Counters and cache maintenance have no
-- counterpart.
use hyparm.Common.{
  ℕ, zero, suc, ◌+◌, ◌-◌, ◌*◌, ◌/◌, ◌%◌, ◌^◌, bit_and, bit_or, Bool, true, false, ltb,
  if◌then◌else◌, Option, none, some,
}
use hyparm.Common.{Outcome, ok, die, ◌>>=◌, endless, unreachable}
use hyparm.Memory.{Memory}
use hyparm.Blocks.Store.{BlockType, BlockInfo, get_block_info}
use hyparm.Blocks.ExecBitmap.{set_exec_bitmap}
use hyparm.Blocks.Translations.{TranslationStore, set_block, add_instruction_to_block, instr_swi}
use hyparm.Mmu.Space.{Space}
use hyparm.Scan.Translator.{
  always_condition, gpr_lr, is_branch, branch_links, is_conditional, arm_write_pc_to_register,
}

-- `TranslateCode`
pub data TranslateCode : Type 0 where
  irc_safe irc_replace irc_remove irc_patch_pc : TranslateCode

pub record Decoder : Type 0 where
  pub decode : ℕ → TranslateCode
  pub handler_of : ℕ → ℕ
  pub pc_handler : TranslationStore → (index pc instruction : ℕ) → TranslationStore

-- The part of the guest context that the scanner changes.
pub record ScanContext : Type 0 where
  pub translation_store : TranslationStore
  pub exec_bitmap : Memory ℕ
  pub space : Space
  pub r15 : ℕ
  pub last_entry_block_index : ℕ

-- `instructionPtr++`
abbrev pub next_instruction : ℕ → ℕ
next_instruction instruction_ptr = (instruction_ptr + 4) % 2 ^ 32

abbrev pub is_replaced : TranslateCode → Bool
is_replaced irc_replace = true
is_replaced _ = false

-- `basicBlock->oneHypercall = ...`
abbrev pub with_one_hypercall : TranslationStore → ℕ → Bool → TranslationStore
with_one_hypercall ts index b =
    set_block ts index (record (ts.basic_block_store index) { one_hypercall = b })

-- `INSTR_SWI | (blockStoreIndex + 0x100)`
abbrev pub hypercall_word : ℕ → ℕ
hypercall_word index = bit_or instr_swi ((index + 0x100) % 2 ^ 32)

-- The entry that a scan begins with.
unfoldable pub open_block : TranslationStore → (guest_start index : ℕ) → TranslationStore
open_block ts guest_start index = set_block ts index (record (ts.basic_block_store index) {
  guest_start = guest_start;
  guest_end = guest_start;
  code_store_start = ts.code_store_free_ptr;
  code_store_size = 0;
  handler = 0;
  block_type = BlockType.arm;
})

module _ (pool_end : ℕ) where
  unfoldable pub one_call : TranslationStore → ℕ → TranslationStore
  unfolding add_instruction_to_block
  one_call ts index =
      with_one_hypercall (add_instruction_to_block pool_end ts index (hypercall_word index)) index
        true

  unfoldable pub two_calls : TranslationStore → (index cc : ℕ) → TranslationStore
  unfolding add_instruction_to_block
  two_calls ts index cc =
      let hypercall = bit_and (hypercall_word index) 0x0fff_ffff in
      let first = add_instruction_to_block pool_end ts index (bit_or hypercall cc) in
      let second =
        add_instruction_to_block pool_end first index
          (bit_or hypercall (always_condition * 2 ^ 28)) in
      with_one_hypercall second index false

module _ (pool_end : ℕ) (decoder : Decoder) (guest : Memory ℕ) where
  -- The body of the `while`.
  unfoldable pub translate_as :
      TranslateCode → TranslationStore → (index instruction_ptr : ℕ) → TranslationStore
  unfolding add_instruction_to_block
  translate_as irc_safe ts index instruction_ptr =
      add_instruction_to_block pool_end ts index (guest instruction_ptr)
  translate_as irc_patch_pc ts index instruction_ptr =
      decoder.pc_handler ts index instruction_ptr (guest instruction_ptr)
  translate_as irc_replace ts index instruction_ptr = ts
  translate_as irc_remove ts index instruction_ptr = ts

  -- The `while` of `scanArmBlock`: the store, and the place of the instruction that ends the block.
  unfoldable pub scan_instructions :
      (fuel : ℕ) → TranslationStore → (index instruction_ptr : ℕ) → Outcome (TranslationStore × ℕ)
  unfolding translate_as
  scan_instructions zero ts index instruction_ptr = die endless
  scan_instructions (suc fuel) ts index instruction_ptr =
      let code = decoder.decode (guest instruction_ptr) in
      let rest =
        scan_instructions fuel (translate_as code ts index instruction_ptr) index
          (next_instruction instruction_ptr) in
      if is_replaced code then ok (ts, instruction_ptr) else rest

  -- From "Next instruction must be translated into hypercall" to the planting of the index.
  unfoldable pub close_block : TranslationStore → (index instruction_ptr : ℕ) → TranslationStore
  unfolding add_instruction_to_block arm_write_pc_to_register one_call two_calls is_branch
      branch_links is_conditional
  close_block ts index instruction_ptr =
      let instruction = guest instruction_ptr in
      let cc = bit_and instruction 0xf000_0000 in
      let return_address = (instruction_ptr + 2 ^ 32 - 4) % 2 ^ 32 in
      let linked = arm_write_pc_to_register pool_end ts index (cc / 2 ^ 28) gpr_lr return_address in
      let returning = if branch_links instruction then linked else ts in
      let called =
        if is_branch instruction
        then (if is_conditional instruction
            then two_calls pool_end returning index cc
            else one_call pool_end returning index)
        else one_call pool_end ts index in
      add_instruction_to_block pool_end called index index

  -- `basicBlock->guestEnd = instructionPtr; basicBlock->handler = ...`
  unfoldable pub end_block : TranslationStore → (index instruction_ptr : ℕ) → TranslationStore
  end_block ts index instruction_ptr = set_block ts index (record (ts.basic_block_store index) {
    guest_end = instruction_ptr;
    handler = decoder.handler_of (guest instruction_ptr);
  })

  -- The `while` of `rescanBlock`, up to the instruction whose translation goes past `host_pc`.
  unfoldable pub rescan_instructions :
      (fuel : ℕ)
      → TranslationStore
      → (index instruction_ptr host_pc : ℕ) → Outcome (TranslationStore × ℕ)
  unfolding translate_as
  rescan_instructions zero ts index instruction_ptr host_pc = die endless
  rescan_instructions (suc fuel) ts index instruction_ptr host_pc =
      let code = decoder.decode (guest instruction_ptr) in
      let translated = translate_as code ts index instruction_ptr in
      let rest =
        rescan_instructions fuel translated index (next_instruction instruction_ptr) host_pc in
      if is_replaced code
      then die unreachable
      else if ltb host_pc translated.code_store_free_ptr
      then ok (translated, instruction_ptr)
      else rest

  unfoldable pub rescan_block :
      TranslationStore → (index host_pc : ℕ) → Outcome (TranslationStore × ℕ)
  unfolding rescan_instructions
  rescan_block ts index host_pc = do
    let block = ts.basic_block_store index
    let dry = record ts { code_store_free_ptr = block.code_store_start; write = false }
    (after, instruction_ptr) ← rescan_instructions 0x4000_0000 dry index block.guest_start host_pc
    ok (
      record after { code_store_free_ptr = ts.code_store_free_ptr; write = true },
      instruction_ptr,
    )

  -- `write_protect` is `guestWriteProtect` with the tables of the context. The fuel is the number of
  -- words of 32-bit addresses.
  module _ (write_protect : Space → (start_address end_address : ℕ) → Outcome Space) where
    unfoldable pub scan_arm_block : ScanContext → (guest_start index : ℕ) → Outcome ScanContext
    unfolding scan_instructions close_block open_block end_block set_exec_bitmap
    scan_arm_block context guest_start index = do
      let opened = open_block context.translation_store guest_start index
      (scanned, instruction_ptr) ← scan_instructions 0x4000_0000 opened index guest_start
      let ended = end_block (close_block scanned index instruction_ptr) index instruction_ptr
      space ← write_protect context.space guest_start instruction_ptr
      ok (record context {
        translation_store = ended;
        exec_bitmap =
            set_exec_bitmap context.exec_bitmap (ended.basic_block_store index).guest_start
              (ended.basic_block_store index).guest_end;
        space = space;
        r15 = (ended.basic_block_store index).code_store_start;
      })

    -- What `scanBlock` makes of the search.
    unfoldable pub scan_at :
        ScanContext → Option BlockInfo → (start_address : ℕ) → Outcome ScanContext
    unfolding scan_arm_block
    scan_at context none start_address = die unreachable
    scan_at context (some info) start_address =
        let entered = record context { last_entry_block_index = info.block_index } in
        let block = context.translation_store.basic_block_store info.block_index in
        let hit = record entered { r15 = block.code_store_start } in
        if info.block_found then ok hit else scan_arm_block entered start_address info.block_index

    unfoldable pub scan_block : ScanContext → (start_address : ℕ) → Outcome ScanContext
    unfolding scan_at
    scan_block context start_address =
        scan_at context (get_block_info context.translation_store.basic_block_store start_address)
          start_address
