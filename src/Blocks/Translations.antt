-- ===== src/Blocks/Translations.antt =====
-- The translation store: the code store (the words of memory from `code_store` on), the block
-- store, and the operations that add, unlink and clear translations. Cache maintenance has no
-- effect on the words, and `calloc`/`malloc` are taken to succeed. Pointers into the code store
-- stay below the end of its pool, so their arithmetic does not wrap; `unlinkBlock` computes on
-- `u32int`, and its wrap-around is written out.
use hyparm.Common.{
  ℕ, zero, suc, ◌+◌, ◌-◌, ◌*◌, ◌^◌, ◌%◌, bit_and, bit_or, Bool, true, false, not, ◌&&◌, ◌||◌, leb,
  if◌then◌else◌,
}
use hyparm.Common.{Outcome, ok, die, store_full}
use hyparm.Memory.{Memory, update}
use hyparm.Blocks.Store.{BlockType, BasicBlock, zeroed, basic_block_store_size}
use hyparm.Blocks.ExecBitmap.{is_exec_bit_set}

pub record TranslationStore : Type 0 where
  pub code_store : ℕ
  pub code_store_free_ptr : ℕ
  pub basic_block_store : Memory BasicBlock
  pub write : Bool
  pub words : Memory ℕ

abbrev pub set_block : TranslationStore → ℕ → BasicBlock → TranslationStore
set_block ts i b = record ts { basic_block_store = update ts.basic_block_store i b }

abbrev pub set_word : TranslationStore → ℕ → ℕ → TranslationStore
set_word ts a v = record ts { words = update ts.words a v }

-- `memset` of the bytes from `from` up to `to`.
unfoldable pub clear_words : Memory ℕ → ℕ → ℕ → Memory ℕ
clear_words words from to a = if leb from a && not (leb to a) then 0 else words a

-- `memset` of the whole array of blocks.
unfoldable pub clear_blocks : Memory BasicBlock → Memory BasicBlock
clear_blocks store i = if leb basic_block_store_size i then store i else zeroed

-- `clearTranslationsAll`
unfoldable pub clear_translations_all : ℕ → ℕ → TranslationStore → TranslationStore
clear_translations_all pool_begin pool_end ts = record {
  code_store = pool_begin;
  code_store_free_ptr = pool_begin;
  basic_block_store = clear_blocks ts.basic_block_store;
  write = true;
  words = clear_words ts.words pool_begin pool_end;
}

-- `initialiseTranslationStore` leaves the store as `clearTranslationsAll` does.
unfoldable pub initialise_translation_store : ℕ → ℕ → TranslationStore → TranslationStore
unfolding clear_translations_all
initialise_translation_store pool_begin pool_end ts = clear_translations_all pool_begin pool_end ts

-- `instructionToCodeStore`
unfoldable pub instruction_to_code_store : ℕ → TranslationStore → ℕ → Outcome TranslationStore
instruction_to_code_store pool_end ts instruction =
    let stored = set_word ts ts.code_store_free_ptr instruction in
    let next = ts.code_store_free_ptr + 4 in
    if leb pool_end next then die store_full else ok (record stored { code_store_free_ptr = next })

-- One word of the copy of a block to the front of the code store, and the loop, with the words
-- left to copy.
unfoldable pub copy_word : TranslationStore → ℕ → TranslationStore
copy_word ts instr_ptr = record ts {
  words =
      if ts.write then update ts.words ts.code_store_free_ptr (ts.words instr_ptr) else ts.words;
  code_store_free_ptr = ts.code_store_free_ptr + 4;
}

unfoldable pub copy_front : ℕ → ℕ → TranslationStore → TranslationStore
copy_front zero instr_ptr ts = ts
copy_front (suc left) instr_ptr ts = copy_front left (instr_ptr + 4) (copy_word ts instr_ptr)

-- `codeStoreFreePtr = codeStore`, and the copying loop.
unfoldable pub copy_block : TranslationStore → ℕ → TranslationStore
copy_block ts index =
    let block = ts.basic_block_store index in
    copy_front block.code_store_size block.code_store_start
      (record ts { code_store_free_ptr = ts.code_store })

-- The block moves to the front of the code store, alone in the block store. `oneHypercall` is not
-- among the fields that are restored.
unfoldable pub relocate : TranslationStore → ℕ → TranslationStore
relocate ts index =
    let block = ts.basic_block_store index in
    let copied = copy_block ts index in
    record copied {
      basic_block_store =
          update (clear_blocks copied.basic_block_store) index
            (record block { code_store_start = ts.code_store; one_hypercall = false });
    }

-- The end of the pool is reached.
unfoldable pub wrap_around : TranslationStore → ℕ → TranslationStore
wrap_around ts index = if ts.write then relocate ts index else copy_block ts index

-- The first half of `addInstructionToBlock`.
unfoldable pub append_instruction : TranslationStore → ℕ → ℕ → TranslationStore
append_instruction ts index instruction =
    let block = ts.basic_block_store index in
    let longer = record block { code_store_size = block.code_store_size + 1 } in
    record ts {
      basic_block_store =
          if ts.write then update ts.basic_block_store index longer else ts.basic_block_store;
      words = if ts.write then update ts.words ts.code_store_free_ptr instruction else ts.words;
      code_store_free_ptr = ts.code_store_free_ptr + 4;
    }

-- `addInstructionToBlock`; the block is the entry at `index`.
unfoldable pub add_instruction_to_block : ℕ → TranslationStore → ℕ → ℕ → TranslationStore
add_instruction_to_block pool_end ts index instruction =
    let added = append_instruction ts index instruction in
    if leb pool_end added.code_store_free_ptr then wrap_around added index else added

abbrev pub instr_swi : ℕ
instr_swi = 0xef00_0000

-- The word before the block index, which ends the block's code.
abbrev pub last_instr_of_host_block : BasicBlock → ℕ
last_instr_of_host_block b =
    (b.code_store_start + (b.code_store_size + 2 ^ 32 - 1) % 2 ^ 32 * 4 + 2 ^ 32 - 4) % 2 ^ 32

-- `unlinkBlock`: put the hypercalls back that a direct branch has replaced.
unfoldable pub unlink_block : TranslationStore → ℕ → TranslationStore
unlink_block ts index =
    let block = ts.basic_block_store index in
    let hypercall = bit_or instr_swi ((index + 0x100) % 2 ^ 32) in
    let last = last_instr_of_host_block block in
    let first = (last + 2 ^ 32 - 4) % 2 ^ 32 in
    let words = update ts.words last hypercall in
    let condition = bit_and (words first) 0xf000_0000 in
    let conditional = bit_or (bit_and hypercall 0x0fff_ffff) condition in
    record ts {
      words = if block.one_hypercall then words else update words first conditional;
      basic_block_store =
          update ts.basic_block_store index (record block { block_type = BlockType.arm });
    }

abbrev pub is_group_arm : BlockType → Bool
is_group_arm BlockType.group_arm = true
is_group_arm _ = false

-- `for (i = 0; i < BASIC_BLOCK_STORE_SIZE; i++)`, with the rounds left.
unfoldable pub for_each_block :
    (TranslationStore → ℕ → TranslationStore) → ℕ → ℕ → TranslationStore → TranslationStore
for_each_block body zero i ts = ts
for_each_block body (suc left) i ts = for_each_block body left (i + 1) (body ts i)

unfoldable pub unlink_group : TranslationStore → ℕ → TranslationStore
unlink_group ts i =
    if is_group_arm (ts.basic_block_store i).block_type then unlink_block ts i else ts

-- `unlinkAllBlocks`
unfoldable pub unlink_all_blocks : TranslationStore → TranslationStore
unlink_all_blocks ts = for_each_block unlink_group basic_block_store_size 0 ts

-- The body of both clearing loops: unlink, then clear the entry if it is hit.
unfoldable pub clear_hit : (BasicBlock → Bool) → TranslationStore → ℕ → TranslationStore
clear_hit hit ts i =
    let unlinked = unlink_group ts i in
    if hit (unlinked.basic_block_store i) then set_block unlinked i zeroed else unlinked

abbrev pub covers : ℕ → BasicBlock → Bool
covers address b = leb b.guest_start address && leb address b.guest_end

-- `clearTranslationsByAddress`
unfoldable pub clear_translations_by_address : Memory ℕ → TranslationStore → ℕ → TranslationStore
clear_translations_by_address exec_bitmap ts address =
    if is_exec_bit_set exec_bitmap address
    then for_each_block (clear_hit (covers address)) basic_block_store_size 0 ts
    else ts

abbrev pub ends_within : ℕ → ℕ → BasicBlock → Bool
ends_within address_start address_end b =
    (leb address_start b.guest_start && leb b.guest_start address_end)
    || (leb address_start b.guest_end && leb b.guest_end address_end)

-- `clearTranslationsByAddressRange`
unfoldable pub clear_translations_by_address_range :
    Memory ℕ → TranslationStore → ℕ → ℕ → TranslationStore
clear_translations_by_address_range exec_bitmap ts address_start address_end =
    if is_exec_bit_set exec_bitmap address_start || is_exec_bit_set exec_bitmap address_end
    then for_each_block (clear_hit (ends_within address_start address_end)) basic_block_store_size 0
        ts
    else ts
