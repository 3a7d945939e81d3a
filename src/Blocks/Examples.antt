-- ===== src/Blocks/Examples.antt =====
-- The theorems on the cache of translated code at concrete stores.
use hyparm.Common.{ℕ, ◌+◌, ◌≤◌, ◌<◌, ◌≡◌, refl, arith, true, false}
use hyparm.Common.{◌==◌, if◌then◌else◌, ◌⊎◌, inr, none, some}
use hyparm.Bits.{bit_at}
use hyparm.Memory.{Memory, update}
use hyparm.Blocks.Store.{
  BlockType, BasicBlock, BlockInfo, zeroed, basic_block_store_size, is_valid,
  get_basic_block_store_index, probe, get_block_info,
}
use hyparm.Blocks.Lookup.{Holds, get_block_info-eq-none, get_block_info_total}
use hyparm.Blocks.Placing.{get_block_info-update}
use hyparm.Blocks.ExecBitmap.{set_exec_bitmap, is_exec_bit_set}
use hyparm.Blocks.Translations.{
  TranslationStore, add_instruction_to_block, covers, clear_translations_by_address,
}
use hyparm.Blocks.Clearing.{
  unlinked, NoHypercall, clear_translations_by_address_lem, clear_translations_by_address_misses,
}
use hyparm.Blocks.Appending.{
  IsBuilding, code_word, add_instruction_to_block-InPool, add_instruction_to_block_lem,
}

abbrev empty : Memory BasicBlock
empty i = zeroed

-- A block of two host words, for the guest code from 0x3fff8 to 0x40ff8.
abbrev two_words : BasicBlock
two_words = record zeroed {
  block_type = BlockType.group_arm;
  guest_start = 0x3_fff8;
  guest_end = 0x4_0ff8;
  code_store_start = 0x100;
  code_store_size = 2;
}

-- Every entry holds a block that starts there.
abbrev crowded : Memory BasicBlock
crowded i = two_words

get_block_info-eq-none_example : get_block_info crowded 0x3_fffc ≡ none
get_block_info-eq-none_example = get_block_info-eq-none crowded 0x3_fffc λ i p. (refl, omega arith)

get_block_info_total_example :
    (info : BlockInfo) × (get_block_info crowded 0x3_fff8 ≡ some info)
    × (info.block_index ≤ 0xfffe)
    × ((Holds crowded 0x3_fff8 info.block_index × (info.block_found ≡ true))
        ⊎ ((is_valid (crowded info.block_index).block_type ≡ false) × (info.block_found ≡ false)))
unfolding get_basic_block_store_index
get_block_info_total_example =
    get_block_info_total crowded 0x3_fff8 0xfffe (omega arith, omega arith) (inr (refl, refl))

get_block_info-update_example :
    get_block_info (update empty 0xfffe two_words) 0x3_fff8
    ≡ some (record { block_found = true; block_index = 0xfffe })
unfolding get_block_info get_basic_block_store_index probe
get_block_info-update_example = get_block_info-update empty 0x3_fff8 0xfffe two_words refl refl refl

-- One bit is set in each byte, that of the first page of eight.
abbrev first_pages : Memory ℕ
first_pages i = 1

abbrev group_store : TranslationStore
group_store = record {
  code_store = 0x80;
  code_store_free_ptr = 0x108;
  basic_block_store = crowded;
  write = true;
  words = λ a. a;
}

clear_translations_by_address_lem_example :
    let cleared = clear_translations_by_address first_pages group_store 0x4_0008 in
    (cleared.basic_block_store 5 ≡ (
      if covers 0x4_0008 (group_store.basic_block_store 5)
      then zeroed
      else unlinked (group_store.basic_block_store 5)))
    × ((word : ℕ)
        → ((j : ℕ)
            → j < basic_block_store_size
            → NoHypercall (group_store.basic_block_store j) word)
        → cleared.words word ≡ group_store.words word)
unfolding is_exec_bit_set
clear_translations_by_address_lem_example =
    clear_translations_by_address_lem first_pages group_store 0x4_0008 5 refl (omega arith)

clear_translations_by_address_misses_example :
    clear_translations_by_address
      (set_exec_bitmap first_pages 0x5_2ffc 0x5_3010)
      group_store
      0x5_2ffc
    ≡ group_store
unfolding bit_at
clear_translations_by_address_misses_example =
    clear_translations_by_address_misses first_pages group_store 0x5_2ffc 0x5_3010 refl
      (omega arith) (omega arith) refl refl

group_store-IsBuilding : IsBuilding group_store 5
group_store-IsBuilding = record { writes = refl; above = omega arith; contiguous = refl }

-- The pool ends with the new word, so that the block moves.
add_instruction_to_block-InPool_example :
    let r = add_instruction_to_block 0x10c group_store 5 0xe1a0_0000 in
    IsBuilding r 5 × (r.code_store_free_ptr < 0x10c) × (r.code_store ≡ 0x80)
add_instruction_to_block-InPool_example =
    add_instruction_to_block-InPool 0x10c group_store 5 0xe1a0_0000 group_store-IsBuilding
      (omega arith)

add_instruction_to_block_lem_example :
    let r = add_instruction_to_block 0x10c group_store 5 0xe1a0_0000 in
    ((r.basic_block_store 5).code_store_size
      ≡ (group_store.basic_block_store 5).code_store_size + 1)
    × (code_word r 5 1 ≡ (
        if 1 == (group_store.basic_block_store 5).code_store_size
        then 0xe1a0_0000
        else code_word group_store 5 1))
add_instruction_to_block_lem_example =
    add_instruction_to_block_lem 0x10c group_store 5 0xe1a0_0000 group_store-IsBuilding 1
      (omega arith)
