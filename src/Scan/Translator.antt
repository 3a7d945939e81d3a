-- ===== src/Scan/Translator.antt =====
-- Host instructions that the scanner and the linker make
-- (src/instructionEmu/translator/translator.c, blockCopy.c, src/instructionEmu/blockLinker.c), and
-- the fields of an instruction that they test.
use hyparm.Common.{
  ℕ, ◌+◌, ◌-◌, ◌*◌, ◌/◌, ◌%◌, ◌^◌, bit_and, bit_or, Bool, ◌==◌, ◌!=◌, if◌then◌else◌, Option, none,
  some,
}
use hyparm.Memory.{Memory}
use hyparm.Blocks.Store.{BlockType, BasicBlock, BlockInfo, get_block_info}
use hyparm.Blocks.Translations.{TranslationStore, set_word, add_instruction_to_block}

abbrev pub branch_base_value : ℕ
branch_base_value = 0x0a00_0000

-- The condition `AL`, and `GPR_LR`.
abbrev pub always_condition : ℕ
always_condition = 0xe

abbrev pub gpr_lr : ℕ
gpr_lr = 14

-- The word that `putBranch` writes.
unfoldable pub branch_word : (branch_location branch_target condition : ℕ) → ℕ
branch_word branch_location branch_target condition =
    let offset = (branch_target + 2 ^ 32 - (branch_location + 8) % 2 ^ 32) % 2 ^ 32 in
    bit_or (bit_or condition branch_base_value) (bit_and (offset / 2 ^ 2) 0xff_ffff)

unfoldable pub put_branch :
    TranslationStore → (branch_location branch_target condition : ℕ) → TranslationStore
unfolding branch_word
put_branch ts branch_location branch_target condition =
    set_word ts branch_location (branch_word branch_location branch_target condition)

-- `instr.branch.opc0 == 0x5`, `instr.branch.link` and `instr.branch.cc != AL`
unfoldable pub is_branch : ℕ → Bool
is_branch instr = instr / 2 ^ 25 % 2 ^ 3 == 5

unfoldable pub branch_links : ℕ → Bool
branch_links instr = instr / 2 ^ 24 % 2 != 0

unfoldable pub is_conditional : ℕ → Bool
is_conditional instr = instr / 2 ^ 28 % 2 ^ 4 != always_condition

-- MOVW or MOVT, by its opcode, of 16 bits of `pc`.
unfoldable pub move_half : (condition_code opcode reg pc : ℕ) → ℕ
move_half condition_code opcode reg pc =
    bit_or
      (bit_or (bit_or (condition_code * 2 ^ 28 % 2 ^ 32) (opcode * 2 ^ 20))
        (bit_or (bit_and pc 0xf000 * 2 ^ 4) (reg * 2 ^ 12 % 2 ^ 32)))
      (bit_and pc 0x0fff)

-- `armWritePCToRegister`; the block is the entry at `index`.
unfoldable pub arm_write_pc_to_register :
    (pool_end : ℕ) → TranslationStore → (index condition_code reg pc : ℕ) → TranslationStore
unfolding move_half add_instruction_to_block
arm_write_pc_to_register pool_end ts index condition_code reg pc =
    let ahead = (pc + 8) % 2 ^ 32 in
    let low =
      add_instruction_to_block pool_end ts index (move_half condition_code 0x30 reg ahead) in
    add_instruction_to_block pool_end low index (move_half condition_code 0x34 reg (ahead / 2 ^ 16))

-- `linkBlock`. The blocks are the entries at `last_index` and at the place that the search gives; a
-- search that reads past the array is `none`, and links nothing. `guest` is the guest's memory.
abbrev pub mark_group : TranslationStore → ℕ → TranslationStore
mark_group ts index = record ts {
  basic_block_store = λ i.
      if i == index
      then record (ts.basic_block_store i) { block_type = BlockType.group_arm }
      else ts.basic_block_store i;
}

-- `lastInstrOfHostBlock`: the hypercall before the block's index.
unfoldable pub last_hypercall : BasicBlock → ℕ
last_hypercall block =
    (block.code_store_start + (block.code_store_size + 2 ^ 32 - 1) % 2 ^ 32 * 4 + 2 ^ 32 - 4)
    % 2 ^ 32

unfoldable pub link_to :
    Memory ℕ → TranslationStore → (next_index last_pc last_index : ℕ) → TranslationStore
unfolding put_branch last_hypercall
link_to guest ts next_index last_pc last_index =
    let last_block = ts.basic_block_store last_index in
    let eob_instruction = guest last_block.guest_end in
    let condition_code =
      if last_pc != last_hypercall last_block
      then bit_and eob_instruction 0xf000_0000
      else 0xe000_0000 in
    let branched =
      put_branch ts last_pc (ts.basic_block_store next_index).code_store_start condition_code in
    mark_group (mark_group branched last_index) next_index

unfoldable pub link_if :
    Memory ℕ → TranslationStore → Option BlockInfo → (last_pc last_index : ℕ) → TranslationStore
unfolding link_to
link_if guest ts none last_pc last_index = ts
link_if guest ts (some info) last_pc last_index =
    if info.block_found then link_to guest ts info.block_index last_pc last_index else ts

unfoldable pub link_block :
    Memory ℕ → TranslationStore → (next_pc last_pc last_index : ℕ) → TranslationStore
unfolding link_if
link_block guest ts next_pc last_pc last_index =
    link_if guest ts (get_block_info ts.basic_block_store next_pc) last_pc last_index
