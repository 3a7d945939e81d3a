-- ===== src/Blocks/Store.antt =====
-- The entries of the store, and the search for a block (`getBlockInfo`). The array is a function of
-- the index, and a read past its last entry, which C leaves undefined, is `none`.
use hyparm.Common.{
  ℕ, zero, suc, ◌+◌, ◌-◌, ◌/◌, bit_and, Bool, true, false, not, ◌==◌, if◌then◌else◌,
}
use hyparm.Common.{Option, none, some}
use hyparm.Memory.{Memory}

-- `basicBlockEntryType`; a zeroed entry is invalid.
pub data BlockType : Type 0 where
  invalid arm thumb group_arm group_thumb : BlockType

-- Pointers are addresses.
pub record BasicBlock : Type 0 where
  pub block_type : BlockType
  pub guest_start : ℕ
  pub guest_end : ℕ
  pub code_store_start : ℕ
  pub code_store_size : ℕ
  pub handler : ℕ
  pub one_hypercall : Bool

abbrev pub zeroed : BasicBlock
zeroed = record {
  block_type = BlockType.invalid;
  guest_start = 0;
  guest_end = 0;
  code_store_start = 0;
  code_store_size = 0;
  handler = 0;
  one_hypercall = false;
}

pub record BlockInfo : Type 0 where
  pub block_found : Bool
  pub block_index : ℕ

abbrev pub basic_block_store_size : ℕ
basic_block_store_size = 0x1_0000

abbrev pub is_valid : BlockType → Bool
is_valid BlockType.invalid = false
is_valid _ = true

-- `(startAddress >> 2) & (BASIC_BLOCK_STORE_SIZE - 1)`
unfoldable pub get_basic_block_store_index : ℕ → ℕ
get_basic_block_store_index start_address = bit_and (start_address / 4) (basic_block_store_size - 1)

-- The `do … while (TRUE)`, with the number of entries from `index` to the end of the array.
unfoldable pub probe : Memory BasicBlock → ℕ → ℕ → ℕ → Option BlockInfo
probe store start_address zero index = none
probe store start_address (suc left) index =
    let rest = probe store start_address left (index + 1) in
    if not (is_valid (store index).block_type)
    then some (record { block_found = false; block_index = index })
    else if (store index).guest_start == start_address
    then some (record { block_found = true; block_index = index })
    else rest

unfoldable pub get_block_info : Memory BasicBlock → ℕ → Option BlockInfo
unfolding probe
get_block_info store start_address =
    let index = get_basic_block_store_index start_address in
    probe store start_address (basic_block_store_size - index) index

-- `invalidateBlock`
unfoldable pub invalidate_block : BasicBlock → BasicBlock
invalidate_block block = record block { block_type = BlockType.invalid }
