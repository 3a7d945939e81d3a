-- ===== src/Scan/Closing.antt =====
-- The last words of a block: what is left by the hypercalls and the index that `scanArmBlock` adds.
use hyparm.Common.{
  ℕ, ◌+◌, ◌*◌, ◌%◌, ◌^◌, ◌<◌, ◌≡◌, refl, ◌∙◌, arith, bit_and, bit_or, Bool, true, false,
}
use hyparm.Bits.{bit_and_mask, bit_or_low, bit_or-comm_word}
use hyparm.Memory.{update_self}
use hyparm.Blocks.Translations.{TranslationStore, add_instruction_to_block}
use hyparm.Blocks.Appending.{
  IsBuilding, code_word, add_instruction_to_block-IsBuilding, add_instruction_to_block_lem,
}
use hyparm.Scan.Translator.{arm_write_pc_to_register}
use hyparm.Scan.Scanner.{Decoder, with_one_hypercall, hypercall_word, one_call, two_calls}

-- What the scanner asks of the function that rewrites an instruction: it adds to the block.
abbrev pub Adds : Decoder → Type 0
Adds decoder =
    (ts : TranslationStore) (index pc instruction : ℕ)
    → IsBuilding ts index
    → IsBuilding (decoder.pc_handler ts index pc instruction) index

abbrev pub size_of_block : TranslationStore → ℕ → ℕ
size_of_block ts index = (ts.basic_block_store index).code_store_size

-- The last words of a block: the hypercall, and the index.
abbrev pub EndsWith : TranslationStore → (index call : ℕ) → Type 0
EndsWith ts index call =
    (n : ℕ) × (size_of_block ts index ≡ n + 2)
    × (code_word ts index n ≡ call)
    × (code_word ts index (n + 1) ≡ index)

-- The second of two hypercalls has the condition "always", and is the same word as a single one.
always_call :
    (index : ℕ)
    → index < 0x1_0000
    → bit_or (bit_and (hypercall_word index) 0x0fff_ffff) (0xe * 2 ^ 28) ≡ hypercall_word index
always_call index h =
    let flat : (index + 0x100) % 2 ^ 32 ≡ index + 0x100 = omega arith in
    let word : hypercall_word index ≡ 0xef00_0000 + (index + 0x100) =
      rw flat (bit_or_low 24 0xef (index + 0x100) (omega arith)) in
    let low : bit_and (0xef00_0000 + (index + 0x100)) 0x0fff_ffff ≡ 0x0f00_0000 + (index + 0x100) =
      omega (arith, bit_and_mask 28 (0xef00_0000 + (index + 0x100))) in
    rw (word, low)
      (omega (
        arith,
        bit_or-comm_word (0x0f00_0000 + (index + 0x100)) (0xe * 2 ^ 28) (omega arith) (omega arith),
        bit_or_low 28 0xe (0x0f00_0000 + (index + 0x100)) (omega arith),
      ))

flag-IsBuilding :
    (ts : TranslationStore) (index : ℕ) (b : Bool)
    → IsBuilding ts index
    → IsBuilding (with_one_hypercall ts index b) index
flag-IsBuilding ts index b t = record {
  writes = t.writes;
  above = rw (update_self ts.basic_block_store index) t.above;
  contiguous = rw (update_self ts.basic_block_store index) t.contiguous;
}

flag-fields :
    (ts : TranslationStore) (index : ℕ) (b : Bool)
    → let flagged = (with_one_hypercall ts index b).basic_block_store index in
      (flagged.code_store_size ≡ (ts.basic_block_store index).code_store_size)
      × (flagged.code_store_start ≡ (ts.basic_block_store index).code_store_start)
flag-fields ts index b = rw (update_self ts.basic_block_store index) (refl, refl)

module _ (pool_end : ℕ) where
  -- A hypercall is added, and then the index.
  call_and_index :
      (ts : TranslationStore) (index call : ℕ) (b : Bool)
      → IsBuilding ts index
      → let called = with_one_hypercall (add_instruction_to_block pool_end ts index call) index b in
        EndsWith (add_instruction_to_block pool_end called index index) index call
  call_and_index ts index call b t =
      let n = size_of_block ts index in
      let added = add_instruction_to_block pool_end ts index call in
      let called = with_one_hypercall added index b in
      let building = add_instruction_to_block-IsBuilding pool_end ts index call t in
      let flagged = flag-IsBuilding added index b building in
      let (longer, word) = add_instruction_to_block_lem pool_end ts index call t n (omega arith) in
      let here : code_word added index n ≡ call = ground (arith, word) in
      let (same_size, same_start) = flag-fields added index b in
      let size : size_of_block called index ≡ n + 1 = same_size ∙ longer in
      let kept : code_word called index n ≡ call = rw (code_word, same_start) here in
      let (whole, first) =
        add_instruction_to_block_lem pool_end called index index flagged n (omega arith) in
      let (whole2, second) =
        add_instruction_to_block_lem pool_end called index index flagged (n + 1) (omega arith) in
      (n, omega arith, ground (arith, first, size, kept), ground (arith, second, size))

  pub arm_write_pc_to_register-IsBuilding :
      (ts : TranslationStore) (index condition_code reg pc : ℕ)
      → IsBuilding ts index
      → IsBuilding (arm_write_pc_to_register pool_end ts index condition_code reg pc) index
  unfolding arm_write_pc_to_register
  arm_write_pc_to_register-IsBuilding ts index condition_code reg pc t =
      let low = add_instruction_to_block-IsBuilding pool_end ts index _ t in
      add_instruction_to_block-IsBuilding pool_end _ index _ low

  pub one_call-EndsWith :
      (ts : TranslationStore) (index : ℕ)
      → IsBuilding ts index
      → EndsWith
          (add_instruction_to_block pool_end (one_call pool_end ts index) index index)
          index
          (hypercall_word index)
  unfolding one_call
  one_call-EndsWith ts index t = call_and_index ts index (hypercall_word index) true t

  pub two_calls-EndsWith :
      (ts : TranslationStore) (index cc : ℕ)
      → index < 0x1_0000
      → IsBuilding ts index
      → EndsWith
          (add_instruction_to_block pool_end (two_calls pool_end ts index cc) index index)
          index
          (hypercall_word index)
  unfolding two_calls
  two_calls-EndsWith ts index cc small t =
      let first = add_instruction_to_block-IsBuilding pool_end ts index _ t in
      rw (always_call index small) (call_and_index _ index (hypercall_word index) false first)
