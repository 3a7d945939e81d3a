-- ===== src/Blocks/DryRun.antt =====
-- Adding an instruction to a block while writing is off, as `rescanBlock` does.
use hyparm.Common.{ℕ, ◌+◌, ◌≡◌, refl, ◌∙◌, zero, suc, false, leb, inl, inr, Bool-cases}
use hyparm.Blocks.Translations.{
  TranslationStore, copy_front, copy_word, copy_block, wrap_around, append_instruction,
  add_instruction_to_block,
}
use hyparm.Blocks.Appending.{copy_front_fields}

copy_front_off :
    (left instr : ℕ) (ts : TranslationStore)
    → ts.write ≡ false
    → (copy_front left instr ts).words ≡ ts.words
unfolding copy_front copy_word
copy_front_off zero instr ts w = refl
copy_front_off (suc left) instr ts w =
    copy_front_off left (instr + 4) (copy_word ts instr) w ∙ simp w

wrap_around-copy_block :
    (ts : TranslationStore) (index : ℕ)
    → ts.write ≡ false
    → wrap_around ts index ≡ copy_block ts index
unfolding wrap_around
wrap_around-copy_block ts index w = simp w

wrap_around_off :
    (ts : TranslationStore) (index : ℕ)
    → ts.write ≡ false
    → ((wrap_around ts index).words ≡ ts.words)
      × ((wrap_around ts index).basic_block_store ≡ ts.basic_block_store)
      × ((wrap_around ts index).write ≡ false)
unfolding copy_block
wrap_around_off ts index w =
    let block = ts.basic_block_store index in
    let front : TranslationStore = record ts { code_store_free_ptr = ts.code_store } in
    let (same, base, write, free) =
      copy_front_fields block.code_store_size block.code_store_start front in
    let words = copy_front_off block.code_store_size block.code_store_start front w in
    rw (wrap_around-copy_block ts index w) (words, same, write ∙ w)

-- With writes off, as `rescanBlock` runs it, `addInstructionToBlock` changes no word of memory and
-- no block, also where the free pointer reaches the end of the pool.
pub add_instruction_to_block_off :
    (pool_end : ℕ) (ts : TranslationStore) (index instruction : ℕ)
    → ts.write ≡ false
    → let r = add_instruction_to_block pool_end ts index instruction in
      (r.words ≡ ts.words) × (r.basic_block_store ≡ ts.basic_block_store) × (r.write ≡ false)
unfolding add_instruction_to_block append_instruction
add_instruction_to_block_off pool_end ts index instruction w =
    let added = append_instruction ts index instruction in
    let (words, blocks, write) = wrap_around_off added index w in
    elim (Bool-cases (leb pool_end (ts.code_store_free_ptr + 4))) [
      | inl e ↦ simp e (words ∙ simp w, blocks ∙ simp w, write)
      | inr e ↦ simp (e, w) (refl, refl, refl)
    ]
