-- ===== src/Blocks/Appending.antt =====
-- Adding an instruction to a block, also where the code store wraps round.
use hyparm.Common.{
  ℕ, zero, suc, ◌+◌, ◌*◌, ◌≤◌, ◌<◌, ◌≡◌, refl, ◌∙◌, arith, true, leb, ◌==◌, if◌then◌else◌, inl, inr,
  Bool-cases,
}
use hyparm.Memory.{update, update_self}
use hyparm.Blocks.Translations.{
  TranslationStore, copy_front, copy_word, copy_block, relocate, wrap_around, append_instruction,
  add_instruction_to_block,
}

-- Words below the place that the copy writes to stay.
copy_front_below :
    (left instr : ℕ) (ts : TranslationStore) (a : ℕ)
    → a < ts.code_store_free_ptr
    → (copy_front left instr ts).words a ≡ ts.words a
unfolding copy_front copy_word update
copy_front_below zero instr ts a h = refl
copy_front_below (suc left) instr ts a h =
    ground (arith, copy_front_below left (instr + 4) (copy_word ts instr) a)

-- `k` words on, the copy holds what the block held.
copy_front_words :
    (left instr : ℕ) (ts : TranslationStore) (k : ℕ)
    → ts.write ≡ true
    → ts.code_store_free_ptr ≤ instr
    → k < left
    → (copy_front left instr ts).words (ts.code_store_free_ptr + k * 4) ≡ ts.words (instr + k * 4)
unfolding copy_front copy_word update
copy_front_words zero instr ts k w le h = absurd (omega arith)
copy_front_words (suc left) instr ts zero w le h =
    let there : ts.code_store_free_ptr + 0 * 4 ≡ ts.code_store_free_ptr = omega arith in
    let from : instr + 0 * 4 ≡ instr = omega arith in
    rw (there, from)
      (ground
        (arith, copy_front_below left (instr + 4) (copy_word ts instr) ts.code_store_free_ptr))
copy_front_words (suc left) instr ts (suc k) w le h =
    let there : ts.code_store_free_ptr + suc k * 4 ≡ ts.code_store_free_ptr + 4 + k * 4 =
      omega arith in
    let from : instr + suc k * 4 ≡ instr + 4 + k * 4 = omega arith in
    rw (there, from) (ground (arith, copy_front_words left (instr + 4) (copy_word ts instr) k))

-- The other fields after the copy.
pub copy_front_fields :
    (left instr : ℕ) (ts : TranslationStore)
    → ((copy_front left instr ts).basic_block_store ≡ ts.basic_block_store)
      × ((copy_front left instr ts).code_store ≡ ts.code_store)
      × ((copy_front left instr ts).write ≡ ts.write)
      × ((copy_front left instr ts).code_store_free_ptr ≡ ts.code_store_free_ptr + left * 4)
unfolding copy_front copy_word
copy_front_fields zero instr ts = (refl, refl, refl, omega arith)
copy_front_fields (suc left) instr ts =
    let rest = copy_front_fields left (instr + 4) (copy_word ts instr) in
    (rest.0, rest.1, rest.2, omega arith)

-- A block under construction: its code starts no lower than the code store, and ends where the free
-- space begins.
pub record IsBuilding (ts : TranslationStore) (index : ℕ) : Type 0 where
  pub writes : ts.write ≡ true
  pub above : ts.code_store ≤ (ts.basic_block_store index).code_store_start
  pub contiguous :
      ts.code_store_free_ptr
      ≡ (ts.basic_block_store index).code_store_start
        + (ts.basic_block_store index).code_store_size * 4

-- Word `k` of the code of a block.
abbrev pub code_word : TranslationStore → ℕ → ℕ → ℕ
code_word ts index k = ts.words ((ts.basic_block_store index).code_store_start + k * 4)

append_instruction-code_store :
    (ts : TranslationStore) (index instruction : ℕ)
    → (append_instruction ts index instruction).code_store ≡ ts.code_store
unfolding append_instruction
append_instruction-code_store ts index instruction = refl

module _ (ts : TranslationStore) (index instruction : ℕ) (t : IsBuilding ts index) where
  append_instruction-IsBuilding : IsBuilding (append_instruction ts index instruction) index
  unfolding append_instruction update
  append_instruction-IsBuilding = record {
    writes = t.writes;
    above = ground (arith, t.above);
    contiguous = ground (arith, t.contiguous);
  }

  append_instruction-block :
      ((append_instruction ts index instruction).basic_block_store index).code_store_size
      ≡ (ts.basic_block_store index).code_store_size + 1
  unfolding append_instruction
  append_instruction-block = rw (t.writes, update_self)

  append_instruction-word :
      (k : ℕ)
      → k ≤ (ts.basic_block_store index).code_store_size
      → code_word (append_instruction ts index instruction) index k ≡ (
          if k == (ts.basic_block_store index).code_store_size
          then instruction
          else code_word ts index k)
  unfolding append_instruction update
  append_instruction-word k h = ground (arith, t.writes, t.contiguous)

module _ (ts : TranslationStore) (index : ℕ) (t : IsBuilding ts index) where
  wrap_around-relocate : wrap_around ts index ≡ relocate ts index
  unfolding wrap_around
  wrap_around-relocate = simp t.writes

  relocate-start : ((relocate ts index).basic_block_store index).code_store_start ≡ ts.code_store
  unfolding relocate copy_block
  relocate-start = rw update_self

  wrap_around-IsBuilding : IsBuilding (wrap_around ts index) index
  unfolding relocate copy_block
  wrap_around-IsBuilding =
      let block = ts.basic_block_store index in
      let (same, base, write, free) =
        copy_front_fields block.code_store_size block.code_store_start
          (record ts { code_store_free_ptr = ts.code_store }) in
      rw wrap_around-relocate (record {
        writes = write ∙ t.writes;
        above = rw (update_self, base) (omega arith);
        contiguous = rw (update_self, free) (omega arith);
      })

  relocate-word :
      (k : ℕ)
      → k < (ts.basic_block_store index).code_store_size
      → (relocate ts index).words (ts.code_store + k * 4) ≡ code_word ts index k
  unfolding relocate copy_block
  relocate-word k h =
      let block = ts.basic_block_store index in
      copy_front_words block.code_store_size block.code_store_start
        (record ts { code_store_free_ptr = ts.code_store }) k t.writes t.above h

  wrap_around-word :
      (k : ℕ)
      → k < (ts.basic_block_store index).code_store_size
      → code_word (wrap_around ts index) index k ≡ code_word ts index k
  wrap_around-word k h =
      rw wrap_around-relocate (rw (relocate-start, code_word) (relocate-word k h))

  wrap_around-block :
      ((wrap_around ts index).basic_block_store index).code_store_size
      ≡ (ts.basic_block_store index).code_store_size
  unfolding relocate copy_block
  wrap_around-block = rw (wrap_around-relocate, update_self)

  wrap_around-free :
      ((wrap_around ts index).code_store_free_ptr
        ≡ ts.code_store + (ts.basic_block_store index).code_store_size * 4)
      × ((wrap_around ts index).code_store ≡ ts.code_store)
  unfolding relocate copy_block
  wrap_around-free =
      let block = ts.basic_block_store index in
      let (same, base, write, free) =
        copy_front_fields block.code_store_size block.code_store_start
          (record ts { code_store_free_ptr = ts.code_store }) in
      rw wrap_around-relocate (free, base)

module _ (pool_end : ℕ) (ts : TranslationStore) (index instruction : ℕ)
    (t : IsBuilding ts index) where
  -- Writing stays on, and the code of the block starts no lower than the code store and ends where
  -- the free space begins, as before.
  pub add_instruction_to_block-IsBuilding :
      IsBuilding (add_instruction_to_block pool_end ts index instruction) index
  unfolding add_instruction_to_block
  add_instruction_to_block-IsBuilding =
      let added = append_instruction ts index instruction in
      let built = append_instruction-IsBuilding ts index instruction t in
      elim (Bool-cases (leb pool_end added.code_store_free_ptr)) [
        | inl e ↦ rw e (wrap_around-IsBuilding added index built)
        | inr e ↦ rw e built
      ]

  -- If writing is on, the code of the block starts no lower than the code store and ends where the
  -- free space begins, and the code store has room for the block with one more word, below its end,
  -- then after `addInstructionToBlock` the code of the block still starts no lower than the code
  -- store, which is where it was, and ends where the free space begins, and that is below the end of
  -- the code store, also where the code store wraps round; writing stays on.
  pub add_instruction_to_block-InPool :
      ts.code_store + ((ts.basic_block_store index).code_store_size + 1) * 4 < pool_end
      → let r = add_instruction_to_block pool_end ts index instruction in
        IsBuilding r index × (r.code_store_free_ptr < pool_end) × (r.code_store ≡ ts.code_store)
  unfolding add_instruction_to_block
  add_instruction_to_block-InPool room =
      let added = append_instruction ts index instruction in
      let built = append_instruction-IsBuilding ts index instruction t in
      let kept = append_instruction-code_store ts index instruction in
      let longer = append_instruction-block ts index instruction t in
      let here = wrap_around-free added index built in
      elim (Bool-cases (leb pool_end added.code_store_free_ptr)) [
        | inl e ↦ rw e (
          wrap_around-IsBuilding added index built,
          rw (here.0, kept, longer) room,
          here.1 ∙ kept,
        )
        | inr e ↦ rw e (built, ground (arith, e), kept)
      ]

  -- If writing is on, and the code of the block starts no lower than the code store and ends where
  -- the free space begins, then `addInstructionToBlock` makes it one word longer: its words as they were, and
  -- then the instruction, also where the code store wraps round and the block moves to its front.
  pub add_instruction_to_block_lem :
      (k : ℕ)
      → k ≤ (ts.basic_block_store index).code_store_size
      → let r = add_instruction_to_block pool_end ts index instruction in
        ((r.basic_block_store index).code_store_size
          ≡ (ts.basic_block_store index).code_store_size + 1)
        × (code_word r index k ≡ (
            if k == (ts.basic_block_store index).code_store_size
            then instruction
            else code_word ts index k))
  unfolding add_instruction_to_block
  add_instruction_to_block_lem k h =
      let added = append_instruction ts index instruction in
      let built = append_instruction-IsBuilding ts index instruction t in
      let longer = append_instruction-block ts index instruction t in
      let word = append_instruction-word ts index instruction t k h in
      elim (Bool-cases (leb pool_end added.code_store_free_ptr)) [
        | inl e ↦ rw e (
          wrap_around-block added index built ∙ longer,
          wrap_around-word added index built k (omega arith) ∙ word,
        )
        | inr e ↦ rw e (longer, word)
      ]
