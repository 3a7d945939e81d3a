-- ===== src/Blocks/Clearing.antt =====
-- Which translations the clearing loops leave.
use hyparm.Common.{
  ℕ, zero, suc, ◌+◌, ◌-◌, ◌^◌, ◌∙◌, ◌/◌, ◌%◌, ◌≤◌, ◌<◌, ◌≡◌, ◌≢◌, refl, arith, Bool, true, ◌&&◌,
  ◌||◌, ◌==◌, leb, ltb, if◌then◌else◌, inl, inr, Bool-cases,
}
use hyparm.Bits.{bit_at}
use hyparm.Memory.{Memory, update, update_self, update_ne}
use hyparm.Blocks.Store.{BlockType, BasicBlock, zeroed, is_valid, basic_block_store_size}
use hyparm.Blocks.ExecBitmap.{is_exec_bit_set, set_exec_bitmap}
use hyparm.Blocks.ExecLaws.{page_of, set_exec_bitmap_loses_start}
use hyparm.Blocks.Translations.{
  TranslationStore, unlink_block, last_instr_of_host_block, is_group_arm, for_each_block,
  unlink_group, unlink_all_blocks, clear_hit, covers, clear_translations_by_address, ends_within,
  clear_translations_by_address_range,
}

-- What unlinking leaves of an entry.
abbrev pub unlinked : BasicBlock → BasicBlock
unlinked b = if is_group_arm b.block_type then record b { block_type = BlockType.arm } else b

-- A loop whose body touches the entry of its round only.
module _ (body : TranslationStore → ℕ → TranslationStore) (on : BasicBlock → BasicBlock)
    (here : (ts : TranslationStore) (i : ℕ)
      → (body ts i).basic_block_store i ≡ on (ts.basic_block_store i))
    (apart : (ts : TranslationStore) (i j : ℕ)
      → i ≢ j
      → (body ts i).basic_block_store j ≡ ts.basic_block_store j) where
  for_each_block_at :
      (left i j : ℕ) (ts : TranslationStore)
      → (for_each_block body left i ts).basic_block_store j ≡ (
          if leb i j && ltb j (i + left)
          then on (ts.basic_block_store j)
          else ts.basic_block_store j)
  unfolding for_each_block
  for_each_block_at zero i j ts = ground arith
  for_each_block_at (suc left) i j ts = elim (Bool-cases (i == j)) [
    | inl e ↦
        let same : i ≡ j = ground arith in
        rw (for_each_block_at left (i + 1) j (body ts i), same, here ts j) (ground arith)
    | inr e ↦
        let differ : i ≢ j = ground arith in
        rw (for_each_block_at left (i + 1) j (body ts i), apart ts i j differ) (ground arith)
  ]

-- The word is none of the two that unlinking the block writes.
abbrev pub NoHypercall : BasicBlock → ℕ → Type 0
NoHypercall b word =
    is_group_arm b.block_type ≡ true
    → (last_instr_of_host_block b ≢ word)
      × ((last_instr_of_host_block b + 2 ^ 32 - 4) % 2 ^ 32 ≢ word)

-- A loop whose body touches no word but those of the entry of its round.
module _ (body : TranslationStore → ℕ → TranslationStore)
    (apart : (ts : TranslationStore) (i j : ℕ)
      → i ≢ j
      → (body ts i).basic_block_store j ≡ ts.basic_block_store j)
    (word : ℕ)
    (keeps : (ts : TranslationStore) (i : ℕ)
      → NoHypercall (ts.basic_block_store i) word
      → (body ts i).words word ≡ ts.words word) where
  for_each_block_word :
      (left i : ℕ) (ts : TranslationStore)
      → ((j : ℕ) → i ≤ j → j < i + left → NoHypercall (ts.basic_block_store j) word)
      → (for_each_block body left i ts).words word ≡ ts.words word
  unfolding for_each_block
  for_each_block_word zero i ts none_there = refl
  for_each_block_word (suc left) i ts none_there =
      for_each_block_word left (i + 1) (body ts i) (λ j from to.
        rw (apart ts i j (ground (arith, from)))
          (none_there j (omega (arith, from)) (omega (arith, to))))
      ∙ keeps ts i (none_there i (omega arith) (omega arith))

unlink_group_here :
    (ts : TranslationStore) (i : ℕ)
    → (unlink_group ts i).basic_block_store i ≡ unlinked (ts.basic_block_store i)
unfolding unlink_group unlink_block update
unlink_group_here ts i = ground arith

unlink_group_apart :
    (ts : TranslationStore) (i j : ℕ)
    → i ≢ j
    → (unlink_group ts i).basic_block_store j ≡ ts.basic_block_store j
unfolding unlink_group unlink_block update
unlink_group_apart ts i j h = ground arith

unlink_group-word :
    (ts : TranslationStore) (i word : ℕ)
    → NoHypercall (ts.basic_block_store i) word
    → (unlink_group ts i).words word ≡ ts.words word
unfolding unlink_group unlink_block update
unlink_group-word ts i word h =
    elim (Bool-cases (is_group_arm (ts.basic_block_store i).block_type)) [
      | inl e ↦ let (last, first) = h e in ground (arith, last, first, e)
      | inr e ↦ rw e refl
    ]

module _ (hit : BasicBlock → Bool) where
  clear_hit-word :
      (ts : TranslationStore) (i word : ℕ)
      → NoHypercall (ts.basic_block_store i) word
      → (clear_hit hit ts i).words word ≡ ts.words word
  unfolding clear_hit
  clear_hit-word ts i word h = elim (Bool-cases (hit ((unlink_group ts i).basic_block_store i))) [
    | inl e ↦ rw e (unlink_group-word ts i word h)
    | inr e ↦ rw e (unlink_group-word ts i word h)
  ]

  clear_hit_here :
      (ts : TranslationStore) (i : ℕ)
      → (clear_hit hit ts i).basic_block_store i ≡ (
          if hit (unlinked (ts.basic_block_store i))
          then zeroed
          else unlinked (ts.basic_block_store i))
  unfolding clear_hit
  clear_hit_here ts i = elim (Bool-cases (hit (unlinked (ts.basic_block_store i)))) [
    | inl e ↦ rw (unlink_group_here ts i, e, update_self)
    | inr e ↦ rw (unlink_group_here ts i, e) (unlink_group_here ts i)
  ]

  clear_hit_apart :
      (ts : TranslationStore) (i j : ℕ)
      → i ≢ j
      → (clear_hit hit ts i).basic_block_store j ≡ ts.basic_block_store j
  unfolding clear_hit
  clear_hit_apart ts i j h = elim (Bool-cases (hit ((unlink_group ts i).basic_block_store i))) [
    | inl e ↦
        rw (e, update_ne (unlink_group ts i).basic_block_store i zeroed j h)
          (unlink_group_apart ts i j h)
    | inr e ↦ rw e (unlink_group_apart ts i j h)
  ]

-- `unlinkAllBlocks` makes each group block of ARM code a plain one, and changes nothing else in the
-- entries.
pub unlink_all_blocks_lem :
    (ts : TranslationStore) (i : ℕ)
    → i < basic_block_store_size
    → (unlink_all_blocks ts).basic_block_store i ≡ unlinked (ts.basic_block_store i)
unfolding unlink_all_blocks
unlink_all_blocks_lem ts i h =
    rw
      (for_each_block_at unlink_group unlinked unlink_group_here unlink_group_apart
        basic_block_store_size 0 i ts)
      (ground arith)

cleared_at :
    (hit : BasicBlock → Bool) (ts : TranslationStore) (i : ℕ)
    → i < basic_block_store_size
    → (for_each_block (clear_hit hit) basic_block_store_size 0 ts).basic_block_store i ≡ (
        if hit (unlinked (ts.basic_block_store i))
        then zeroed
        else unlinked (ts.basic_block_store i))
cleared_at hit ts i h =
    rw
      (for_each_block_at (clear_hit hit) (λ b. if hit (unlinked b) then zeroed else unlinked b)
        (clear_hit_here hit) (clear_hit_apart hit) basic_block_store_size 0 i ts)
      (ground arith)

words_kept :
    (hit : BasicBlock → Bool) (ts : TranslationStore) (word : ℕ)
    → ((j : ℕ) → j < basic_block_store_size → NoHypercall (ts.basic_block_store j) word)
    → (for_each_block (clear_hit hit) basic_block_store_size 0 ts).words word ≡ ts.words word
words_kept hit ts word h =
    for_each_block_word (clear_hit hit) (clear_hit_apart hit) word
      (λ t i. clear_hit-word hit t i word) basic_block_store_size 0 ts
      (λ j from to. h j (omega (arith, to)))

-- Where the page of the address is marked, `clearTranslationsByAddress` zeroes each entry whose
-- block covers the address, and leaves each other entry as it is, but that a group block becomes a
-- plain one. Each word of memory that is not one of the two words before the block index at the end
-- of a group block's code keeps its value.
pub clear_translations_by_address_lem :
    (exec_bitmap : Memory ℕ) (ts : TranslationStore) (address i : ℕ)
    → is_exec_bit_set exec_bitmap address ≡ true
    → i < basic_block_store_size
    → let cleared = clear_translations_by_address exec_bitmap ts address in
      (cleared.basic_block_store i ≡ (
        if covers address (ts.basic_block_store i)
        then zeroed
        else unlinked (ts.basic_block_store i)))
      × ((word : ℕ)
          → ((j : ℕ) → j < basic_block_store_size → NoHypercall (ts.basic_block_store j) word)
          → cleared.words word ≡ ts.words word)
unfolding clear_translations_by_address
clear_translations_by_address_lem exec_bitmap ts address i marked h =
    rw marked (cleared_entry, words_kept (covers address) ts)
  where
    cleared_entry :
        (for_each_block (clear_hit (covers address)) basic_block_store_size 0 ts).basic_block_store
          i
        ≡ (if covers address (ts.basic_block_store i)
            then zeroed
            else unlinked (ts.basic_block_store i))
    cleared_entry = rw (cleared_at (covers address) ts i h) (ground arith)

-- A block that runs over into the next page, within one byte of the bitmap and above the lowest 256
-- KB, is not found by `clearTranslationsByAddress` at its start: if the byte that `setExecBitmap`
-- reads for the last page has neither page's bit set, the store stays as it was, and the stale
-- translation with it.
pub clear_translations_by_address_misses :
    (exec_bitmap : Memory ℕ) (ts : TranslationStore) (start end : ℕ)
    → page_of end ≡ page_of start + 1
    → page_of start % 8 < 7
    → 8 ≤ page_of start / 8
    → bit_at (exec_bitmap (page_of end % 8)) (page_of end % 8) ≡ 0
    → bit_at (exec_bitmap (page_of end % 8)) (page_of start % 8) ≡ 0
    → clear_translations_by_address (set_exec_bitmap exec_bitmap start end) ts start ≡ ts
unfolding clear_translations_by_address
clear_translations_by_address_misses exec_bitmap ts start end next room high clear_end clear_start =
    rw (set_exec_bitmap_loses_start exec_bitmap start end next room high clear_end clear_start)

-- Where an end of the range lies in a marked page, `clearTranslationsByAddressRange` zeroes each
-- entry whose block starts or ends in the range, and leaves each other entry as it is, but that a
-- group block becomes a plain one.
pub clear_translations_by_address_range_lem :
    (exec_bitmap : Memory ℕ) (ts : TranslationStore) (lo hi i : ℕ)
    → (is_exec_bit_set exec_bitmap lo || is_exec_bit_set exec_bitmap hi) ≡ true
    → i < basic_block_store_size
    → (clear_translations_by_address_range exec_bitmap ts lo hi).basic_block_store i ≡ (
        if ends_within lo hi (ts.basic_block_store i)
        then zeroed
        else unlinked (ts.basic_block_store i))
unfolding clear_translations_by_address_range
clear_translations_by_address_range_lem exec_bitmap ts lo hi i marked h =
    rw (marked, cleared_at (ends_within lo hi) ts i h) (ground arith)

-- A valid block that starts before the range and ends after it stays valid and in its place, though
-- it overlaps the range.
pub clear_translations_by_address_range_misses :
    (exec_bitmap : Memory ℕ) (ts : TranslationStore) (lo hi i : ℕ)
    → i < basic_block_store_size
    → is_valid (ts.basic_block_store i).block_type ≡ true
    → (ts.basic_block_store i).guest_start < lo
    → lo ≤ hi
    → hi < (ts.basic_block_store i).guest_end
    → let b = (clear_translations_by_address_range exec_bitmap ts lo hi).basic_block_store i in
      (is_valid b.block_type ≡ true)
      × (b.guest_start ≡ (ts.basic_block_store i).guest_start)
      × (b.guest_end ≡ (ts.basic_block_store i).guest_end)
unfolding clear_translations_by_address_range
clear_translations_by_address_range_misses exec_bitmap ts lo hi i h valid before order after =
    elim (Bool-cases (is_exec_bit_set exec_bitmap lo || is_exec_bit_set exec_bitmap hi)) [
      | inl e ↦ rw (e, cleared_at (ends_within lo hi) ts i h) (ground arith)
      | inr e ↦ rw e (valid, refl, refl)
    ]
