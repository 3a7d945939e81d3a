-- ===== src/Mmu/Mapping.antt =====
-- Mapping memory (src/memoryManager/pageTable.c): `mapSection`, `mapSmallPage`, `mapLargePage`,
-- `splitSectionToSmallPages` and the two allocators. `memalign n` is the address of the n-th table
-- that is allocated.
use hyparm.Common.{
  ℕ, zero, suc, ◌+◌, ◌-◌, ◌*◌, ◌%◌, ◌^◌, bit_and, bit_or, Bool, true, ◌==◌, ◌&&◌, leb, ltb,
  if◌then◌else◌,
}
use hyparm.Common.{
  Outcome, ok, die, ◌>>=◌, reserved_entry, existing_entry, out_of_memory, misaligned_table,
}
use hyparm.Memory.{Memory, update}
use hyparm.Mmu.Entries.{fault, page_table, section, field, entry_type, get_entry_first}
use hyparm.Mmu.Infos.{add_page_table_info}
use hyparm.Mmu.Building.{
  Attributes, add_section_entry, add_small_page_entry, add_large_page_entry, add_page_table_entry,
}
use hyparm.Mmu.Space.{Space, get_entry_second, get_physical_address}

-- `*entry = ...`
abbrev pub with_word : Space → ℕ → ℕ → Space
with_word space entry word = record space { words = update space.words entry word }

unfoldable pub map_section : Space → (table virt_addr physical : ℕ) → Attributes → Outcome Space
unfolding get_entry_first
map_section space table virt_addr physical attributes =
    let first_level_entry = get_entry_first table virt_addr in
    let kind = entry_type (space.words first_level_entry) in
    if kind == section
    then ok (with_word space first_level_entry (add_section_entry physical attributes))
    else if kind == fault
    then ok (with_word space first_level_entry (add_section_entry physical attributes))
    else if kind == page_table
    then die existing_entry
    else die reserved_entry

-- `memset(pageTable, 0, PT2_SIZE)`
unfoldable pub clear_table : Memory ℕ → ℕ → Memory ℕ
clear_table words table a = if leb table a && ltb a (table + 1024) then 0 else words a

-- The loop of `mapLargePage`, with `left` entries to go.
unfoldable pub fill_large_page :
    (left : ℕ) → Space → (second physical : ℕ) → Attributes → Outcome Space
fill_large_page zero space second physical attributes = ok space
fill_large_page (suc left) space second physical attributes =
    let word = space.words second in
    let filled = with_word space second (add_large_page_entry word physical attributes) in
    let rest = fill_large_page left filled (second + 4) physical attributes in
    if entry_type word == fault then rest else die existing_entry

-- The attributes of a section's entry, with its type set to a fault.
abbrev pub attributes_of : ℕ → Attributes
attributes_of entry = record {
  domain = field 5 4 entry;
  access_bits = bit_or (field 10 2 entry) (field 15 1 entry * 2 ^ 2);
  cacheable = field 3 1 entry == 1;
  bufferable = field 2 1 entry == 1;
  tex = field 12 3 entry;
  execute_never = field 4 1 entry == 1;
}

module _ (memalign : ℕ → ℕ) (shadow_map : Space → ℕ → Bool × Space) where
  unfoldable pub new_level_two_page_table : Space → Outcome (ℕ × Space)
  unfolding clear_table
  new_level_two_page_table space =
      let table = memalign space.allocations in
      let cleared = record space {
        words = clear_table space.words table;
        allocations = suc space.allocations;
      } in
      if table == 0
      then die out_of_memory
      else if table % 2 ^ 10 == 0
      then ok (table, cleared)
      else die misaligned_table

  -- The first `switch` of `mapSmallPage` and of `mapLargePage`: a table for the first-level entry.
  unfoldable pub need_page_table : Space → (table virt_addr domain : ℕ) → Outcome Space
  unfolding new_level_two_page_table get_physical_address get_entry_first add_page_table_info
  need_page_table space table virt_addr domain =
      let first = get_entry_first table virt_addr in
      let kind = entry_type (space.words first) in
      if kind == fault
      then (do
        (v_addr, allocated) ← new_level_two_page_table space
        (p_addr, found) ← get_physical_address shadow_map allocated table v_addr
        let entered = with_word found first (add_page_table_entry p_addr domain)
        let mapped = (first - table) * 2 ^ 18 % 2 ^ 32
        ok (record entered {
          page_tables = add_page_table_info entered.page_tables first v_addr p_addr mapped true;
        }))
      else if kind == page_table
      then ok space
      else if kind == section
      then die existing_entry
      else die reserved_entry

  unfoldable pub map_small_page :
      Space → (table virt_addr physical : ℕ) → Attributes → Outcome Space
  unfolding need_page_table get_entry_second get_entry_first
  map_small_page space table virt_addr physical attributes = do
    tabled ← need_page_table space table virt_addr attributes.domain
    second ← get_entry_second tabled (get_entry_first table virt_addr) virt_addr
    ok (with_word tabled second (add_small_page_entry physical attributes))

  unfoldable pub map_large_page :
      Space → (table virt_addr physical : ℕ) → Attributes → Outcome Space
  unfolding need_page_table get_entry_second get_entry_first fill_large_page
  map_large_page space table virt_addr physical attributes = do
    tabled ← need_page_table space table virt_addr attributes.domain
    second ← get_entry_second tabled (get_entry_first table virt_addr) virt_addr
    fill_large_page 16 tabled second physical attributes

  -- The loop of `splitSectionToSmallPages`, with `left` pages to go.
  unfoldable pub split_pages :
      (left index : ℕ) → Space → (table virt_addr physical : ℕ) → Attributes → Outcome Space
  unfolding map_small_page
  split_pages zero index space table virt_addr physical attributes = ok space
  split_pages (suc left) index space table virt_addr physical attributes = do
    mapped ←
        map_small_page space table ((virt_addr + 0x1000 * index) % 2 ^ 32)
          ((physical + 0x1000 * index) % 2 ^ 32) attributes
    split_pages left (suc index) mapped table virt_addr physical attributes

  unfoldable pub split_section_to_small_pages : Space → (table virt_addr : ℕ) → Outcome Space
  unfolding split_pages get_entry_first
  split_section_to_small_pages space table virt_addr =
      let section_entry = get_entry_first table virt_addr in
      let word = space.words section_entry in
      let invalid = with_word space section_entry (word - entry_type word) in
      split_pages 256 0 invalid table (bit_and virt_addr 0xfff0_0000) (field 20 12 word * 2 ^ 20)
        (attributes_of word)
