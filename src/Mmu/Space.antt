-- ===== src/Mmu/Space.antt =====
-- An address space of the hypervisor: memory by words, at the addresses that the code uses, and what
-- it remembers of the second-level tables. A virtual address is looked up in it as
-- src/memoryManager/pageTable.c does (`getEntrySecond`, `getPhysicalAddress`).
use hyparm.Common.{
  ℕ, ◌*◌, ◌/◌, ◌%◌, ◌^◌, bit_and, bit_or, Bool, true, not, ◌==◌, if◌then◌else◌, Option, none, some,
}
use hyparm.Common.{
  Outcome, ok, die, ◌>>=◌, not_implemented, reserved_entry, not_shadow_mapped, no_metadata,
  not_host_table,
}
use hyparm.Memory.{Memory}
use hyparm.Mmu.Entries.{fault, page_table, section, large_page, field, entry_type, get_entry_first}
use hyparm.Mmu.Infos.{PtInfo, PageTables, get_page_table_info}

pub record Space : Type 0 where
  pub words : Memory ℕ
  pub page_tables : PageTables
  -- how many tables `memalign` has given
  pub allocations : ℕ

-- What `getEntrySecond` makes of the metadata that it finds.
unfoldable pub entry_of_info : Option PtInfo → ℕ → Outcome ℕ
entry_of_info none virt_addr = die no_metadata
entry_of_info (some metadata) virt_addr =
    let index = bit_and virt_addr 0x000f_f000 / 2 ^ 10 in
    if not metadata.host then die not_host_table else ok (bit_or metadata.virt_addr index)

unfoldable pub get_entry_second : Space → ℕ → ℕ → Outcome ℕ
unfolding entry_of_info
get_entry_second space first_level_entry virt_addr =
    entry_of_info (get_page_table_info space.page_tables first_level_entry) virt_addr

-- `shadowMap` on this space: whether it mapped the address.
module _ (shadow_map : Space → ℕ → Bool × Space) where
  unfoldable pub map_if : Bool → Space → ℕ → Outcome Space
  map_if faulted space virt_addr =
      let (done, mapped) = shadow_map space virt_addr in
      if not faulted then ok space else if done then ok mapped else die not_shadow_mapped

  -- The end of `getPhysicalAddress` in a second-level table. A fault falls through to the case of a
  -- large page once the address is mapped.
  unfoldable pub physical_of_second : Space → ℕ → ℕ → Outcome (ℕ × Space)
  unfolding map_if
  physical_of_second space entry_second virt_addr =
      let kind = entry_type (space.words entry_second) in
      if kind == fault
      then (do
        mapped ← map_if true space virt_addr
        ok (bit_or (field 16 16 (mapped.words entry_second) * 2 ^ 16) (virt_addr % 2 ^ 16), mapped))
      else if kind == large_page
      then ok (bit_or (field 16 16 (space.words entry_second) * 2 ^ 16) (virt_addr % 2 ^ 16), space)
      else ok (bit_or (field 12 20 (space.words entry_second) * 2 ^ 12) (virt_addr % 2 ^ 12), space)

  unfoldable pub physical_of_first : Space → ℕ → ℕ → Outcome (ℕ × Space)
  unfolding get_entry_second physical_of_second
  physical_of_first space entry_first virt_addr =
      let word = space.words entry_first in
      if entry_type word == fault
      then die not_shadow_mapped
      else if entry_type word == section
      then (if field 18 1 word == 1
          then die not_implemented
          else ok (bit_or (field 20 12 word * 2 ^ 20) (virt_addr % 2 ^ 20), space))
      else if entry_type word == page_table
      then (do
        entry_second ← get_entry_second space entry_first virt_addr
        physical_of_second space entry_second virt_addr)
      else die reserved_entry

  unfoldable pub get_physical_address : Space → ℕ → ℕ → Outcome (ℕ × Space)
  unfolding map_if physical_of_first get_entry_first
  get_physical_address space table virt_addr = do
    let entry_first = get_entry_first table virt_addr
    mapped ← map_if (entry_type (space.words entry_first) == fault) space virt_addr
    physical_of_first mapped entry_first virt_addr
