-- ===== src/Mmu/Regions.antt =====
-- Mapping a region in sections, large pages and small pages (`mapRegion`, src/memoryManager/
-- pageTable.c).
use hyparm.Common.{ℕ, zero, suc, ◌+◌, ◌-◌, ◌%◌, ◌^◌, Bool, ◌==◌, ◌&&◌, leb, ltb, if◌then◌else◌}
use hyparm.Common.{Outcome, ok, die, ◌>>=◌, endless, bad_range}
use hyparm.Mmu.Building.{Attributes}
use hyparm.Mmu.Space.{Space}
use hyparm.Mmu.Mapping.{map_section, map_small_page, map_large_page}

-- The three mappings, and their sizes.
pub data MappingUnit : Type 0 where
  by_section by_large_page by_small_page : MappingUnit

-- SECTION_SIZE, LARGE_PAGE_SIZE and SMALL_PAGE_SIZE
abbrev pub size_of : MappingUnit → ℕ
size_of by_section = 0x10_0000
size_of by_large_page = 0x1_0000
size_of by_small_page = 0x1000

-- The conditions of the loop's body.
unfoldable pub choose_unit : (physical_start physical_end : ℕ) → MappingUnit
choose_unit physical_start physical_end =
    if physical_start % 2 ^ 20 == 0 && leb 0x10_0000 (physical_end - physical_start)
    then by_section
    else if physical_start % 2 ^ 16 == 0 && leb 0x1_0000 (physical_end - physical_start)
    then by_large_page
    else by_small_page

-- The loop, over the mappings that it calls.
module _ {ℓ} {S : Type ℓ} (mapper : MappingUnit → S → (virt_addr physical : ℕ) → Outcome S) where
  unfoldable pub map_units :
      (fuel : ℕ) → S → (virtual_start physical_start physical_end : ℕ) → Outcome (ℕ × S)
  unfolding choose_unit
  map_units zero s virtual_start physical_start physical_end = die endless
  map_units (suc fuel) s virtual_start physical_start physical_end =
      let kind = choose_unit physical_start physical_end in
      let rest = λ (mapped : S).
        map_units fuel mapped ((virtual_start + size_of kind) % 2 ^ 32)
          ((physical_start + size_of kind) % 2 ^ 32) physical_end in
      if ltb physical_start physical_end
      then mapper kind s virtual_start physical_start >>= rest
      else ok (physical_start, s)

module _ (memalign : ℕ → ℕ) (shadow_map : Space → ℕ → Bool × Space) where
  unfoldable pub map_unit :
      (table : ℕ) → Attributes → MappingUnit → Space → (virt_addr physical : ℕ) → Outcome Space
  unfolding map_section map_large_page map_small_page
  map_unit table attributes by_section space virt_addr physical =
      map_section space table virt_addr physical attributes
  map_unit table attributes by_large_page space virt_addr physical =
      map_large_page memalign shadow_map space table virt_addr physical attributes
  map_unit table attributes by_small_page space virt_addr physical =
      map_small_page memalign shadow_map space table virt_addr physical attributes

  -- The fuel is the number of small pages of 32-bit addresses. The assertion is the first line.
  unfoldable pub map_region :
      Space
      → (table virtual_start physical_start physical_end : ℕ) → Attributes
      → Outcome (ℕ × Space)
  unfolding map_units map_unit
  map_region space table virtual_start physical_start physical_end attributes =
      if physical_start % 2 ^ 12 == 0
      then map_units (map_unit table attributes) 0x10_0001 space virtual_start physical_start
          physical_end
      else die bad_range
