-- ===== src/Mmu/SectionMaps.antt =====
-- A section that `mapSection` maps is where `getPhysicalAddress` looks.
use hyparm.Common.{ℕ, ◌+◌, ◌*◌, ◌/◌, ◌%◌, ◌^◌, ◌<◌, ◌≡◌, ◌≢◌, refl, arith, Bool, ◌⊎◌, inl, inr}
use hyparm.Common.{ok, Returns}
use hyparm.Bits.{bit_or_low}
use hyparm.Memory.{update_self, update_ne}
use hyparm.Mmu.Entries.{get_entry_first}
use hyparm.Mmu.Building.{Attributes, add_section_entry, add_section_entry_lem}
use hyparm.Mmu.Space.{Space, map_if, physical_of_first, get_physical_address}
use hyparm.Mmu.Mapping.{with_word, map_section}
use hyparm.Mmu.Places.{get_entry_first_lem}

-- One entry for the megabyte.
pub same_megabyte :
    (table virt_addr address : ℕ)
    → table < 2 ^ 32
    → virt_addr < 2 ^ 32
    → address < 2 ^ 32
    → address / 2 ^ 20 ≡ virt_addr / 2 ^ 20
    → get_entry_first table address ≡ get_entry_first table virt_addr
same_megabyte table virt_addr address ht hv ha same =
    rw (get_entry_first_lem table virt_addr ht hv, get_entry_first_lem table address ht ha, same)

module _ (shadow_map : Space → ℕ → Bool × Space) where
  physical_of_first-section :
      (space : Space) (entry address word : ℕ)
      → space.words entry ≡ word
      → word % 4 ≡ 2
      → word / 2 ^ 18 % 2 ≡ 0
      → word < 2 ^ 32
      → physical_of_first shadow_map space entry address
        ≡ ok (word / 2 ^ 20 * 2 ^ 20 + address % 2 ^ 20, space)
  unfolding physical_of_first
  physical_of_first-section space entry address word at kind normal small =
      let own : word / 2 ^ 20 % 2 ^ 12 ≡ word / 2 ^ 20 = omega arith in
      rw (at, kind, normal, own, bit_or_low 20 (word / 2 ^ 20) (address % 2 ^ 20) (omega arith))

  -- A section entry, read.
  pub get_physical_address-section :
      (space : Space) (table address word : ℕ)
      → space.words (get_entry_first table address) ≡ word
      → word % 4 ≡ 2
      → word / 2 ^ 18 % 2 ≡ 0
      → word < 2 ^ 32
      → get_physical_address shadow_map space table address
        ≡ ok (word / 2 ^ 20 * 2 ^ 20 + address % 2 ^ 20, space)
  unfolding get_physical_address map_if
  get_physical_address-section space table address word at kind normal small =
      rw (at, kind)
        (physical_of_first-section space (get_entry_first table address) address word at kind normal
          small)

  -- `mapSection` on an entry that is a fault or a section returns, and each address of that megabyte
  -- is then translated to the same place of the physical megabyte, without shadow mapping. Each
  -- other word stays as it was. The addresses are 32-bit values.
  pub map_section_lem :
      (space : Space) (table virt_addr physical : ℕ) (attributes : Attributes)
      → table < 2 ^ 32
      → virt_addr < 2 ^ 32
      → physical < 2 ^ 32
      → let entry = get_entry_first table virt_addr in
        (space.words entry % 4 ≡ 0) ⊎ (space.words entry % 4 ≡ 2)
        → Returns (map_section space table virt_addr physical attributes) λ mapped.
          ((address : ℕ)
            → address < 2 ^ 32
            → address / 2 ^ 20 ≡ virt_addr / 2 ^ 20
            → get_physical_address shadow_map mapped table address
              ≡ ok (physical / 2 ^ 20 * 2 ^ 20 + address % 2 ^ 20, mapped))
          × ((other : ℕ) → entry ≢ other → mapped.words other ≡ space.words other)
  unfolding map_section
  map_section_lem space table virt_addr physical attributes ht hv hp free =
      let entry = get_entry_first table virt_addr in
      let word = add_section_entry physical attributes in
      let mapped = with_word space entry word in
      let (small, kind, domain, ap10, ap2, normal, base) =
        add_section_entry_lem attributes physical in
      let place : word / 2 ^ 20 ≡ physical / 2 ^ 20 = omega arith in
      let translates : (address : ℕ)
          → address < 2 ^ 32
          → address / 2 ^ 20 ≡ virt_addr / 2 ^ 20
          → get_physical_address shadow_map mapped table address
            ≡ ok (physical / 2 ^ 20 * 2 ^ 20 + address % 2 ^ 20, mapped) =
        λ address ha same.
          let here : mapped.words (get_entry_first table address) ≡ word =
            rw (same_megabyte table virt_addr address ht hv ha same)
              (update_self space.words entry word) in
          rw place at
            (get_physical_address-section mapped table address word here kind normal small) in
      let others = λ (other : ℕ) (ne : entry ≢ other). update_ne space.words entry word other ne in
      elim free [
        | inl e ↦ rw e (mapped, refl, (translates, others))
        | inr e ↦ rw e (mapped, refl, (translates, others))
      ]
