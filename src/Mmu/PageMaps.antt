-- ===== src/Mmu/PageMaps.antt =====
-- The look-up in a second-level table, and that a page that `mapSmallPage` maps is where
-- `getPhysicalAddress` looks.
use hyparm.Common.{
  ℕ, ◌+◌, ◌-◌, ◌*◌, ◌/◌, ◌%◌, ◌^◌, ◌≤◌, ◌<◌, ◌≡◌, ◌≢◌, refl, arith, bit_and, Bool, true, false,
  ◌==◌, some,
}
use hyparm.Common.{ok, Returns}
use hyparm.Bits.{bit_or_low, bit_and_high, bit_and_mask}
use hyparm.Memory.{update_self, update_ne}
use hyparm.Mmu.Entries.{get_entry_first}
use hyparm.Mmu.Infos.{PtInfo, get_page_table_info}
use hyparm.Mmu.Building.{Attributes, add_small_page_entry, add_small_page_entry_lem}
use hyparm.Mmu.Space.{
  Space, entry_of_info, get_entry_second, map_if, physical_of_second, physical_of_first,
  get_physical_address,
}
use hyparm.Mmu.Mapping.{with_word, need_page_table, map_small_page}
use hyparm.Mmu.SectionMaps.{same_megabyte}

-- The entry of a page in a table at `base`.
abbrev pub page_entry : ℕ → ℕ → ℕ
page_entry base virt_addr = base + virt_addr / 2 ^ 12 % 2 ^ 8 * 4

-- The first-level entry of the address is a second-level table that the hypervisor knows: its
-- metadata is of a host table, aligned as `newLevelTwoPageTable` does, apart from the entry itself.
abbrev pub HasTable : Space → (entry base : ℕ) → Type 0
HasTable space entry base =
    (space.words entry % 4 ≡ 1)
    × ((info : PtInfo) × (get_page_table_info space.page_tables entry ≡ some info)
        × (info.host ≡ true)
        × (info.virt_addr ≡ base))
    × (base % 2 ^ 10 ≡ 0)
    × (base < 2 ^ 32)

pub get_entry_second_lem :
    (space : Space) (entry base virt_addr : ℕ)
    → HasTable space entry base
    → get_entry_second space entry virt_addr ≡ ok (page_entry base virt_addr)
unfolding get_entry_second entry_of_info
get_entry_second_lem space entry base virt_addr (kind, (info, found, host, own), aligned, small) =
    let top = bit_and_high 12 virt_addr (2 ^ 8 - 1) in
    let index : bit_and virt_addr 0x000f_f000 / 2 ^ 10 ≡ virt_addr / 2 ^ 12 % 2 ^ 8 * 4 =
      omega (arith, top, bit_and_mask 8 (virt_addr / 2 ^ 12)) in
    let whole : base / 2 ^ 10 * 2 ^ 10 ≡ base = omega arith in
    let low = bit_or_low 10 (base / 2 ^ 10) (virt_addr / 2 ^ 12 % 2 ^ 8 * 4) (omega arith) in
    rw (found, host, own, index, rw whole at low)

module _ (shadow_map : Space → ℕ → Bool × Space) where
  pub physical_of_second-large :
      (space : Space) (second address word : ℕ)
      → space.words second ≡ word
      → word % 4 ≡ 1
      → word < 2 ^ 32
      → physical_of_second shadow_map space second address
        ≡ ok (word / 2 ^ 16 * 2 ^ 16 + address % 2 ^ 16, space)
  unfolding physical_of_second
  physical_of_second-large space second address word at kind small =
      let own : word / 2 ^ 16 % 2 ^ 16 ≡ word / 2 ^ 16 = omega arith in
      rw (at, kind, own, bit_or_low 16 (word / 2 ^ 16) (address % 2 ^ 16) (omega arith))

  physical_of_second-small :
      (space : Space) (second address word : ℕ)
      → space.words second ≡ word
      → 2 ≤ word % 4
      → word < 2 ^ 32
      → physical_of_second shadow_map space second address
        ≡ ok (word / 2 ^ 12 * 2 ^ 12 + address % 2 ^ 12, space)
  unfolding physical_of_second
  physical_of_second-small space second address word at kind small =
      let own : word / 2 ^ 12 % 2 ^ 20 ≡ word / 2 ^ 12 = omega arith in
      let present : (word % 4 == 0) ≡ false = ground arith in
      let not_large : (word % 4 == 1) ≡ false = ground arith in
      rw (
        at,
        present,
        not_large,
        own,
        bit_or_low 12 (word / 2 ^ 12) (address % 2 ^ 12) (omega arith),
      )

  physical_of_first-table :
      (space : Space) (entry base address : ℕ)
      → HasTable space entry base
      → physical_of_first shadow_map space entry address
        ≡ physical_of_second shadow_map space (page_entry base address) address
  unfolding physical_of_first
  physical_of_first-table space entry base address h =
      rw (h.0, get_entry_second_lem space entry base address h)

  -- With a second-level table, the look-up is in it.
  pub get_physical_address-table :
      (space : Space) (table base address : ℕ)
      → HasTable space (get_entry_first table address) base
      → get_physical_address shadow_map space table address
        ≡ physical_of_second shadow_map space (page_entry base address) address
  unfolding get_physical_address map_if
  get_physical_address-table space table base address h =
      let present : (space.words (get_entry_first table address) % 4 == 0) ≡ false =
        ground (arith, h.0) in
      rw present (physical_of_first-table space (get_entry_first table address) base address h)

module _ (memalign : ℕ → ℕ) (shadow_map : Space → ℕ → Bool × Space) where
  pub need_page_table-HasTable :
      (space : Space) (table base virt_addr domain : ℕ)
      → HasTable space (get_entry_first table virt_addr) base
      → need_page_table memalign shadow_map space table virt_addr domain ≡ ok space
  unfolding need_page_table
  need_page_table-HasTable space table base virt_addr domain h = rw (h.0)

  -- A word of the table is assigned, and it is still the table of the megabyte.
  HasTable-with_word :
      (space : Space) (entry base second word : ℕ)
      → second ≢ entry
      → HasTable space entry base
      → HasTable (with_word space second word) entry base
  HasTable-with_word space entry base second word apart (kind, known, aligned, small) =
      (rw (update_ne space.words second word entry apart) kind, known, aligned, small)

  -- `mapSmallPage` in a megabyte that has a second-level table (`HasTable`) returns, and each
  -- address of the page is then translated to the same place of the physical page. Each word but the
  -- page's entry stays as it was. The addresses are 32-bit values, and the first-level entry is not
  -- a word of the second-level table.
  pub map_small_page_lem :
      (space : Space) (table base virt_addr physical : ℕ) (attributes : Attributes)
      → table < 2 ^ 32
      → virt_addr < 2 ^ 32
      → physical < 2 ^ 32
      → let entry = get_entry_first table virt_addr in
        HasTable space entry base
        → page_entry base virt_addr ≢ entry
        → Returns
            (map_small_page memalign shadow_map space table virt_addr physical attributes)
            λ mapped.
              ((address : ℕ)
                → address < 2 ^ 32
                → address / 2 ^ 12 ≡ virt_addr / 2 ^ 12
                → get_physical_address shadow_map mapped table address
                  ≡ ok (physical / 2 ^ 12 * 2 ^ 12 + address % 2 ^ 12, mapped))
              × ((other : ℕ)
                  → page_entry base virt_addr ≢ other
                  → mapped.words other ≡ space.words other)
  unfolding map_small_page
  map_small_page_lem space table base virt_addr physical attributes ht hv hp h apart =
      let entry = get_entry_first table virt_addr in
      let second = page_entry base virt_addr in
      let word = add_small_page_entry physical attributes in
      let mapped = with_word space second word in
      let (small, kind, ap10, ap2, place) = add_small_page_entry_lem attributes physical in
      let page : word / 2 ^ 12 ≡ physical / 2 ^ 12 = omega arith in
      let tabled = HasTable-with_word space entry base second word apart h in
      let translates : (address : ℕ)
          → address < 2 ^ 32
          → address / 2 ^ 12 ≡ virt_addr / 2 ^ 12
          → get_physical_address shadow_map mapped table address
            ≡ ok (physical / 2 ^ 12 * 2 ^ 12 + address % 2 ^ 12, mapped) =
        λ address ha same.
          let mega = same_megabyte table virt_addr address ht hv ha (omega arith) in
          let known : HasTable mapped (get_entry_first table address) base = rw mega tabled in
          let here : mapped.words (page_entry base address) ≡ word =
            rw same (update_self space.words second word) in
          rw (get_physical_address-table shadow_map mapped table base address known, ← page)
            (physical_of_second-small shadow_map mapped (page_entry base address) address word here
              (omega arith) small) in
      rw
        (
          need_page_table-HasTable space table base virt_addr attributes.domain h,
          get_entry_second_lem space entry base virt_addr h,
        )
        (mapped, refl, (translates, λ other ne. update_ne space.words second word other ne))
