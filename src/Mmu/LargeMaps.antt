-- ===== src/Mmu/LargeMaps.antt =====
-- A large page that `mapLargePage` maps is where `getPhysicalAddress` looks: all sixteen entries.
use hyparm.Common.{ℕ, zero, suc, ◌+◌, ◌*◌, ◌/◌, ◌%◌, ◌^◌, ◌<◌, ◌≡◌, ◌≢◌, refl, arith, Bool, ◌∙◌}
use hyparm.Common.{ok, Returns}
use hyparm.Memory.{update_self, update_ne}
use hyparm.Mmu.Entries.{get_entry_first}
use hyparm.Mmu.Building.{Attributes, add_large_page_entry, add_large_page_entry_lem}
use hyparm.Mmu.Space.{Space, get_physical_address}
use hyparm.Mmu.Mapping.{with_word, fill_large_page, map_large_page}
use hyparm.Mmu.SectionMaps.{same_megabyte}
use hyparm.Mmu.PageMaps.{
  HasTable, page_entry, get_entry_second_lem, need_page_table-HasTable, physical_of_second-large,
  get_physical_address-table,
}

-- A large page's word for a physical address.
abbrev IsLarge : (physical word : ℕ) → Type 0
IsLarge physical word =
    (word % 4 ≡ 1) × (word / 2 ^ 16 ≡ physical / 2 ^ 16 % 2 ^ 16) × (word < 2 ^ 32)

below_suc :
    (P : ℕ → Type 0) (n : ℕ) → P 0 → ((i : ℕ) → i < n → P (suc i)) → (i : ℕ) → i < suc n → P i
below_suc P n first later zero lt = first
below_suc P n first later (suc i) lt = later i (omega arith)

module _ (physical : ℕ) (attributes : Attributes) where
  -- The words that are filled, and the others.
  abbrev Filled : (left second : ℕ) → (before after : Space) → Type 0
  Filled left second before after =
      ((i : ℕ) → i < left → IsLarge physical (after.words (second + 4 * i)))
      × ((other : ℕ)
          → ((i : ℕ) → i < left → second + 4 * i ≢ other)
          → after.words other ≡ before.words other)
      × (after.page_tables ≡ before.page_tables)

  fill_large_page_lem :
      (left : ℕ) (space : Space) (second : ℕ)
      → ((i : ℕ) → i < left → space.words (second + 4 * i) % 4 ≡ 0)
      → Returns (fill_large_page left space second physical attributes) (Filled left second space)
  unfolding fill_large_page
  fill_large_page_lem zero space second free =
      (space, refl, (λ i lt. absurd (omega arith), λ other apart. refl, refl))
  fill_large_page_lem (suc left) space second free =
      let word = space.words second in
      let new = add_large_page_entry word physical attributes in
      let filled = with_word space second new in
      let (small, kind, ap10, ap2, place) = add_large_page_entry_lem attributes word physical in
      let none_off : second + 4 * 0 ≡ second = omega arith in
      let first_free : word % 4 ≡ 0 = rw none_off at (free 0 (omega arith)) in
      let shift = λ (i : ℕ). (let e : second + 4 + 4 * i ≡ second + 4 * suc i = omega arith in e) in
      let rest_free : (i : ℕ) → i < left → filled.words (second + 4 + 4 * i) % 4 ≡ 0 = λ i lt.
        rw (update_ne space.words second new (second + 4 + 4 * i) (omega arith), shift i)
          (free (suc i) (omega arith)) in
      let (after, returns, (large, others, kept)) =
        fill_large_page_lem left filled (second + 4) rest_free in
      let here : after.words second ≡ new =
        others second (λ i lt. omega arith) ∙ update_self space.words second new in
      let first_large : IsLarge physical (after.words (second + 4 * 0)) =
        rw (none_off, here) (kind, place, small) in
      let all_large =
        below_suc (λ (i : ℕ). IsLarge physical (after.words (second + 4 * i))) left first_large
          (λ i lt. rw (← shift i) (large i lt)) in
      let unchanged : (other : ℕ)
          → ((i : ℕ) → i < suc left → second + 4 * i ≢ other)
          → after.words other ≡ space.words other =
        λ other apart.
          let away : second ≢ other = rw none_off at (apart 0 (omega arith)) in
          others other (λ i lt. rw (shift i) (apart (suc i) (omega arith)))
          ∙ update_ne space.words second new other away in
      rw first_free (after, returns, (all_large, unchanged, kept))

module _ (memalign : ℕ → ℕ) (shadow_map : Space → ℕ → Bool × Space) where
  -- `mapLargePage` in a megabyte that has a second-level table (`HasTable`), at a virtual address of
  -- a multiple of 64 kB whose sixteen entries are faults, returns, and each address of those 64 kB
  -- is then translated to the same place of the physical large page. Each word but the sixteen stays
  -- as it was. The addresses are 32-bit values, and the first-level entry is none of the sixteen.
  pub map_large_page_lem :
      (space : Space) (table base virt_addr physical : ℕ) (attributes : Attributes)
      → table < 2 ^ 32
      → virt_addr < 2 ^ 32
      → physical < 2 ^ 32
      → virt_addr % 2 ^ 16 ≡ 0
      → let entry = get_entry_first table virt_addr in
        let second = page_entry base virt_addr in
        HasTable space entry base
        → ((i : ℕ) → i < 16 → space.words (second + 4 * i) % 4 ≡ 0)
        → ((i : ℕ) → i < 16 → second + 4 * i ≢ entry)
        → Returns
            (map_large_page memalign shadow_map space table virt_addr physical attributes)
            λ mapped.
              ((address : ℕ)
                → address < 2 ^ 32
                → address / 2 ^ 16 ≡ virt_addr / 2 ^ 16
                → get_physical_address shadow_map mapped table address
                  ≡ ok (physical / 2 ^ 16 * 2 ^ 16 + address % 2 ^ 16, mapped))
              × ((other : ℕ)
                  → ((i : ℕ) → i < 16 → second + 4 * i ≢ other)
                  → mapped.words other ≡ space.words other)
  unfolding map_large_page
  map_large_page_lem space table base virt_addr physical attributes ht hv hp aligned h free apart =
      let entry = get_entry_first table virt_addr in
      let second = page_entry base virt_addr in
      let (mapped, returns, (large, others, kept)) =
        fill_large_page_lem physical attributes 16 space second free in
      let tabled : HasTable mapped entry base =
        (rw (others entry apart) h.0, rw kept h.1, h.2, h.3) in
      let translates : (address : ℕ)
          → address < 2 ^ 32
          → address / 2 ^ 16 ≡ virt_addr / 2 ^ 16
          → get_physical_address shadow_map mapped table address
            ≡ ok (physical / 2 ^ 16 * 2 ^ 16 + address % 2 ^ 16, mapped) =
        λ address ha same.
          let mega = same_megabyte table virt_addr address ht hv ha (omega arith) in
          let known : HasTable mapped (get_entry_first table address) base = rw mega tabled in
          let i = address / 2 ^ 12 % 16 in
          let at : page_entry base address ≡ second + 4 * i = omega arith in
          let (kind, place, small) = large i (omega arith) in
          let page : mapped.words (second + 4 * i) / 2 ^ 16 ≡ physical / 2 ^ 16 = omega arith in
          rw (get_physical_address-table shadow_map mapped table base address known, at, ← page)
            (physical_of_second-large shadow_map mapped (second + 4 * i) address
              (mapped.words (second + 4 * i)) refl kind small) in
      rw
        (
          need_page_table-HasTable memalign shadow_map space table base virt_addr attributes.domain
              h,
          get_entry_second_lem space entry base virt_addr h,
        )
        (mapped, returns, (translates, others))
