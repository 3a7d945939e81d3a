-- ===== src/Mmu/Building.antt =====
-- The words of new page table entries (src/memoryManager/pageTable.c: `addSectionEntry`,
-- `addSmallPageEntry`, `addLargePageEntry`, `addPageTableEntry`). Each assigns all bit-fields of the
-- word, but `addLargePageEntry`, which leaves bits 6 to 8 as they were.
use hyparm.Common.{
  ℕ, ◌+◌, ◌*◌, ◌/◌, ◌%◌, ◌^◌, ◌<◌, ◌≡◌, arith, bit_and, Bool, true, false, if◌then◌else◌,
}
use hyparm.Bits.{bit_and_mask}
use hyparm.Mmu.Entries.{field}

-- `cacheable ? 1 : 0`
abbrev pub one_if : Bool → ℕ
one_if b = if b then 1 else 0

-- The attributes that the mapping functions hand down.
pub record Attributes : Type 0 where
  pub domain : ℕ
  pub access_bits : ℕ
  pub cacheable : Bool
  pub bufferable : Bool
  pub tex : ℕ
  pub execute_never : Bool

unfoldable pub add_section_entry : (phys_addr : ℕ) → Attributes → ℕ
add_section_entry phys_addr a =
    2
    + one_if a.bufferable * 2 ^ 2
    + one_if a.cacheable * 2 ^ 3
    + one_if a.execute_never * 2 ^ 4
    + a.domain % 2 ^ 4 * 2 ^ 5
    + bit_and a.access_bits 3 * 2 ^ 10
    + bit_and a.tex 7 * 2 ^ 12
    + a.access_bits / 2 ^ 2 % 2 * 2 ^ 15
    + 1 * 2 ^ 19
    + phys_addr / 2 ^ 20 % 2 ^ 12 * 2 ^ 20

unfoldable pub add_small_page_entry : (physical : ℕ) → Attributes → ℕ
add_small_page_entry physical a =
    one_if a.execute_never
    + 1 * 2 ^ 1
    + one_if a.bufferable * 2 ^ 2
    + one_if a.cacheable * 2 ^ 3
    + bit_and a.access_bits 3 * 2 ^ 4
    + bit_and a.tex 7 * 2 ^ 6
    + a.access_bits / 2 ^ 2 % 2 * 2 ^ 9
    + physical / 2 ^ 12 % 2 ^ 20 * 2 ^ 12

unfoldable pub add_large_page_entry : (entry physical : ℕ) → Attributes → ℕ
add_large_page_entry entry physical a =
    1
    + one_if a.bufferable * 2 ^ 2
    + one_if a.cacheable * 2 ^ 3
    + bit_and a.access_bits 3 * 2 ^ 4
    + field 6 3 entry * 2 ^ 6
    + a.access_bits / 2 ^ 2 % 2 * 2 ^ 9
    + bit_and a.tex 7 * 2 ^ 12
    + one_if a.execute_never * 2 ^ 15
    + physical / 2 ^ 16 % 2 ^ 16 * 2 ^ 16

unfoldable pub add_page_table_entry : (physical domain : ℕ) → ℕ
add_page_table_entry physical domain =
    1 + 1 * 2 ^ 3 + domain % 2 ^ 4 * 2 ^ 5 + physical / 2 ^ 10 % 2 ^ 22 * 2 ^ 10

one_if-le : (b : Bool) → one_if b < 2
one_if-le true = omega arith
one_if-le false = omega arith

-- What the attributes put into a word.
module _ (a : Attributes) where
  parts :
      (bit_and a.access_bits 3 ≡ a.access_bits % 4)
      × (bit_and a.tex 7 ≡ a.tex % 8)
      × (one_if a.cacheable < 2)
      × (one_if a.bufferable < 2)
      × (one_if a.execute_never < 2)
  parts = (
    bit_and_mask 2 a.access_bits,
    bit_and_mask 3 a.tex,
    one_if-le a.cacheable,
    one_if-le a.bufferable,
    one_if-le a.execute_never,
  )

  -- The fields that a section's word is read by: its type, domain, permissions and address.
  pub add_section_entry_lem :
      (phys_addr : ℕ)
      → let word = add_section_entry phys_addr a in
        (word < 2 ^ 32)
        × (word % 4 ≡ 2)
        × (word / 2 ^ 5 % 2 ^ 4 ≡ a.domain % 2 ^ 4)
        × (word / 2 ^ 10 % 4 ≡ a.access_bits % 4)
        × (word / 2 ^ 15 % 2 ≡ a.access_bits / 4 % 2)
        × (word / 2 ^ 18 % 2 ≡ 0)
        × (word / 2 ^ 20 ≡ phys_addr / 2 ^ 20 % 2 ^ 12)
  unfolding add_section_entry
  add_section_entry_lem phys_addr =
      let (access, attributes, c, b, xn) = parts in
      rw (access, attributes)
        (omega arith, omega arith, omega arith, omega arith, omega arith, omega arith, omega arith)

  pub add_small_page_entry_lem :
      (physical : ℕ)
      → let word = add_small_page_entry physical a in
        (word < 2 ^ 32)
        × (word % 4 ≡ 2 + one_if a.execute_never)
        × (word / 2 ^ 4 % 4 ≡ a.access_bits % 4)
        × (word / 2 ^ 9 % 2 ≡ a.access_bits / 4 % 2)
        × (word / 2 ^ 12 ≡ physical / 2 ^ 12 % 2 ^ 20)
  unfolding add_small_page_entry
  add_small_page_entry_lem physical =
      let (access, attributes, c, b, xn) = parts in
      rw (access, attributes) (omega arith, omega arith, omega arith, omega arith, omega arith)

  pub add_large_page_entry_lem :
      (entry physical : ℕ)
      → let word = add_large_page_entry entry physical a in
        (word < 2 ^ 32)
        × (word % 4 ≡ 1)
        × (word / 2 ^ 4 % 4 ≡ a.access_bits % 4)
        × (word / 2 ^ 9 % 2 ≡ a.access_bits / 4 % 2)
        × (word / 2 ^ 16 ≡ physical / 2 ^ 16 % 2 ^ 16)
  unfolding add_large_page_entry
  add_large_page_entry_lem entry physical =
      let (access, attributes, c, b, xn) = parts in
      rw (access, attributes) (omega arith, omega arith, omega arith, omega arith, omega arith)

pub add_page_table_entry_lem :
    (physical domain : ℕ)
    → let word = add_page_table_entry physical domain in
      (word < 2 ^ 32)
      × (word % 4 ≡ 1)
      × (word / 2 ^ 5 % 2 ^ 4 ≡ domain % 2 ^ 4)
      × (word / 2 ^ 10 ≡ physical / 2 ^ 10 % 2 ^ 22)
unfolding add_page_table_entry
add_page_table_entry_lem physical domain = (omega arith, omega arith, omega arith, omega arith)
