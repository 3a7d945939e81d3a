-- ===== src/Mmu/Places.antt =====
-- Where the entries of an address are: the masks and shifts of `getEntryFirst` and of the two checks
-- in arithmetic (src/memoryManager/pageTable.c, memoryProtection.c).
use hyparm.Common.{ℕ, ◌+◌, ◌-◌, ◌*◌, ◌/◌, ◌%◌, ◌^◌, ◌<◌, ◌≡◌, arith, bit_and, bit_or}
use hyparm.Bits.{bit_and_high, bit_or_low, bit_or-comm_word, bit_and_mask}
use hyparm.Mmu.Entries.{field, get_entry_first}
use hyparm.Mmu.Protection.{second_entry_address}

-- The first-level entry of an address is at its megabyte's place in the table.
pub get_entry_first_lem :
    (page_table virt_addr : ℕ)
    → page_table < 2 ^ 32
    → virt_addr < 2 ^ 32
    → get_entry_first page_table virt_addr ≡ page_table / 2 ^ 14 * 2 ^ 14 + virt_addr / 2 ^ 20 * 4
unfolding get_entry_first
get_entry_first_lem page_table virt_addr hp hv =
    let base = bit_and_high 14 page_table (2 ^ 18 - 1) in
    let top = bit_and_high 20 virt_addr (2 ^ 12 - 1) in
    let low = bit_or_low 14 (page_table / 2 ^ 14) (virt_addr / 2 ^ 20 * 4) (omega arith) in
    let own_base : bit_and page_table 0xffff_c000 ≡ page_table / 2 ^ 14 * 2 ^ 14 =
      omega (arith, base, bit_and_mask 18 (page_table / 2 ^ 14)) in
    let index : bit_and virt_addr 0xfff0_0000 / 2 ^ 18 ≡ virt_addr / 2 ^ 20 * 4 =
      omega (arith, top, bit_and_mask 12 (virt_addr / 2 ^ 20)) in
    rw (index, own_base)
      (omega (
        arith,
        low,
        bit_or-comm_word (virt_addr / 2 ^ 20 * 4) (page_table / 2 ^ 14 * 2 ^ 14) (omega arith)
            (omega arith),
      ))

-- The second-level entry is at its page's place in the table that the first-level entry names.
pub second_entry_address_lem :
    (guest_first address : ℕ)
    → guest_first < 2 ^ 32
    → second_entry_address guest_first address
      ≡ guest_first / 2 ^ 10 * 2 ^ 10 + address / 2 ^ 12 % 2 ^ 8 * 4
unfolding second_entry_address
second_entry_address_lem guest_first address h =
    let top = bit_and_high 12 address (2 ^ 8 - 1) in
    let index : bit_and address 0x000f_f000 / 2 ^ 10 ≡ address / 2 ^ 12 % 2 ^ 8 * 4 =
      omega (arith, top, bit_and_mask 8 (address / 2 ^ 12)) in
    let own : field 10 22 guest_first ≡ guest_first / 2 ^ 10 = omega arith in
    rw (index, own)
      (bit_or_low 10 (guest_first / 2 ^ 10) (address / 2 ^ 12 % 2 ^ 8 * 4) (omega arith))

-- The permission bits as one number.
pub permission_number :
    (ap10 ap2 : ℕ) → ap10 < 4 → ap2 < 2 → bit_or ap10 (ap2 * 2 ^ 2) ≡ ap2 * 4 + ap10
permission_number ap10 ap2 h k =
    omega
      (arith, bit_or_low 2 ap2 ap10 h, bit_or-comm_word ap10 (ap2 * 4) (omega arith) (omega arith))
