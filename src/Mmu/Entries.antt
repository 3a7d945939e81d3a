-- ===== src/Mmu/Entries.antt =====
-- Page table entries as the words that they are (src/memoryManager/pageTable.h): a bit-field is
-- read and assigned at its place. A first-level table has 4096 words of four bytes from its base,
-- and a second-level table has 256.
use hyparm.Common.{ℕ, ◌*◌, ◌/◌, ◌%◌, ◌^◌, bit_and, bit_or}

-- enum PageTableEntryType; the second level has the last three.
abbrev pub fault : ℕ
fault = 0

abbrev pub page_table : ℕ
page_table = 1

abbrev pub section : ℕ
section = 2

abbrev pub reserved : ℕ
reserved = 3

abbrev pub large_page : ℕ
large_page = 1

abbrev pub small_page : ℕ
small_page = 2

abbrev pub small_page_3 : ℕ
small_page_3 = 3

-- enum memAccessCtrl
abbrev pub priv_no_usr_no : ℕ
priv_no_usr_no = 0

abbrev pub priv_rw_usr_no : ℕ
priv_rw_usr_no = 1

abbrev pub priv_rw_usr_ro : ℕ
priv_rw_usr_ro = 2

abbrev pub priv_rw_usr_rw : ℕ
priv_rw_usr_rw = 3

abbrev pub ap_reserved : ℕ
ap_reserved = 4

abbrev pub priv_ro_usr_no : ℕ
priv_ro_usr_no = 5

abbrev pub deprecated : ℕ
deprecated = 6

abbrev pub priv_ro_usr_ro : ℕ
priv_ro_usr_ro = 7

-- The bit-field of `w` bits at place `i`.
abbrev pub field : ℕ → ℕ → ℕ → ℕ
field i w entry = entry / 2 ^ i % 2 ^ w

-- `entry->type`
abbrev pub entry_type : ℕ → ℕ
entry_type entry = entry % 4

abbrev pub entry_domain : ℕ → ℕ
entry_domain entry = field 5 4 entry

-- `entry->ap10 | (entry->ap2 << 2)` of a section and of a small page.
abbrev pub section_permission : ℕ → ℕ
section_permission entry = bit_or (field 10 2 entry) (field 15 1 entry * 2 ^ 2)

abbrev pub page_permission : ℕ → ℕ
page_permission entry = bit_or (field 4 2 entry) (field 9 1 entry * 2 ^ 2)

-- `getEntryFirst`
unfoldable pub get_entry_first : ℕ → ℕ → ℕ
get_entry_first page_table virt_addr =
    let table_index = bit_and virt_addr 0xfff0_0000 / 2 ^ 18 in
    let base_address = bit_and page_table 0xffff_c000 in bit_or table_index base_address
