-- ===== src/Mmu/Infos.antt =====
-- What the hypervisor remembers of second-level page tables (src/memoryManager/pageTableInfo.c, and
-- `deleteLevelTwoPageTable` and `isAddrInPageTable` of src/memoryManager/pageTable.c): three lists,
-- for the hypervisor's tables, the shadow tables and the guest's. A linked list is a list in its
-- order, and `freed` has the tables given to `free`, the latest first.
use hyparm.Common.{ℕ, Bool, not, ◌==◌, if◌then◌else◌, Option, none, some, List, [], ◌∷◌, ◌++◌}

pub record PtInfo : Type 0 where
  pub first_level_entry : ℕ
  pub virt_addr : ℕ
  pub phys_addr : ℕ
  pub mapped_megabyte : ℕ
  pub host : Bool

pub record PageTables : Type 0 where
  pub hpt_info : List PtInfo
  pub spt_info : List PtInfo
  pub gpt_info : List PtInfo
  pub virt_addr_enabled : Bool
  pub freed : List ℕ

-- `addPageTableInfo`
unfoldable pub add_page_table_info :
    PageTables → (entry virtual physical mapped : ℕ) → Bool → PageTables
add_page_table_info tables entry virtual physical mapped host =
    let new_entry =
      record {
        first_level_entry = entry;
        virt_addr = virtual;
        phys_addr = physical;
        mapped_megabyte = mapped;
        host = host;
      }
      ∷ [] in
    if not tables.virt_addr_enabled
    then record tables { hpt_info = tables.hpt_info ++ new_entry }
    else if host
    then record tables { spt_info = tables.spt_info ++ new_entry }
    else record tables { gpt_info = tables.gpt_info ++ new_entry }

-- One of the three loops of `getPageTableInfo`.
unfoldable pub find_info : List PtInfo → ℕ → Option PtInfo
find_info [] entry = none
find_info (head ∷ rest) entry =
    let later = find_info rest entry in if head.first_level_entry == entry then some head else later

unfoldable pub or_else : Option PtInfo → Option PtInfo → Option PtInfo
or_else none second = second
or_else (some head) second = some head

unfoldable pub get_page_table_info : PageTables → ℕ → Option PtInfo
unfolding find_info or_else
get_page_table_info tables entry =
    or_else (find_info tables.hpt_info entry)
      (or_else (find_info tables.spt_info entry) (find_info tables.gpt_info entry))

-- The loop of `removePageTableInfo` and of `deleteLevelTwoPageTable`: the list without the first
-- element that matches, and that element.
unfoldable pub unlink : List PtInfo → ℕ → List PtInfo × Option PtInfo
unlink [] entry = ([], none)
unlink (head ∷ rest) entry =
    let (kept, found) = unlink rest entry in
    if head.first_level_entry == entry then (rest, some head) else (head ∷ kept, found)

unfoldable pub free_table : Option PtInfo → List ℕ → List ℕ
free_table none freed = freed
free_table (some info) freed = info.virt_addr ∷ freed

unfoldable pub remove_page_table_info : PageTables → ℕ → Bool → PageTables
unfolding unlink free_table
remove_page_table_info tables entry host =
    if host
    then (let (kept, found) = unlink tables.spt_info entry in
        record tables { spt_info = kept; freed = free_table found tables.freed })
    else (let (kept, found) = unlink tables.gpt_info entry in record tables { gpt_info = kept })

-- A pointer to an entry that is found has the entry's word, so the second test of the loop always
-- agrees with the first.
unfoldable pub delete_level_two_page_table : PageTables → ℕ → PageTables
unfolding unlink free_table
delete_level_two_page_table tables entry =
    let (kept, found) = unlink tables.spt_info entry in
    record tables { spt_info = kept; freed = free_table found tables.freed }

unfoldable pub free_all : List PtInfo → List ℕ → List ℕ
free_all [] freed = freed
free_all (head ∷ rest) freed = free_all rest (head.virt_addr ∷ freed)

unfoldable pub invalidate_page_table_info : PageTables → PageTables
unfolding free_all
invalidate_page_table_info tables = record tables {
  spt_info = [];
  gpt_info = [];
  freed = free_all tables.spt_info tables.freed;
}
