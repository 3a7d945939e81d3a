-- ===== src/Mmu/Examples.antt =====
-- The theorems on page tables at concrete tables.
use hyparm.Common.{
  ℕ, ◌+◌, ◌*◌, ◌/◌, ◌%◌, ◌^◌, ◌≤◌, ◌<◌, ◌≡◌, ◌≢◌, refl, arith, Bool, true, false, ◌==◌, ◌&&◌,
  if◌then◌else◌, List,
}
use hyparm.Common.{ok, ◌>>=◌, Returns}
use hyparm.Memory.{Memory}
use hyparm.Cpu.State.{GuestContext}
use hyparm.Cpu.Modes.{is_guest_in_priv_mode}
use hyparm.Mmu.Rights.{may}
use hyparm.Mmu.Shadow.{shadow_may, map_access_permission_bits, map_access_permission_bits_lem}
use hyparm.Cpu.Sample.{user}
use hyparm.Cpu.Exceptions.{throw_data_abort, throw_prefetch_abort}
use hyparm.Mmu.Entries.{get_entry_first}
use hyparm.Mmu.Protection.{
  Tables, Mmu, mmu_set_ttbr0, should_data_abort, should_prefetch_abort, cp15_dacr,
}
use hyparm.Mmu.Faults.{should_data_abort_lem, should_prefetch_abort_lem}
use hyparm.Mmu.Infos.{get_page_table_info}
use hyparm.Mmu.InfoLaws.{info_of}
use hyparm.Mmu.Building.{Attributes}
use hyparm.Mmu.Sample.{host_space}
use hyparm.Mmu.Space.{Space, get_physical_address}
use hyparm.Mmu.Mapping.{map_small_page}
use hyparm.Mmu.PageMaps.{HasTable, page_entry, map_small_page_lem}
use hyparm.Mmu.Regions.{map_unit, map_region}
use hyparm.Mmu.RegionLaws.{Piece, Tiles, map_pieces, map_region_lem}
use hyparm.Mmu.WriteProtect.{write_protect_range}
use hyparm.Mmu.OnePage.{slot, Protected}
use hyparm.Mmu.ProtectedPages.{write_protect_range_lem}

-- The guest's tables: at 0x8000_4000 the first level, where 0x1234_5678 has a second-level table at
-- 0x9000_0000 in domain 1, and there a page that user mode can only read.
abbrev guest_memory : Memory ℕ
guest_memory a =
    if a == 0x8000_448c then 0x9000_0021 else if a == 0x9000_0114 then 0x8765_4022 else 0

guest_memory-word : (a : ℕ) → guest_memory a < 2 ^ 32
guest_memory-word a = ground arith

abbrev guest_tables : Tables
guest_tables = record {
  guest_physical = 0x8000_4000;
  hypervisor_page_table = 0x8100_0000;
  context_id = 1;
}

abbrev host_mmu : Mmu
host_mmu = record { ttbr0 = 0x8200_0000; asid = 0x101 }

-- A client of domain 1.
abbrev client : GuestContext
client = record user { coproc_reg_bank = λ n. if n == cp15_dacr then 4 else 0 }

should_data_abort_lem_example :
    should_data_abort guest_memory guest_tables host_mmu client false true 0x1234_5678
    ≡ ok (
      true,
      throw_data_abort client 0x1234_5678 0xf true 1,
      record { ttbr0 = 0x8200_0000; asid = 0x101 },
    )
unfolding mmu_set_ttbr0
should_data_abort_lem_example =
    should_data_abort_lem guest_memory guest_tables host_mmu client false true 0x1234_5678
      guest_memory-word (omega arith) (omega arith)

should_prefetch_abort_lem_example :
    should_prefetch_abort guest_memory guest_tables host_mmu client false 0x1230_0000
    ≡ ok (
      true,
      throw_prefetch_abort client 0x1230_0000 7,
      record { ttbr0 = 0x8200_0000; asid = 0x101 },
    )
unfolding mmu_set_ttbr0
should_prefetch_abort_lem_example =
    should_prefetch_abort_lem guest_memory guest_tables host_mmu client false 0x1230_0000
      guest_memory-word (omega arith) (omega arith)

abbrev allocator : ℕ → ℕ
allocator n = 0xc000 + n * 0x400

abbrev no_shadow : Space → ℕ → Bool × Space
no_shadow space address = (false, space)

abbrev read_write : Attributes
read_write = record {
  domain = 15;
  access_bits = 3;
  cacheable = true;
  bufferable = false;
  tex = 0;
  execute_never = true;
}

host_space-HasTable : HasTable host_space (get_entry_first 0x4000 0x1000) 0x8000
unfolding get_page_table_info get_entry_first
host_space-HasTable =
    (refl, (info_of 0x4000 0x8000 0x8000 0 true, refl, refl, refl), refl, omega arith)

map_small_page_lem_example :
    Returns
      (map_small_page allocator no_shadow host_space 0x4000 0x1000 0x8000_2000 read_write)
      λ mapped.
        ((address : ℕ)
          → address < 2 ^ 32
          → address / 2 ^ 12 ≡ 0x1000 / 2 ^ 12
          → get_physical_address no_shadow mapped 0x4000 address
            ≡ ok (0x8000_2000 / 2 ^ 12 * 2 ^ 12 + address % 2 ^ 12, mapped))
        × ((other : ℕ)
            → page_entry 0x8000 0x1000 ≢ other
            → mapped.words other ≡ host_space.words other)
unfolding get_entry_first
map_small_page_lem_example =
    map_small_page_lem allocator no_shadow host_space 0x4000 0x8000 0x1000 0x8000_2000 read_write
      (omega arith) (omega arith) (omega arith) host_space-HasTable (omega arith)

sixteen_free : (i : ℕ) → i < 16 → host_space.words (page_entry 0x8000 0x2_0000 + 4 * i) % 4 ≡ 0
sixteen_free i lt = ground arith

sixteen_apart :
    (i : ℕ) → i < 16 → page_entry 0x8000 0x2_0000 + 4 * i ≢ get_entry_first 0x4000 0x2_0000
unfolding get_entry_first
sixteen_apart i lt = omega arith

map_region_lem_example :
    (stop : ℕ) × (pieces : List Piece) × Tiles 0x1000 0x1000 stop pieces
    × (0x11_2345 ≤ stop)
    × (0x1000 ≤ 0x11_2345 → stop < 0x11_2345 + 0x1000)
    × (map_region allocator no_shadow host_space 0x4000 0x1000 0x1000 0x11_2345 read_write ≡ (
        map_pieces (map_unit allocator no_shadow 0x4000 read_write) host_space pieces
        >>= λ (mapped : Space). ok (stop, mapped)))
map_region_lem_example =
    map_region_lem allocator no_shadow host_space 0x4000 0x1000 0x1000 0x11_2345 read_write refl
      (omega arith)

slot-apart : (k : ℕ) → slot 0x8000 k ≢ get_entry_first 0x4000 0x1000
unfolding get_entry_first
slot-apart k = omega arith

no_large_pages :
    (k : ℕ) → 0x1000 / 2 ^ 12 ≤ k → k ≤ 0x2fff / 2 ^ 12 → host_space.words (slot 0x8000 k) % 4 ≢ 1
no_large_pages k lo hi = ground arith

write_protect_range_lem_example :
    Returns
      (write_protect_range allocator no_shadow host_space 0x4000 0x1000 0x2fff)
      (Protected 0x8000 (0x1000 / 2 ^ 12) (0x2fff / 2 ^ 12) host_space)
write_protect_range_lem_example =
    write_protect_range_lem allocator no_shadow 0x4000 0x1000 0x2fff 0x8000 host_space
      host_space-HasTable slot-apart (omega arith) (omega arith) refl no_large_pages

map_access_permission_bits_lem_example :
    Returns (map_access_permission_bits client 5 1) λ shadow_ap. shadow_may true shadow_ap ≡ (
      if 5 == 6 && is_guest_in_priv_mode client && true
      then true
      else may (is_guest_in_priv_mode client) true (5 % 4) (5 / 4))
map_access_permission_bits_lem_example =
    map_access_permission_bits_lem client 5 1 true (omega arith) (omega arith) refl
