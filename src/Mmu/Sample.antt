-- ===== src/Mmu/Sample.antt =====
-- An address space of the hypervisor (src/memoryManager) for the examples.
use hyparm.Common.{true, [], ◌∷◌, ◌==◌, if◌then◌else◌}
use hyparm.Mmu.Infos.{PageTables}
use hyparm.Mmu.InfoLaws.{info_of}
use hyparm.Mmu.Space.{Space}

-- The hypervisor's: a table at 0x4000, whose entry for the first megabyte, at 0x4000, is a
-- second-level table at 0x8000, known as a host table.
abbrev pub no_tables : PageTables
no_tables = record {
  hpt_info = [];
  spt_info = [];
  gpt_info = [];
  virt_addr_enabled = true;
  freed = [];
}

abbrev pub known_tables : PageTables
known_tables = record no_tables { spt_info = info_of 0x4000 0x8000 0x8000 0 true ∷ [] }

abbrev pub host_space : Space
host_space = record {
  words = λ a. if a == 0x4000 then 0x8009 else if a == 0x8004 then 0x0001_1032 else 0;
  page_tables = known_tables;
  allocations = 0;
}
