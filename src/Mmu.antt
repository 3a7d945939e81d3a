-- ===== src/Mmu.antt =====
-- The memory management unit as the hypervisor sees it: page table entries, and the check of the
-- guest's own tables that decides which aborts it is given (src/memoryManager).
pub mod Entries
pub mod Protection
pub mod Rights
pub mod Places
pub mod Faults
pub mod Infos
pub mod InfoLaws
pub mod Building
pub mod Space
pub mod Mapping
pub mod SectionMaps
pub mod PageMaps
pub mod LargeMaps
pub mod Regions
pub mod RegionLaws
pub mod WriteProtect
pub mod OnePage
pub mod ProtectedPages
pub mod Sample
mod Examples
pub mod Shadow
