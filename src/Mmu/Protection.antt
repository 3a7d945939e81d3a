-- ===== src/Mmu/Protection.antt =====
-- The check of a guest access against the guest's own page tables (src/memoryManager/
-- memoryProtection.c): `shouldDataAbort` and `shouldPrefetchAbort`. Memory is read by words, at
-- physical addresses.
use hyparm.Common.{
  ℕ, ◌*◌, ◌/◌, ◌%◌, ◌^◌, bit_and, bit_or, Bool, true, false, not, ◌==◌, ◌!=◌, ◌&&◌, if◌then◌else◌,
}
use hyparm.Common.{
  Outcome, ok, die, ◌>>=◌, not_implemented, reserved_entry, reserved_domain, reserved_permission,
}
use hyparm.Memory.{Memory}
use hyparm.Cpu.State.{GuestContext, cp15_sctrl, crb_index}
use hyparm.Cpu.Exceptions.{throw_data_abort, throw_prefetch_abort}
use hyparm.Mmu.Entries.{
  fault, section, reserved, priv_no_usr_no, priv_rw_usr_no, priv_rw_usr_ro, priv_rw_usr_rw,
  ap_reserved, priv_ro_usr_no, field, entry_type, entry_domain, section_permission, page_permission,
  get_entry_first,
}

abbrev pub cp15_dacr : ℕ
cp15_dacr = crb_index 3 0 0 0

-- enum DataAbortFaultStatus; InstructionAbortFaultStatus has the same values for these.
abbrev pub dfs_translation_section : ℕ
dfs_translation_section = 5

abbrev pub dfs_translation_page : ℕ
dfs_translation_page = 7

abbrev pub dfs_permission_section : ℕ
dfs_permission_section = 0xd

abbrev pub dfs_permission_page : ℕ
dfs_permission_page = 0xf

abbrev pub ifs_translation_fault_section : ℕ
ifs_translation_fault_section = 5

abbrev pub ifs_translation_fault_page : ℕ
ifs_translation_fault_page = 7

abbrev pub ifs_permission_fault_section : ℕ
ifs_permission_fault_section = 0xd

abbrev pub ifs_permission_fault_page : ℕ
ifs_permission_fault_page = 0xf

-- DACR_*
abbrev pub dacr_no_access : ℕ
dacr_no_access = 0

abbrev pub dacr_client : ℕ
dacr_client = 1

abbrev pub dacr_reserved : ℕ
dacr_reserved = 2

-- The tables that the guest context points to, and the two registers of the MMU.
pub record Tables : Type 0 where
  pub guest_physical : ℕ
  pub hypervisor_page_table : ℕ
  pub context_id : ℕ

pub record Mmu : Type 0 where
  pub ttbr0 : ℕ
  pub asid : ℕ

-- `mmuSetTTBR0`
unfoldable pub mmu_set_ttbr0 : ℕ → ℕ → Mmu → Mmu
mmu_set_ttbr0 addr asid mmu = record { ttbr0 = addr; asid = asid }

-- The answer to the caller, the guest and the MMU.
abbrev pub Verdict : Type 0
Verdict = Bool × GuestContext × Mmu

-- The address of the guest's second-level entry, below a first-level entry.
unfoldable pub second_entry_address : ℕ → ℕ → ℕ
second_entry_address guest_first address =
    let gpt2 = field 10 22 guest_first * 2 ^ 10 in
    let index = bit_and address 0x000f_f000 / 2 ^ 10 in bit_or gpt2 index

-- `(dacr >> (dom * 2)) & 0x3`
abbrev pub domain_bits : ℕ → ℕ → ℕ
domain_bits dacr dom = dacr / 2 ^ (dom * 2) % 4

-- The `switch` on the permission bits: the answer of `shouldDataAbort`.
unfoldable pub data_permission : Bool → Bool → ℕ → Outcome Bool
data_permission priv_access is_write permission_bits =
    if permission_bits == priv_no_usr_no
    then ok true
    else if permission_bits == priv_rw_usr_no
    then ok (if priv_access then false else true)
    else if permission_bits == priv_rw_usr_ro
    then ok (if not priv_access && is_write then true else false)
    else if permission_bits == priv_rw_usr_rw
    then ok false
    else if permission_bits == ap_reserved
    then die reserved_permission
    else if permission_bits == priv_ro_usr_no
    then ok (if not priv_access then true else if is_write then true else false)
    else ok (if is_write then true else false)

unfoldable pub prefetch_permission : Bool → ℕ → Outcome Bool
prefetch_permission priv_access permission_bits =
    if permission_bits == priv_no_usr_no
    then ok true
    else if permission_bits == priv_rw_usr_no
    then ok (if not priv_access then true else false)
    else if permission_bits == priv_ro_usr_no
    then ok (if not priv_access then true else false)
    else if permission_bits == ap_reserved
    then die reserved_permission
    else ok false

-- The entries that an access is checked against, or the fault in finding them.
pub data Found : Type 0 where
  translation_section : ℕ → Found
  translation_page : ℕ → Found
  found_section : ℕ → Found
  found_page : ℕ → ℕ → Found

-- Step 1 of both functions: the first-level entry, and the second-level one if there is one.
unfoldable pub find_entries : Memory ℕ → Tables → ℕ → Outcome Found
unfolding get_entry_first second_entry_address
find_entries memory tables address =
    let guest_first = memory (get_entry_first tables.guest_physical address) in
    let guest_second = memory (second_entry_address guest_first address) in
    if entry_type guest_first == fault
    then ok (translation_section guest_first)
    else if entry_type guest_first == reserved
    then die reserved_entry
    else if entry_type guest_first == section
    then ok (found_section guest_first)
    else if entry_type guest_second == fault
    then ok (translation_page guest_first)
    else ok (found_page guest_first guest_second)

-- Step 2: the domain. A manager is not checked; a client is checked by `client`.
unfoldable pub check_domain : GuestContext → ℕ → Outcome Bool → Outcome Bool
check_domain context guest_first client =
    let bits = domain_bits (context.coproc_reg_bank cp15_dacr) (entry_domain guest_first) in
    if bit_and (context.coproc_reg_bank cp15_sctrl) 0x2000_0000 != 0
    then die not_implemented
    else if bits == dacr_no_access
    then die not_implemented
    else if bits == dacr_reserved
    then die reserved_domain
    else if bits == dacr_client
    then client
    else ok false

-- Both functions run under the hypervisor's table, and set the caller's again before they return.
abbrev pub restored : Tables → Mmu → Mmu
restored tables mmu = mmu_set_ttbr0 mmu.ttbr0 (bit_or 0x100 tables.context_id) mmu

module _ (tables : Tables) (mmu : Mmu) (context : GuestContext) where
  unfoldable pub data_abort_of : Bool → Bool → ℕ → Found → Outcome Verdict
  data_abort_of priv_access is_write address (translation_section guest_first) =
      let dom = entry_domain guest_first in
      ok (
        true,
        throw_data_abort context address dfs_translation_section is_write dom,
        restored tables mmu,
      )
  data_abort_of priv_access is_write address (translation_page guest_first) =
      let dom = entry_domain guest_first in
      ok (
        true,
        throw_data_abort context address dfs_translation_page is_write dom,
        restored tables mmu,
      )
  data_abort_of priv_access is_write address (found_section guest_first) = do
    let dom = entry_domain guest_first
    let permission_bits = section_permission guest_first
    aborts ← check_domain context guest_first (data_permission priv_access is_write permission_bits)
    let thrown = throw_data_abort context address dfs_permission_section is_write dom
    ok (aborts, if aborts then thrown else context, restored tables mmu)
  data_abort_of priv_access is_write address (found_page guest_first guest_second) = do
    let dom = entry_domain guest_first
    let permission_bits = page_permission guest_second
    aborts ← check_domain context guest_first (data_permission priv_access is_write permission_bits)
    let thrown = throw_data_abort context address dfs_permission_page is_write dom
    ok (aborts, if aborts then thrown else context, restored tables mmu)

  unfoldable pub prefetch_abort_of : Bool → ℕ → Found → Outcome Verdict
  prefetch_abort_of priv_access address (translation_section guest_first) = ok (
    true,
    throw_prefetch_abort context address ifs_translation_fault_section,
    restored tables mmu,
  )
  prefetch_abort_of priv_access address (translation_page guest_first) =
      ok
        (true, throw_prefetch_abort context address ifs_translation_fault_page, restored tables mmu)
  prefetch_abort_of priv_access address (found_section guest_first) = do
    let permission_bits = section_permission guest_first
    aborts ← check_domain context guest_first (prefetch_permission priv_access permission_bits)
    let thrown = throw_prefetch_abort context address ifs_permission_fault_section
    ok (aborts, if aborts then thrown else context, restored tables mmu)
  prefetch_abort_of priv_access address (found_page guest_first guest_second) = do
    let permission_bits = page_permission guest_second
    aborts ← check_domain context guest_first (prefetch_permission priv_access permission_bits)
    let thrown = throw_prefetch_abort context address ifs_permission_fault_page
    ok (aborts, if aborts then thrown else context, restored tables mmu)

module _ (memory : Memory ℕ) (tables : Tables) (mmu : Mmu) (context : GuestContext) where
  unfoldable pub should_data_abort : Bool → Bool → ℕ → Outcome Verdict
  should_data_abort priv_access is_write address = do
    found ← find_entries memory tables address
    data_abort_of tables mmu context priv_access is_write address found

  unfoldable pub should_prefetch_abort : Bool → ℕ → Outcome Verdict
  should_prefetch_abort priv_access address = do
    found ← find_entries memory tables address
    prefetch_abort_of tables mmu context priv_access address found
