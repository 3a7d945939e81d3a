-- ===== src/Mmu/WriteProtect.antt =====
-- Taking write access from the guest (`guestWriteProtect` and `writeProtectRange`,
-- src/memoryManager/ memoryProtection.c). The invalidation of the TLB changes nothing here.
use hyparm.Common.{
  ℕ, zero, suc, ◌+◌, ◌-◌, ◌*◌, ◌/◌, ◌%◌, ◌^◌, bit_and, Bool, ◌==◌, ltb, if◌then◌else◌,
}
use hyparm.Common.{
  Outcome, ok, die, ◌>>=◌, not_implemented, reserved_entry, unreachable, bad_range, endless,
}
use hyparm.Mmu.Entries.{
  fault, section, reserved, large_page, priv_rw_usr_ro, priv_rw_usr_rw, field, entry_type,
  page_permission, get_entry_first,
}
use hyparm.Mmu.Space.{Space, get_entry_second}
use hyparm.Mmu.Mapping.{with_word, split_section_to_small_pages}

-- An assignment to the bit-field of `w` bits at place `i`.
abbrev pub assign : (i w value entry : ℕ) → ℕ
assign i w value entry = entry - field i w entry * 2 ^ i + value % 2 ^ w * 2 ^ i

-- The case of a small page: the only permissions that let the guest's user mode write.
unfoldable pub protect_word : ℕ → ℕ
protect_word entry =
    if page_permission entry == priv_rw_usr_rw
    then assign 9 1 (priv_rw_usr_ro / 2 ^ 2) (assign 4 2 (bit_and priv_rw_usr_ro 3) entry)
    else entry

-- The second `switch`.
unfoldable pub protect_entry : Space → ℕ → Outcome Space
unfolding protect_word
protect_entry space second_entry =
    let word = space.words second_entry in
    if entry_type word == fault
    then ok space
    else if entry_type word == large_page
    then die not_implemented
    else ok (with_word space second_entry (protect_word word))

module _ (memalign : ℕ → ℕ) (shadow_map : Space → ℕ → Bool × Space) where
  -- A section is split up first.
  unfoldable pub split_if : Bool → Space → (table start : ℕ) → Outcome Space
  unfolding split_section_to_small_pages
  split_if is_section space table start =
      if is_section
      then split_section_to_small_pages memalign shadow_map space table start
      else ok space

  -- One round of the loop is at `page_start`; the first-level entry is that of `start` in each.
  unfoldable pub protect_pages :
      (fuel : ℕ) → Space → (table start end page_start : ℕ) → Outcome Space
  unfolding split_if protect_entry get_entry_second get_entry_first
  protect_pages zero space table start end page_start = die endless
  protect_pages (suc fuel) space table start end page_start =
      let first_entry = get_entry_first table start in
      let kind = entry_type (space.words first_entry) in
      let page_end = (bit_and page_start 0xffff_f000 + 0xfff) % 2 ^ 32 in
      let rest = λ (protected : Space).
        protect_pages fuel protected table start end ((page_end + 1) % 2 ^ 32) in
      if kind == fault then ok space else if kind == reserved then die reserved_entry else (do
        split ← split_if (kind == section) space table start
        second_entry ← get_entry_second split first_entry page_start
        protected ← protect_entry split second_entry
        if page_end == 0
            then die unreachable
            else if ltb page_end end
            then rest protected
            else ok protected)

  -- The fuel is the number of pages of 32-bit addresses.
  unfoldable pub write_protect_range : Space → (table start end : ℕ) → Outcome Space
  unfolding protect_pages
  write_protect_range space table start end = protect_pages 0x10_0000 space table start end start

  -- `guestWriteProtect`, for the tables that the context points to.
  unfoldable pub guest_write_protect :
      Space
      → (virt_addr_enabled : Bool)
      → (shadow_user shadow_priv hypervisor_page_table start_address end_address : ℕ)
      → Outcome Space
  unfolding write_protect_range
  guest_write_protect space virt_addr_enabled shadow_user shadow_priv hypervisor_page_table
        start_address end_address =
      if ltb end_address start_address
      then die bad_range
      else if virt_addr_enabled
      then (do
        user_protected ← write_protect_range space shadow_user start_address end_address
        write_protect_range user_protected shadow_priv start_address end_address)
      else write_protect_range space hypervisor_page_table start_address end_address
