-- ===== src/Devices/Ram.antt =====
-- The guest's words in the SDRAM are RAM for `vmLoad` and `vmStore`.
use hyparm.Common.{
  ℕ, ◌/◌, ◌%◌, ◌^◌, ◌≤◌, ◌<◌, ◌≡◌, ◌≢◌, refl, ap, ◌∙◌, arith, Bool, false, ◌⊎◌, inl, inr, Outcome,
  ok, List,
}
use hyparm.Bits.{bit_or_low}
use hyparm.Memory.{Memory, update, update_ne}
use hyparm.Access.{AccessSize, word}
use hyparm.Mmu.Entries.{section, field, entry_type, get_entry_first}
use hyparm.Mmu.Space.{Space, get_physical_address}
use hyparm.Handle.System.{System}
use hyparm.Instr.Machine.{Bus}
use hyparm.Instr.Multiple.{clear_at}
use hyparm.Instr.Ram.{IsRam}
use hyparm.Devices.Tree.{Device, Functions, device_at}
use hyparm.Devices.Places.{library}
use hyparm.Devices.Access.{
  table_of, load_generic, store_generic, vm_load-found, vm_store-found, library_bus,
}
use hyparm.Devices.SdramRow.{sdram_answers}
use hyparm.Devices.Sdram.{load_sdram, store_sdram-off, load_of_device, store_of_device, with_words}

-- An aligned word of the guest's memory, which stands from `lo` to below `hi` in the SDRAM, while
-- the guest has not enabled virtual addressing: the hypervisor's table has a section there that maps
-- the address to itself, and the entry is not in the guest's memory.
pub record IsGuestWord (lo hi : ℕ) (s : System) (a : ℕ) : Type 0 where
  pub off : s.virt_addr_enabled ≡ false
  pub aligned : a % 4 ≡ 0
  pub from : lo ≤ a
  pub to : a < hi
  pub is_section :
      entry_type (s.scanning.space.words (get_entry_first s.tables.hypervisor_page_table a))
      ≡ section
  pub not_super :
      field 18 1 (s.scanning.space.words (get_entry_first s.tables.hypervisor_page_table a)) ≡ 0
  pub to_itself :
      field 20 12 (s.scanning.space.words (get_entry_first s.tables.hypervisor_page_table a))
      ≡ a / 2 ^ 20
  pub apart :
      (get_entry_first s.tables.hypervisor_page_table a < lo)
      ⊎ (hi ≤ get_entry_first s.tables.hypervisor_page_table a)

-- A section that maps the address to itself.
get_physical_address-section :
    (shadow_map : Space → ℕ → Bool × Space) (space : Space) (table a : ℕ)
    → entry_type (space.words (get_entry_first table a)) ≡ section
    → field 18 1 (space.words (get_entry_first table a)) ≡ 0
    → field 20 12 (space.words (get_entry_first table a)) ≡ a / 2 ^ 20
    → get_physical_address shadow_map space table a ≡ ok (a, space)
unfolding get_physical_address
get_physical_address-section shadow_map space table a is_section not_super to_itself =
    rw (is_section, is_section, not_super, to_itself)
      (ap (λ (p : ℕ). ok (p, space))
        (bit_or_low 20 (a / 2 ^ 20) (a % 2 ^ 20) (omega arith) ∙ omega arith))

module _ (hw_passthrough mmc_guest_access profiler : Bool) (shadow_map : Space → ℕ → Bool × Space)
    (edit_if : System → (virt_addr phy_addr value : ℕ) → Outcome System)
    (others_load : Functions
      → (start_address : ℕ) → System
      → AccessSize
      → (virt_addr phy_addr : ℕ) → Outcome (ℕ × System))
    (others_store : Functions
      → (start_address : ℕ) → System
      → AccessSize
      → (virt_addr phy_addr value : ℕ) → Outcome System)
    (memory : Memory ℕ) where
  abbrev devices : List Device
  devices = library hw_passthrough mmc_guest_access profiler

  abbrev place : ℕ → ℕ
  place dev = (device_at devices dev).start_address_mapped

  -- `vmLoad` and `vmStore` in the library that `createHardwareLibrary` makes, with the SDRAM's
  -- functions.
  abbrev pub sdram_bus : Bus
  sdram_bus =
      library_bus shadow_map devices
        (λ f dev. load_of_device edit_if others_load others_store f (place dev))
        (λ f dev. store_of_device edit_if others_load others_store f (place dev)) memory

  module _ (lo hi : ℕ) (above : 0x8000_0000 ≤ lo) (below : hi ≤ 0xc000_0000) where
    translated :
        (s : System) (a : ℕ)
        → IsGuestWord lo hi s a
        → get_physical_address shadow_map s.scanning.space (table_of s) a ≡ ok (a, s.scanning.space)
    translated s a w = simp w.off (
        get_physical_address-section shadow_map s.scanning.space s.tables.hypervisor_page_table a
          w.is_section w.not_super w.to_itself)

    pub sdram_loads :
        (s : System) (a : ℕ)
        → IsGuestWord lo hi s a
        → sdram_bus.vm_load s word a ≡ ok (s.scanning.space.words a, s)
    unfolding library_bus load_generic load_sdram
    sdram_loads s a w =
        vm_load-found shadow_map devices
          (λ f dev. load_of_device edit_if others_load others_store f (place dev))
          (λ f dev. store_of_device edit_if others_load others_store f (place dev)) s word a a
          s.scanning.space (translated s a w)
        ∙ sdram_answers hw_passthrough mmc_guest_access profiler
            (λ f start. load_of_device edit_if others_load others_store f start s word a a) a
            (omega (arith, above, w.from)) (omega (arith, below, w.to))

    pub sdram_stores :
        (s : System) (a v : ℕ)
        → IsGuestWord lo hi s a
        → sdram_bus.vm_store s word a v ≡ ok (with_words s (update s.scanning.space.words a v))
    unfolding library_bus store_generic
    sdram_stores s a v w =
        vm_store-found shadow_map devices
          (λ f dev. load_of_device edit_if others_load others_store f (place dev))
          (λ f dev. store_of_device edit_if others_load others_store f (place dev)) s word a a v
          s.scanning.space (translated s a w)
        ∙ sdram_answers hw_passthrough mmc_guest_access profiler
            (λ f start. store_of_device edit_if others_load others_store f start s word a a v) a
            (omega (arith, above, w.from)) (omega (arith, below, w.to))
        ∙ store_sdram-off edit_if s a a v w.off

    -- A store to the guest's memory keeps its words.
    pub stored-IsGuestWord :
        (s : System) (a v b : ℕ)
        → lo ≤ a
        → a < hi
        → IsGuestWord lo hi s b
        → IsGuestWord lo hi (with_words s (update s.scanning.space.words a v)) b
    stored-IsGuestWord s a v b from to w =
        let entry = get_entry_first s.tables.hypervisor_page_table b in
        let differs : a ≢ entry = elim w.apart [
          | inl low ↦ λ same. omega (arith, same, low, from)
          | inr high ↦ λ same. omega (arith, same, high, to)
        ] in
        let kept = update_ne s.scanning.space.words a v entry differs in
        record {
          off = w.off;
          aligned = w.aligned;
          from = w.from;
          to = w.to;
          is_section = rw kept w.is_section;
          not_super = rw kept w.not_super;
          to_itself = rw kept w.to_itself;
          apart = w.apart;
        }

    unfoldable pub sdram_bus-IsRam : IsRam sdram_bus
    unfolding clear_at
    sdram_bus-IsRam = record {
      read = λ s. s.scanning.space.words;
      IsWord = IsGuestWord lo hi;
      loads = sdram_loads;
      stores = λ s a v w. (
        with_words s (update s.scanning.space.words a v),
        sdram_stores s a v w,
        (refl, λ b is_word. (refl, stored-IsGuestWord s a v b w.from w.to is_word)),
      );
      of_guest = λ s c. (
        refl,
        λ b w. record {
          off = w.off;
          aligned = w.aligned;
          from = w.from;
          to = w.to;
          is_section = w.is_section;
          not_super = w.not_super;
          to_itself = w.to_itself;
          apart = w.apart;
        },
      );
      of_store = λ s a. (
        refl,
        λ b w. record {
          off = w.off;
          aligned = w.aligned;
          from = w.from;
          to = w.to;
          is_section = w.is_section;
          not_super = w.not_super;
          to_itself = w.to_itself;
          apart = w.apart;
        },
      );
    }
