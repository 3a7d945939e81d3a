-- ===== src/Devices/Access.antt =====
-- `vmLoad` and `vmStore`: the physical address by the host's tables, then the tree of devices. With
-- `shouldDataAbort` they are the `Bus` that the instructions work on.
use hyparm.Common.{ℕ, Bool, false, if◌then◌else◌, List, Outcome, ok, ◌>>=◌, ◌≡◌, refl}
use hyparm.Memory.{Memory}
use hyparm.Access.{AccessSize}
use hyparm.Mmu.Protection.{should_data_abort}
use hyparm.Mmu.Space.{Space, get_physical_address}
use hyparm.Handle.System.{System}
use hyparm.Devices.Tree.{Device, Functions, call_function}
use hyparm.Instr.Machine.{Bus}

-- The table that `getPhysicalAddress` is called with.
abbrev pub table_of : System → ℕ
table_of s = if s.virt_addr_enabled then s.guest.shadow_active else s.tables.hypervisor_page_table

abbrev with_space : System → Space → System
with_space s space = record s { scanning = record s.scanning { space = space } }

-- `own_load` and `own_store` are the functions of the end devices, called with the device, the
-- virtual and the physical address.
module _ (shadow_map : Space → ℕ → Bool × Space) (devices : List Device)
    (own_load : Functions
      → (dev : ℕ) → System
      → AccessSize
      → (virt_addr phy_addr : ℕ) → Outcome (ℕ × System))
    (own_store : Functions
      → (dev : ℕ) → System
      → AccessSize
      → (virt_addr phy_addr value : ℕ) → Outcome System) where
  unfoldable pub load_generic :
      System → (dev : ℕ) → AccessSize → (virt_addr phy_addr : ℕ) → Outcome (ℕ × System)
  unfolding call_function
  load_generic s dev size virt_addr phy_addr =
      call_function (λ f d. own_load f d s size virt_addr phy_addr) 6 devices dev phy_addr

  unfoldable pub store_generic :
      System → (dev : ℕ) → AccessSize → (virt_addr phy_addr value : ℕ) → Outcome System
  unfolding call_function
  store_generic s dev size virt_addr phy_addr value =
      call_function (λ f d. own_store f d s size virt_addr phy_addr value) 6 devices dev phy_addr

  unfoldable pub vm_load : System → AccessSize → (virt_addr : ℕ) → Outcome (ℕ × System)
  unfolding load_generic get_physical_address
  vm_load s size virt_addr = do
    (phys_addr, space) ← get_physical_address shadow_map s.scanning.space (table_of s) virt_addr
    load_generic (with_space s space) 0 size virt_addr phys_addr

  unfoldable pub vm_store : System → AccessSize → (virt_addr value : ℕ) → Outcome System
  unfolding store_generic get_physical_address
  vm_store s size virt_addr value = do
    (phys_addr, space) ← get_physical_address shadow_map s.scanning.space (table_of s) virt_addr
    store_generic (with_space s space) 0 size virt_addr phys_addr value

  -- An access whose address the tables have.
  pub vm_load-found :
      (s : System) (size : AccessSize) (virt_addr phys_addr : ℕ) (space : Space)
      → get_physical_address shadow_map s.scanning.space (table_of s) virt_addr
        ≡ ok (phys_addr, space)
      → vm_load s size virt_addr ≡ load_generic (with_space s space) 0 size virt_addr phys_addr
  unfolding vm_load
  vm_load-found s size virt_addr phys_addr space found = rw found refl

  pub vm_store-found :
      (s : System) (size : AccessSize) (virt_addr phys_addr value : ℕ) (space : Space)
      → get_physical_address shadow_map s.scanning.space (table_of s) virt_addr
        ≡ ok (phys_addr, space)
      → vm_store s size virt_addr value
        ≡ store_generic (with_space s space) 0 size virt_addr phys_addr value
  unfolding vm_store
  vm_store-found s size virt_addr phys_addr value space found = rw found refl

  -- `shouldDataAbort(context, FALSE, isWrite, address)`, with the physical memory.
  unfoldable pub checks_user : Memory ℕ → System → Bool → ℕ → Outcome (Bool × System)
  unfolding should_data_abort
  checks_user memory s is_write address = do
    (aborts, c, mmu) ← should_data_abort memory s.tables s.mmu s.guest false is_write address
    ok (aborts, record s { guest = c; mmu = mmu })

  unfoldable pub library_bus : Memory ℕ → Bus
  unfolding vm_load vm_store checks_user
  library_bus memory = record {
    vm_load = vm_load;
    vm_store = vm_store;
    user_aborts = checks_user memory;
  }
