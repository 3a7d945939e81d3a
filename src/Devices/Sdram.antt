-- ===== src/Devices/Sdram.antt =====
-- The SDRAM of the board (src/vm/omap35xx/sdram.c): the access goes to the virtual address. Memory
-- is by words; a halfword or a byte is a part of its word, little-endian.
use hyparm.Common.{
  ℕ, ◌+◌, ◌-◌, ◌*◌, ◌/◌, ◌%◌, ◌^◌, if◌then◌else◌, Outcome, ok, ◌>>=◌, ◌≡◌, refl, false,
}
use hyparm.Memory.{Memory, update}
use hyparm.Access.{AccessSize, byte, halfword, word}
use hyparm.Handle.System.{System}
use hyparm.Devices.Tree.{Functions, sdram}

abbrev word_of : ℕ → ℕ
word_of address = address - address % 4

-- The part of `w` bits at the address in its word.
abbrev part : (w address : ℕ) → Memory ℕ → ℕ
part w address m = m (word_of address) / 2 ^ (address % 4 * 8) % 2 ^ w

abbrev with_part : (w address value : ℕ) → Memory ℕ → Memory ℕ
with_part w address value m =
    let place = 2 ^ (address % 4 * 8) in
    update m (word_of address)
      (m (word_of address) - part w address m * place + value % 2 ^ w * place)

abbrev pub with_words : System → Memory ℕ → System
with_words s m = record s {
  scanning = record s.scanning { space = record s.scanning.space { words = m } };
}

-- `loadSdram`
unfoldable pub load_sdram : System → AccessSize → (virt_addr phy_addr : ℕ) → Outcome (ℕ × System)
load_sdram s word virt_addr phy_addr = ok (s.scanning.space.words virt_addr, s)
load_sdram s halfword virt_addr phy_addr = ok (part 16 virt_addr s.scanning.space.words, s)
load_sdram s byte virt_addr phy_addr = ok (part 8 virt_addr s.scanning.space.words, s)

-- `edit_if` is `isAddrInPageTable` of the guest's table and `pageTableEdit` of a word in it.
module _ (edit_if : System → (virt_addr phy_addr value : ℕ) → Outcome System) where
  -- `storeSdram`, without CONFIG_SDRAM_STORE_COUNTER.
  unfoldable pub store_sdram : System → AccessSize → (virt_addr phy_addr value : ℕ) → Outcome System
  store_sdram s word virt_addr phy_addr value = do
    edited ← (if s.virt_addr_enabled then edit_if s virt_addr phy_addr value else ok s)
    ok (with_words edited (update edited.scanning.space.words virt_addr value))
  store_sdram s halfword virt_addr phy_addr value =
      ok (with_words s (with_part 16 virt_addr value s.scanning.space.words))
  store_sdram s byte virt_addr phy_addr value =
      ok (with_words s (with_part 8 virt_addr value s.scanning.space.words))

  -- A store of a word while the guest has not enabled virtual addressing.
  pub store_sdram-off :
      (s : System) (virt_addr phy_addr value : ℕ)
      → s.virt_addr_enabled ≡ false
      → store_sdram s word virt_addr phy_addr value
        ≡ ok (with_words s (update s.scanning.space.words virt_addr value))
  unfolding store_sdram
  store_sdram-off s virt_addr phy_addr value off = simp off refl

  -- The functions of the end devices, where all but the SDRAM have theirs from `others`.
  module _
      (others_load : Functions
        → (dev : ℕ) → System
        → AccessSize
        → (virt_addr phy_addr : ℕ) → Outcome (ℕ × System))
      (others_store : Functions
        → (dev : ℕ) → System
        → AccessSize
        → (virt_addr phy_addr value : ℕ) → Outcome System) where
    abbrev pub load_of_device :
        Functions
        → (dev : ℕ) → System
        → AccessSize
        → (virt_addr phy_addr : ℕ) → Outcome (ℕ × System)
    load_of_device sdram dev = load_sdram
    load_of_device f dev = others_load f dev

    abbrev pub store_of_device :
        Functions
        → (dev : ℕ) → System
        → AccessSize
        → (virt_addr phy_addr value : ℕ) → Outcome System
    store_of_device sdram dev = store_sdram
    store_of_device f dev = others_store f dev
