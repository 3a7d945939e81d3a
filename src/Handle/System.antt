-- ===== src/Handle/System.antt =====
-- What the handlers of src/exceptions/exceptionHandlers.c work on, and the call of the scanner that
-- ends them.
use hyparm.Common.{ℕ, bit_or, Bool, not, ◌&&◌, ◌||◌, if◌then◌else◌, Outcome, ok, ◌>>=◌}
use hyparm.Cpu.Modes.{is_guest_in_priv_mode}
use hyparm.Memory.{Memory}
use hyparm.Cpu.State.{GuestContext}
use hyparm.Cpu.Exceptions.{jump}
use hyparm.Mmu.Protection.{Tables, Mmu, mmu_set_ttbr0}
use hyparm.Mmu.Space.{Space}
use hyparm.Trace.Detector.{BlockTrace}
use hyparm.Scan.Scanner.{Decoder, ScanContext, scan_block}

-- The guest context, in the parts that the other components model, and the MMU. The guest's R15 is
-- that of `guest`.
pub record System : Type 0 where
  pub guest : GuestContext
  pub tables : Tables
  pub mmu : Mmu
  pub virt_addr_enabled : Bool
  pub scanning : ScanContext
  pub trace : BlockTrace
  -- of exceptionHandlers.c
  pub must_reset_loop_detector : Bool

abbrev pub with_guest : System → GuestContext → System
with_guest s c = record s { guest = c }

-- The last step of `privToUserAddressing` and of `userToPrivAddressing`, which `guestChangeMode` calls
-- when the guest's privilege changes: `mmuSetTTBR0(shadowActive, 0x100 | contextID)`. `c` is the guest
-- before, and `d` after.
unfoldable pub switched_mmu : Tables → (c d : GuestContext) → Mmu → Mmu
unfolding is_guest_in_priv_mode mmu_set_ttbr0
switched_mmu tables c d mmu =
    let before = is_guest_in_priv_mode c in
    let after = is_guest_in_priv_mode d in
    if (not before && after) || (before && not after)
    then mmu_set_ttbr0 d.shadow_active (bit_or 0x100 tables.context_id) mmu
    else mmu

-- The guest as a function of its exceptions or of its CPSR has left it, and the MMU with it.
unfoldable pub change_guest : System → GuestContext → System
unfolding switched_mmu
change_guest s d = record s { guest = d; mmu = switched_mmu s.tables s.guest d s.mmu }

-- The scanner's view, with R15.
abbrev pub scanner_view : System → ScanContext
scanner_view s = record s.scanning { r15 = s.guest.registers 15 }

abbrev pub scanned_system : System → ScanContext → System
scanned_system s scanned = record s { scanning = scanned; guest = jump s.guest scanned.r15 }

-- What a handler calls: the scanner's decoder, `guestWriteProtect`, the guest's memory as the
-- scanner reads it.
module _ (pool_end : ℕ) (decoder : Decoder) (code_memory : Memory ℕ)
    (write_protect : Space → (start_address end_address : ℕ) → Outcome Space) where
  -- `scanBlock(context, context->R15)`
  unfoldable pub scan_guest : System → Outcome System
  unfolding scan_block jump
  scan_guest s = do
    scanned ←
        scan_block pool_end decoder code_memory write_protect (scanner_view s)
          (s.guest.registers 15)
    ok (scanned_system s scanned)
