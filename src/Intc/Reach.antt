-- ===== src/Intc/Reach.antt =====
-- Every history of the controller: the guest's loads and stores, and the devices' interrupts, in
-- any order.
use hyparm.Common.{ℕ, ◌^◌, ◌<◌, ◌≡◌, arith, Bool, false, List, ok}
use hyparm.Host.{HostWrite}
use hyparm.Access.{AccessSize}
use hyparm.Intc.State.{InterruptController, intc_reset}
use hyparm.Intc.Lines.{set_interrupt, clear_interrupt, is_fiq_pending}
use hyparm.Intc.Load.{load_intc}
use hyparm.Intc.Store.{store_register, store_intc}
use hyparm.Intc.Invariant.{
  IsValid, intc_reset-IsValid, set_interrupt-IsValid, clear_interrupt-IsValid,
}
use hyparm.Common.{Returns, ◌/◌, ◌%◌, ◌≤◌}
use hyparm.Bits.{bit_at-zero}
use hyparm.Intc.Views.{pending_bit}
use hyparm.Intc.MaskStores.{mir_set_of, mir_set_lem}
use hyparm.Intc.Accesses.{load_intc-IsValid, store_intc-IsValid}

pub data Step (freertos : Bool) (c d : InterruptController) : Type 0 where
  load :
      (size : AccessSize) (phy_addr : ℕ) {value : ℕ}
      → load_intc freertos c size phy_addr ≡ ok (d, value)
      → Step freertos c d
  store :
      (size : AccessSize) (phy_addr : ℕ) {value : ℕ} {writes : List HostWrite}
      → value < 2 ^ 32
      → store_intc freertos c size phy_addr value ≡ ok (d, writes)
      → Step freertos c d
  raise : (n : ℕ) → set_interrupt c n ≡ ok d → Step freertos c d
  lower : (n : ℕ) → clear_interrupt c n ≡ ok d → Step freertos c d

pub data Reach (freertos : Bool) : InterruptController → Type 0 where
  start : (c : InterruptController) → Reach freertos (intc_reset c)
  next : {c d : InterruptController} → Reach freertos c → Step freertos c d → Reach freertos d

Step-IsValid :
    {freertos : Bool} {c d : InterruptController} → Step freertos c d → IsValid c → IsValid d
Step-IsValid {freertos} (load size phy_addr h) v = load_intc-IsValid freertos size phy_addr v h
Step-IsValid {freertos} (store size phy_addr fits h) v =
    store_intc-IsValid freertos size phy_addr fits v h
Step-IsValid (raise n h) v = set_interrupt-IsValid n v h
Step-IsValid (lower n h) v = clear_interrupt-IsValid n v h

-- In every state that the controller reaches from a reset, by loads, stores, raised and cleared
-- lines in any order, the masks, the pending bits and the raw bits of bank 0 are 32-bit words,
-- the raw bits of banks 1 and 2 and all pending FIQ bits are zero, and there are 96 priorities.
pub Reach-IsValid : {freertos : Bool} {c : InterruptController} → Reach freertos c → IsValid c
Reach-IsValid (start c) = intc_reset-IsValid c
Reach-IsValid (next r s) = Step-IsValid s (Reach-IsValid r)

-- The guest never sees a pending FIQ: in every reachable state `isFiqPending` is false.
pub is_fiq_pending-Reach :
    {freertos : Bool} {c : InterruptController} → Reach freertos c → is_fiq_pending c ≡ false
unfolding is_fiq_pending
is_fiq_pending-Reach r = let v = Reach-IsValid r in ground arith

-- In every reachable state a guest store to MIR_SET1 or MIR_SET2, of any value (even 0), returns,
-- and leaves no line of that bank pending.
pub mir_set_drops_pending :
    {freertos : Bool} {c : InterruptController} (k m value : ℕ)
    → Reach freertos c
    → 1 ≤ k
    → k < 3
    → m < 96
    → m / 32 ≡ k
    → value < 2 ^ 32
    → Returns (store_register freertos c (mir_set_of k) value) λ r. pending_bit r.0 m ≡ 0
mir_set_drops_pending {freertos} {c} k m value r lo hi hm bank hv =
    let v = Reach-IsValid r in
    let (out, returns, (mask, pending, told)) = mir_set_lem freertos k m value v hi hm hv in
    (out, returns, ground (arith, v.itr1, v.itr2, bit_at-zero (m % 32)))
