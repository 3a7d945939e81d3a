-- ===== src/Intc/MaskStores.antt =====
-- Guest stores to the MIR_CLEAR and MIR_SET registers, line by line.
use hyparm.Common.{
  ℕ, zero, suc, ◌+◌, ◌%◌, ◌/◌, ◌^◌, ◌≤◌, ◌<◌, ◌≡◌, refl, arith, bit_and, bit_or, Bool, false,
}
use hyparm.Common.{
  ok, Returns, Outcome, ◌==◌, if◌then◌else◌, ◌&&◌, ◌||◌, List, [], ◌∷◌, ◌>>=◌, inl, inr, Bool-cases,
}
use hyparm.Bits.{
  not32, bit_at, bit_at-bit_or, bit_at-bit_and, bit_at-not32, bit_at-le-one, bit_test, bit_or-lt,
}
use hyparm.Host.{HostWrite, mask_interrupt_be, unmask_interrupt_be}
use hyparm.Intc.State.{InterruptController}
use hyparm.Intc.Views.{mask_bit, pending_bit, raw_bit}
use hyparm.Intc.Registers.{Register}
use hyparm.Intc.Invariant.{IsValid}
use hyparm.Intc.Store.{
  gpt1_irq, forward_gpt1, store_mir_clear1, store_mir_clear2, store_mir_set0, or_mir1,
  store_mir_set1, store_mir_set2, store_register,
}

-- The loop over the 32 bits tells the host once, if bit 5 is set, and else not at all.
module _ (tell : ℕ → Outcome HostWrite) (value : ℕ) where
  forward_gpt1_past : (left i : ℕ) → 5 < i → forward_gpt1 tell value left i ≡ ok []
  unfolding forward_gpt1
  forward_gpt1_past zero i h = refl
  forward_gpt1_past (suc left) i h = ground (arith, forward_gpt1_past left (i + 1))

  forward_gpt1_at :
      (left i : ℕ)
      → i ≤ 5
      → 5 < i + left
      → forward_gpt1 tell value left i
        ≡ (if bit_at value 5 == 1 then (tell gpt1_irq >>= λ w. ok (w ∷ [])) else ok [])
  unfolding forward_gpt1
  forward_gpt1_at zero i h k = absurd (omega arith)
  forward_gpt1_at (suc left) i h k = elim (Bool-cases (i == 5)) [
    | inr e ↦ ground (arith, forward_gpt1_at left (i + 1))
    | inl e ↦
        let here : i ≡ 5 = ground arith in
        rw (here, forward_gpt1_past left 6 (omega arith), bit_test) (ground arith)
  ]

  pub forward_gpt1_lem :
      forward_gpt1 tell value 32 0
      ≡ (if bit_at value 5 == 1 then (tell gpt1_irq >>= λ w. ok (w ∷ [])) else ok [])
  forward_gpt1_lem = forward_gpt1_at 32 0 (omega arith) (omega arith)

-- The bit of line 37 in its bank.
abbrev pub gpt1_told : ℕ → ℕ → ℕ → List HostWrite
gpt1_told k value offset =
    if k == 1 && bit_at value 5 == 1 then record { offset = offset; value = 0x20 } ∷ [] else []

abbrev pub mir_clear_of : ℕ → Register
mir_clear_of k =
    if k == 0
    then Register.mir_clear0
    else if k == 1
    then Register.mir_clear1
    else Register.mir_clear2

abbrev pub mir_set_of : ℕ → Register
mir_set_of k =
    if k == 0 then Register.mir_set0 else if k == 1 then Register.mir_set1 else Register.mir_set2

mask_cleared :
    (x value j : ℕ)
    → value < 2 ^ 32
    → j < 32
    → bit_at (bit_and x (not32 value)) j ≡ (if bit_at value j == 1 then 0 else bit_at x j)
mask_cleared x value j h k = ground (
  arith,
  bit_at-bit_and x (not32 value) j,
  bit_at-not32 value j h k,
  bit_at-le-one x j,
  bit_at-le-one value j,
)

mask_set :
    (x value j : ℕ) → bit_at (bit_or x value) j ≡ (if bit_at value j == 1 then 1 else bit_at x j)
mask_set x value j =
    ground (arith, bit_at-bit_or x value j, bit_at-le-one x j, bit_at-le-one value j)

-- Without CONFIG_GUEST_FREERTOS a guest store to MIR_CLEARk (k = 0, 1, 2) returns. It unmasks the
-- lines of bank k whose bits are set in the value, and the mask of each other line stays. The host
-- is told to unmask GPT1 if k = 1 and bit 5 is set, and else of nothing.
pub mir_clear_lem :
    (c : InterruptController) (k m value : ℕ)
    → k < 3
    → m < 96
    → value < 2 ^ 32
    → Returns (store_register false c (mir_clear_of k) value) λ r.
      (mask_bit r.0 m ≡ (if m / 32 == k && bit_at value (m % 32) == 1 then 0 else mask_bit c m))
      × (r.1 ≡ gpt1_told k value 0xa8)
unfolding store_register store_mir_clear1 store_mir_clear2 unmask_interrupt_be
mir_clear_lem c zero m value h hm hv = (
  (record c { intc_mir0 = bit_and c.intc_mir0 (not32 value) }, []),
  refl,
  (ground (arith, mask_cleared c.intc_mir0 value (m % 32)), refl),
)
mir_clear_lem c (suc zero) m value h hm hv = (
  (record c { intc_mir1 = bit_and c.intc_mir1 (not32 value) }, gpt1_told 1 value 0xa8),
  rw forward_gpt1_lem (ground arith),
  (ground (arith, mask_cleared c.intc_mir1 value (m % 32)), refl),
)
mir_clear_lem c (suc (suc zero)) m value h hm hv = (
  (record c { intc_mir2 = bit_and c.intc_mir2 (not32 value) }, []),
  refl,
  (ground (arith, mask_cleared c.intc_mir2 value (m % 32)), refl),
)
mir_clear_lem c (suc (suc (suc k))) m value h hm hv = absurd (omega arith)

-- What is left pending after a store to MIR_SETk.
pending_left :
    (raw mir value j : ℕ)
    → mir < 2 ^ 32
    → value < 2 ^ 32
    → j < 32
    → bit_at (bit_and raw (not32 (bit_or mir value))) j
      ≡ (if bit_at value j == 1 || bit_at mir j == 1 then 0 else bit_at raw j)
pending_left raw mir value j hm hv k = ground (
  arith,
  mask_cleared raw (bit_or mir value) j (bit_or-lt 32 mir value hm hv) k,
  mask_set mir value j,
  bit_at-le-one mir j,
)

-- In a valid state a guest store to MIR_SETk (k = 0, 1, 2) returns. It masks the lines of bank k
-- whose bits are set in the value, and the mask of each other line stays. In bank k a line is then
-- pending exactly if its raw bit is set and it is not masked; no line of another bank changes. The
-- host is told to mask GPT1 if k = 1 and bit 5 is set, and else of nothing.
pub mir_set_lem :
    {c : InterruptController} (freertos : Bool) (k m value : ℕ)
    → IsValid c
    → k < 3
    → m < 96
    → value < 2 ^ 32
    → Returns (store_register freertos c (mir_set_of k) value) λ r.
      (mask_bit r.0 m ≡ (if m / 32 == k && bit_at value (m % 32) == 1 then 1 else mask_bit c m))
      × (pending_bit r.0 m ≡ (
          if m / 32 == k
          then (if mask_bit r.0 m == 1 then 0 else raw_bit c m)
          else pending_bit c m))
      × (r.1 ≡ gpt1_told k value 0xac)
unfolding store_register store_mir_set0 store_mir_set1 store_mir_set2 or_mir1 mask_interrupt_be
mir_set_lem {c} freertos zero m value v h hm hv = (
  (store_mir_set0 c value, []),
  refl,
  (
    ground (arith, mask_set c.intc_mir0 value (m % 32)),
    ground (
      arith,
      mask_set c.intc_mir0 value (m % 32),
      pending_left c.intc_itr0 c.intc_mir0 value (m % 32) v.mir0,
    ),
    refl,
  ),
)
mir_set_lem {c} freertos (suc zero) m value v h hm hv = (
  (or_mir1 c value, gpt1_told 1 value 0xac),
  rw forward_gpt1_lem (ground arith),
  (
    ground (arith, mask_set c.intc_mir1 value (m % 32)),
    ground (
      arith,
      mask_set c.intc_mir1 value (m % 32),
      pending_left c.intc_itr1 c.intc_mir1 value (m % 32) v.mir1,
    ),
    refl,
  ),
)
mir_set_lem {c} freertos (suc (suc zero)) m value v h hm hv = (
  (store_mir_set2 c value, []),
  refl,
  (
    ground (arith, mask_set c.intc_mir2 value (m % 32)),
    ground (
      arith,
      mask_set c.intc_mir2 value (m % 32),
      pending_left c.intc_itr2 c.intc_mir2 value (m % 32) v.mir2,
    ),
    refl,
  ),
)
mir_set_lem freertos (suc (suc (suc k))) m value v h hm hv = absurd (omega arith)
