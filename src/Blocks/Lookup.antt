-- ===== src/Blocks/Lookup.antt =====
-- The search for a block: what it answers, and how placing a block changes its answers.
use hyparm.Common.{
  Option-cases, ℕ, zero, suc, ◌+◌, ◌-◌, ◌/◌, ◌≤◌, ◌<◌, ◌≡◌, ◌≢◌, refl, arith, true, false, none,
  some, ◌⊎◌, inl, inr,
}
use native.Mathlib.Decide.{dec_le}
use hyparm.Bits.{bit_and_mask}
use hyparm.Memory.{Memory}
use hyparm.Blocks.Store.{
  BasicBlock, BlockInfo, is_valid, basic_block_store_size, get_basic_block_store_index, probe,
  get_block_info,
}

-- The entry at `i` holds a block that starts at `a`.
abbrev pub Holds : Memory BasicBlock → ℕ → ℕ → Type 0
Holds store a i = (is_valid (store i).block_type ≡ true) × ((store i).guest_start ≡ a)

-- The entry at `i` holds a block that starts elsewhere.
abbrev pub Occupied : Memory BasicBlock → ℕ → ℕ → Type 0
Occupied store a i = (is_valid (store i).block_type ≡ true) × ((store i).guest_start ≢ a)

-- What the answer of a search from `index` says of the store.
pub record IsAnswer (store : Memory BasicBlock) (a index limit : ℕ) (info : BlockInfo)
    : Type 0 where
  pub from : index ≤ info.block_index
  pub below : info.block_index < limit
  pub passed : (i : ℕ) → index ≤ i → i < info.block_index → Occupied store a i
  pub stopped :
      ((info.block_found ≡ true) × Holds store a info.block_index)
      ⊎ ((info.block_found ≡ false) × (is_valid (store info.block_index).block_type ≡ false))

entry_cases :
    (store : Memory BasicBlock) (a i : ℕ)
    → (is_valid (store i).block_type ≡ false) ⊎ (Holds store a i ⊎ Occupied store a i)
entry_cases store a i = ground arith

eq_or_later : (i j : ℕ) → i ≤ j → (i ≡ j) ⊎ (i + 1 ≤ j)
eq_or_later i j h = omega arith

probe-IsAnswer :
    (store : Memory BasicBlock) (a left index : ℕ) {info : BlockInfo}
    → probe store a left index ≡ some info
    → IsAnswer store a index (index + left) info
unfolding probe
probe-IsAnswer store a zero index h = cc
probe-IsAnswer store a (suc left) index {info} h = elim (entry_cases store a index) [
  | inl free ↦
      let e : info ≡ record { block_found = false; block_index = index } = ground arith in
      rw e (record {
        from = omega arith;
        below = omega arith;
        passed = λ i p q. absurd (omega arith);
        stopped = inr (refl, free);
      })
  | inr (inl here) ↦
      let e : info ≡ record { block_found = true; block_index = index } = ground arith in
      rw e (record {
        from = omega arith;
        below = omega arith;
        passed = λ i p q. absurd (omega arith);
        stopped = inl (refl, here);
      })
  | inr (inr other) ↦
      let t = probe-IsAnswer store a left (index + 1) {info = info} (ground arith) in
      record {
        from = omega (arith, t.from);
        below = omega (arith, t.below);
        passed = λ i p q. elim (eq_or_later index i p) [
          | inl e ↦ rw e at other
          | inr later ↦ t.passed i later q
        ];
        stopped = t.stopped;
      }
]

-- An answer that fits the store is the answer that the search gives.
probe_of_answer :
    (store : Memory BasicBlock) (a left index : ℕ) (info : BlockInfo)
    → IsAnswer store a index (index + left) info
    → probe store a left index ≡ some info
unfolding probe
probe_of_answer store a zero index info t = absurd (omega (arith, t.from, t.below))
probe_of_answer store a (suc left) index info t = elim (eq_or_later index info.block_index t.from) [
  | inl e ↦
      let stopped = rw (← e) at t.stopped in
      elim stopped [ inl (yes_found, here) ↦ ground arith | inr (not_found, free) ↦ ground arith ]
  | inr later ↦
      let other = t.passed index (omega arith) (omega arith) in
      let rest = probe_of_answer store a left (index + 1) info (record {
        from = later;
        below = omega (arith, t.below);
        passed = λ i p q. t.passed i (omega arith) q;
        stopped = t.stopped;
      }) in
      ground arith
]

probe-none :
    (store : Memory BasicBlock) (a left index : ℕ)
    → probe store a left index ≡ none
    → (i : ℕ) → index ≤ i
    → i < index + left
    → Occupied store a i
unfolding probe
probe-none store a zero index h i p q = absurd (omega arith)
probe-none store a (suc left) index h i p q = elim (entry_cases store a index) [
  | inl free ↦ absurd (ground arith)
  | inr (inl here) ↦ absurd (ground arith)
  | inr (inr other) ↦ elim (eq_or_later index i p) [
    | inl e ↦ rw e at other
    | inr later ↦ probe-none store a left (index + 1) (ground arith) i later (omega arith)
  ]
]

-- Where the search starts is an entry of the array.
home-lt : (a : ℕ) → get_basic_block_store_index a < basic_block_store_size
unfolding get_basic_block_store_index
home-lt a = omega (arith, bit_and_mask 16 (a / 4))

-- An entry that the search for `a` passes: from the place where it starts to the end of the array.
abbrev OnPath : ℕ → ℕ → Type 0
OnPath a i = (get_basic_block_store_index a ≤ i) × (i < basic_block_store_size)

pub get_block_info-IsAnswer :
    (store : Memory BasicBlock) (a : ℕ) {info : BlockInfo}
    → get_block_info store a ≡ some info
    → IsAnswer store a (get_basic_block_store_index a) basic_block_store_size info
unfolding get_block_info
get_block_info-IsAnswer store a h =
    let home = get_basic_block_store_index a in
    let size : home + (basic_block_store_size - home) ≡ basic_block_store_size =
      omega (arith, home-lt a) in
    rw size at (probe-IsAnswer store a (basic_block_store_size - home) home h)

pub get_block_info_of_answer :
    (store : Memory BasicBlock) (a : ℕ) (info : BlockInfo)
    → IsAnswer store a (get_basic_block_store_index a) basic_block_store_size info
    → get_block_info store a ≡ some info
unfolding get_block_info
get_block_info_of_answer store a info t =
    let home = get_basic_block_store_index a in
    let size : home + (basic_block_store_size - home) ≡ basic_block_store_size =
      omega (arith, home-lt a) in
    probe_of_answer store a (basic_block_store_size - home) home info (rw size t)

-- If each entry from the start of the search to the end of the array holds a block that starts
-- elsewhere, the search runs off the end of the array, whatever free entries there are before.
pub get_block_info-eq-none :
    (store : Memory BasicBlock) (a : ℕ)
    → ((i : ℕ) → OnPath a i → Occupied store a i)
    → get_block_info store a ≡ none
get_block_info-eq-none store a full = elim (Option-cases (get_block_info store a)) [
  | inl e ↦ e
  | inr (info, e) ↦
      let t = get_block_info-IsAnswer store a e in
      let other = full info.block_index (t.from, t.below) in absurd (ground (arith, t.stopped))
]

-- If some entry from the start of the search to the end of the array is free, or holds the block,
-- the search returns within the array, at that entry or before it; and if it has found nothing,
-- the entry that it gives is free.
pub get_block_info_total :
    (store : Memory BasicBlock) (a i : ℕ)
    → OnPath a i
    → (is_valid (store i).block_type ≡ false) ⊎ Holds store a i
    → (info : BlockInfo) × (get_block_info store a ≡ some info)
      × (info.block_index ≤ i)
      × ((Holds store a info.block_index × (info.block_found ≡ true))
          ⊎ ((is_valid (store info.block_index).block_type ≡ false) × (info.block_found ≡ false)))
get_block_info_total store a i p q = elim (Option-cases (get_block_info store a)) [
  | inl e ↦ absurd (stuck e)
  | inr (info, e) ↦
      let t = get_block_info-IsAnswer store a e in
      (
        info,
        e,
        not_passed info t,
        elim t.stopped [
          | inl (yes_found, here) ↦ inl (here, yes_found)
          | inr (not_found, free) ↦ inr (free, not_found)
        ],
      )
]
  where
    stuck : get_block_info store a ≡ none → ⊥
    stuck e =
        let home = get_basic_block_store_index a in
        let size : home + (basic_block_store_size - home) ≡ basic_block_store_size =
          omega (arith, home-lt a) in
        let other =
          probe-none store a (basic_block_store_size - home) home (unfold get_block_info in e) i p.0
            (rw size p.1) in
        ground arith

    not_passed :
        (info : BlockInfo)
        → IsAnswer store a (get_basic_block_store_index a) basic_block_store_size info
        → info.block_index ≤ i
    not_passed info t = elim (dec_le info.block_index i) [
      | yes le ↦ le
      | no gt ↦ let other = t.passed i p.0 (omega arith) in absurd (ground arith)
    ]
