-- ===== src/Intc/Sorting.antt =====
-- `prioritySortIrqs` against its contract.
use hyparm.Common.{ℕ, zero, suc, ◌+◌, ◌%◌, ◌/◌, ◌≤◌, ◌<◌, ◌≡◌, ◌≢◌, refl, arith, true, leb}
use hyparm.Common.{◌!=◌, ◌==◌, List, get_or, ◌⊎◌, inl, inr, Bool-cases}
use native.Mathlib.Nat.{zero-add}
use hyparm.Bits.{bit_at, bit_test, bit_at-zero}
use hyparm.Intc.State.{InterruptController}
use hyparm.Intc.Views.{pending_bit}
use hyparm.Intc.Lines.{is_irq_pending}
use hyparm.Intc.Priority.{Best, scan_bit, scan_bank, visit_bank, priority_sort_irqs}

-- `k` is a candidate after `n` lines have been seen: its priority is that of its line, and it is
-- at least as good as each pending line seen, the later line of two equal ones.
record IsBest (ilr : List ℕ) (pending : ℕ → ℕ) (seen : ℕ) (b : Best) : Type 0 where
  best_of : (m : ℕ) → m < seen → pending m ≡ 1 → get_or ilr m 0 ≤ b.priority
  last_of : (m : ℕ) → m < seen → pending m ≡ 1 → get_or ilr m 0 ≡ b.priority → m ≤ b.irq
  found :
      ((pending b.irq ≡ 1) × (b.irq < seen) × (get_or ilr b.irq 0 ≡ b.priority))
      ⊎ ((b.priority ≡ 0) × (b.irq ≡ 0) × ((m : ℕ) → m < seen → pending m ≢ 1))

module _ (ilr : List ℕ) (pending : ℕ → ℕ) {n : ℕ} {b : Best} (h : IsBest ilr pending n b) where
  skip-IsBest : pending n ≢ 1 → IsBest ilr pending (suc n) b
  skip-IsBest idle = record {
    best_of = λ m lt p. grind (arith, h.best_of);
    last_of = λ m lt p q. grind (arith, h.last_of);
    found = elim h.found [
      | inl (p, lt, q) ↦ inl (p, omega arith, q)
      | inr (z, w, none_of) ↦ inr (z, w, λ m lt p. grind (arith, none_of))
    ];
  }

  keep-IsBest : get_or ilr n 0 < b.priority → IsBest ilr pending (suc n) b
  keep-IsBest worse = record {
    best_of = λ m lt p. grind (arith, h.best_of);
    last_of = λ m lt p q. grind (arith, h.last_of);
    found = elim h.found [
      | inl (p, lt, q) ↦ inl (p, omega arith, q)
      | inr (z, w, none_of) ↦ absurd (omega arith)
    ];
  }

  take-IsBest :
      pending n ≡ 1
      → b.priority ≤ get_or ilr n 0
      → IsBest ilr pending (suc n) (record { priority = get_or ilr n 0; irq = n })
  take-IsBest here better = record {
    best_of = λ m lt p. grind (arith, h.best_of);
    last_of = λ m lt p q. omega arith;
    found = inl (here, omega arith, refl);
  }

module _ (ilr : List ℕ) (pending : ℕ → ℕ) (word base : ℕ)
    (agrees : (i : ℕ) → i < 32 → bit_at word i ≡ pending (i + base)) where
  scan_bit-IsBest :
      (i : ℕ) (b : Best)
      → i < 32
      → IsBest ilr pending (i + base) b
      → IsBest ilr pending (suc (i + base)) (scan_bit ilr word base i b)
  unfolding scan_bit
  scan_bit-IsBest i b lt h = elim (Bool-cases (bit_at word i == 1)) [
    | inr e ↦ rw (bit_test, e) (skip-IsBest ilr pending h (λ p. ground (arith, agrees i)))
    | inl e ↦
        let here : pending (i + base) ≡ 1 = ground (arith, agrees i) in
        elim (Bool-cases (leb b.priority (get_or ilr (i + base) 0))) [
          | inl f ↦ rw (bit_test, e, f) (take-IsBest ilr pending h here (ground arith))
          | inr f ↦ rw (bit_test, e, f) (keep-IsBest ilr pending h (ground arith))
        ]
  ]

  scan_bank-IsBest :
      (left i : ℕ) (b : Best)
      → i + left ≡ 32
      → IsBest ilr pending (i + base) b
      → IsBest ilr pending (32 + base) (scan_bank ilr word base left i b)
  unfolding scan_bank
  scan_bank-IsBest zero i b e h = let f : i ≡ 32 = omega arith in rw f at h
  scan_bank-IsBest (suc left) i b e h =
      let step = scan_bit-IsBest i b (omega arith) h in
      let same : suc (i + base) ≡ i + 1 + base = omega arith in
      scan_bank-IsBest left (i + 1) _ (omega arith) (rw same at step)

  -- A word of zero has nothing to visit.
  idle-IsBest :
      (left i : ℕ) (b : Best)
      → i + left ≡ 32
      → word ≡ 0
      → IsBest ilr pending (i + base) b
      → IsBest ilr pending (32 + base) b
  idle-IsBest zero i b e z h = let f : i ≡ 32 = omega arith in rw f at h
  idle-IsBest (suc left) i b e z h =
      let step = skip-IsBest ilr pending h (λ p. ground (arith, agrees i, bit_at-zero i)) in
      let same : suc (i + base) ≡ i + 1 + base = omega arith in
      idle-IsBest left (i + 1) b (omega arith) z (rw same at step)

  visit_bank-IsBest :
      (b : Best)
      → IsBest ilr pending base b
      → IsBest ilr pending (32 + base) (visit_bank ilr word base b)
  unfolding visit_bank
  visit_bank-IsBest b h =
      let start : IsBest ilr pending (0 + base) b = rw zero-add h in
      elim (Bool-cases (word != 0)) [
        | inl e ↦ rw e (scan_bank-IsBest 32 0 b (omega arith) start)
        | inr e ↦ rw e (idle-IsBest 32 0 b (omega arith) (ground arith) start)
      ]

module _ (c : InterruptController) where
  abbrev bit_of : ℕ → ℕ
  bit_of = pending_bit c

  bank0 : (i : ℕ) → i < 32 → bit_at c.intc_pending_irq0 i ≡ bit_of (i + 0)
  bank0 i h =
      let e : i + 0 ≡ i = omega arith in
      let q : i / 32 ≡ 0 = omega arith in let r : i % 32 ≡ i = omega arith in rw (e, q, r)

  bank1 : (i : ℕ) → i < 32 → bit_at c.intc_pending_irq1 i ≡ bit_of (i + 32)
  bank1 i h =
      let q : (i + 32) / 32 ≡ 1 = omega arith in
      let r : (i + 32) % 32 ≡ i = omega arith in rw (q, r)

  bank2 : (i : ℕ) → i < 32 → bit_at c.intc_pending_irq2 i ≡ bit_of (i + 64)
  bank2 i h =
      let q : (i + 64) / 32 ≡ 2 = omega arith in
      let r : (i + 64) % 32 ≡ i = omega arith in rw (q, r)

  abbrev first : Best
  first = visit_bank c.intc_ilr c.intc_pending_irq0 0 (record { priority = 0; irq = 0 })

  abbrev second : Best
  second = visit_bank c.intc_ilr c.intc_pending_irq1 32 first

  abbrev third : Best
  third = visit_bank c.intc_ilr c.intc_pending_irq2 64 second

  third-IsBest : IsBest c.intc_ilr bit_of 96 third
  third-IsBest =
      let none_seen : IsBest c.intc_ilr bit_of 0 (record { priority = 0; irq = 0 }) = record {
        best_of = λ m lt p. absurd (omega arith);
        last_of = λ m lt p q. absurd (omega arith);
        found = inr (refl, refl, λ m lt p. omega arith);
      } in
      visit_bank-IsBest c.intc_ilr bit_of c.intc_pending_irq2 64 bank2 second (
        visit_bank-IsBest c.intc_ilr bit_of c.intc_pending_irq1 32 bank1 first
          (visit_bank-IsBest c.intc_ilr bit_of c.intc_pending_irq0 0 bank0 _ none_seen))

  pub is_irq_pending-of : (m : ℕ) → m < 96 → bit_of m ≡ 1 → is_irq_pending c ≡ true
  unfolding is_irq_pending
  is_irq_pending-of m h p = ground (arith, bit_at-zero (m % 32))

-- If line `m` is pending, then `prioritySortIrqs` gives a pending line of the 96, and its priority
-- register is greater than that of `m`, or equal to it while its number is no smaller.
pub priority_sort_irqs_lem :
    (c : InterruptController) (m : ℕ)
    → m < 96
    → pending_bit c m ≡ 1
    → let n = priority_sort_irqs c in
      (n < 96)
      × (pending_bit c n ≡ 1)
      × ((get_or c.intc_ilr m 0 < get_or c.intc_ilr n 0)
          ⊎ ((get_or c.intc_ilr m 0 ≡ get_or c.intc_ilr n 0) × (m ≤ n)))
unfolding priority_sort_irqs
priority_sort_irqs_lem c m h p =
    let best = third-IsBest c in
    rw (is_irq_pending-of c m h p) (elim best.found [
      | inr (z, w, none_of) ↦ absurd (none_of m h p)
      | inl (q, lt, e) ↦ (lt, q, omega (arith, best.best_of m h p, best.last_of m h p))
    ])
