-- ===== src/Trace/Wrapping.antt =====
-- `wrapBlockTraceIndex` in arithmetic.
use native.Mathlib.Nat.{suc-mul, one-mul}
use hyparm.Common.{
  ℕ, zero, suc, ◌+◌, ◌-◌, ◌*◌, ◌≤◌, ◌<◌, ◌≡◌, refl, arith, ◌==◌, ltb, if◌then◌else◌, Bool-cases,
  inl, inr,
}
use hyparm.Trace.Detector.{pos, negsuc, previous_index, wrap_down, wrap_up, wrap_block_trace_index}

-- A negative index is wrapped into the array: the place that it has counted from the array's end.
module _ (size : ℕ) where
  wrap_up_lem :
      (fuel n : ℕ)
      → 0 < size
      → n < fuel
      → (wrap_up size fuel n < size) × ((q : ℕ) × (wrap_up size fuel n + suc n ≡ q * size))
  unfolding wrap_up
  wrap_up_lem zero n positive enough = absurd (omega arith)
  wrap_up_lem (suc fuel) n positive enough = elim (Bool-cases (ltb n size)) [
    | inl e ↦
        let inside : n < size = ground arith in rw e (omega arith, (1, omega (arith, one-mul size)))
    | inr e ↦
        let past : size ≤ n = ground arith in
        let (below, (q, whole)) = wrap_up_lem fuel (n - size) positive (ground arith) in
        rw e (below, (suc q, omega (arith, suc-mul q size)))
  ]

  wrap_down_lem :
      (fuel n : ℕ)
      → 0 < size
      → n ≤ fuel
      → (wrap_down size fuel n ≤ size)
        × ((q : ℕ) × (wrap_down size fuel n + q * size ≡ n))
        × (0 < n → 0 < wrap_down size fuel n)
  unfolding wrap_down
  wrap_down_lem zero n positive enough = (omega arith, (0, omega arith), λ h. h)
  wrap_down_lem (suc fuel) n positive enough = elim (Bool-cases (ltb size n)) [
    | inr e ↦ rw e (ground arith, (0, omega arith), λ h. h)
    | inl e ↦
        let over : size < n = ground arith in
        let (below, (q, whole), more) = wrap_down_lem fuel (n - size) positive (omega arith) in
        rw e (below, (suc q, omega (arith, suc-mul q size)), λ h. more (omega arith))
  ]

  -- `wrapBlockTraceIndex` of an array that is not empty ends for each index. A negative index goes
  -- to a place of the array that differs from it by a multiple of the size. Another index goes to
  -- such a place as well, but a positive multiple of the size goes to the size itself, one past the
  -- end.
  pub wrap_block_trace_index_lem :
      (n : ℕ)
      → 0 < size
      → ((wrap_block_trace_index size (negsuc n) < size)
          × ((q : ℕ) × (wrap_block_trace_index size (negsuc n) + suc n ≡ q * size)))
        × (wrap_block_trace_index size (pos n) ≤ size)
        × ((q : ℕ) × (wrap_block_trace_index size (pos n) + q * size ≡ n))
        × (0 < n → 0 < wrap_block_trace_index size (pos n))
  unfolding wrap_block_trace_index
  wrap_block_trace_index_lem n positive =
      let (low, whole, more) = wrap_down_lem n n positive (omega arith) in
      (wrap_up_lem (suc n) n positive (omega arith), low, whole, more)

  -- The place before a place of the array.
  pub wrap_previous :
      (i : ℕ)
      → i < size
      → wrap_block_trace_index size (previous_index i) ≡ (if i == 0 then size - 1 else i - 1)
  unfolding wrap_block_trace_index wrap_down wrap_up
  wrap_previous zero h = ground arith
  wrap_previous (suc zero) h = refl
  wrap_previous (suc (suc i)) h = ground arith
