-- ===== src/Trace/Detection.antt =====
-- What the detector makes of the blocks that the guest runs: each is traced, and then the detector
-- runs (src/exceptions/exceptionHandlers.c).
use hyparm.Common.{
  ℕ, suc, ◌+◌, ◌%◌, ◌^◌, ◌≤◌, ◌<◌, ◌≡◌, ◌≢◌, refl, arith, false, ◌==◌, leb, if◌then◌else◌, List, [],
  ◌∷◌,
}
use hyparm.Common.{Outcome, ok, ◌>>=◌, Returns}
use hyparm.Memory.{update_self, update_ne}
use hyparm.Trace.Detector.{
  BlockTrace, trace_block, reset_loop_detector, run_loop_detector, previous_index,
  wrap_block_trace_index,
}
use hyparm.Trace.Wrapping.{wrap_previous}

module _ (size warn limit : ℕ) where
  -- One block of the guest.
  unfoldable pub run_block : BlockTrace → ℕ → Outcome BlockTrace
  unfolding trace_block run_loop_detector
  run_block t address = run_loop_detector warn size limit (trace_block size t address)

  abbrev pub run_blocks : List ℕ → BlockTrace → Outcome BlockTrace
  run_blocks [] t = ok t
  run_blocks (address ∷ rest) t = run_block t address >>= λ next. run_blocks rest next

  -- The place in the array, and the block that was traced last.
  abbrev pub LastBlock : BlockTrace → ℕ → Type 0
  LastBlock t b = (t.block_trace_index < size) × (t.block_trace t.block_trace_index ≡ b)

  abbrev next_place : ℕ → ℕ
  next_place i = if leb size (suc i) then 0 else suc i

  trace_block_lem :
      (t : BlockTrace) (b address : ℕ)
      → 2 ≤ size
      → size < 2 ^ 32
      → LastBlock t b
      → let traced = trace_block size t address in
        LastBlock traced address
        × (traced.block_trace
              (wrap_block_trace_index size (previous_index traced.block_trace_index))
            ≡ b)
        × (traced.loop_count ≡ t.loop_count)
  unfolding trace_block
  trace_block_lem t b address many small (inside, last) =
      let i = t.block_trace_index in
      let flat : (i + 1) % 2 ^ 32 ≡ suc i = omega arith in
      let place : next_place i < size = ground arith in
      let back : wrap_block_trace_index size (previous_index (next_place i)) ≡ i =
        ground (arith, wrap_previous size (next_place i) place) in
      rw flat (
        (place, update_self t.block_trace (next_place i) address),
        rw back (rw (update_ne t.block_trace (next_place i) address i (ground arith)) last),
        refl,
      )

  run_block-other :
      (t : BlockTrace) (b address : ℕ)
      → 2 ≤ size
      → size < 2 ^ 32
      → LastBlock t b
      → address ≢ b
      → Returns (run_block t address) λ u. LastBlock u address × (u.loop_count ≡ 0)
  unfolding run_block run_loop_detector reset_loop_detector
  run_block-other t b address many small last differs =
      let ((place, current), previous, kept) = trace_block_lem t b address many small last in
      let apart : (address == b) ≡ false = ground arith in
      rw (current, previous, apart) (_, refl, ((place, current), refl))

  -- Blocks of which none is the one before it.
  abbrev pub AllChange : ℕ → List ℕ → Type 0
  AllChange b [] = Unit
  AllChange b (address ∷ rest) = (address ≢ b) × AllChange address rest

  -- A guest that never runs a block twice in a row is never stopped, however small the limit, if the
  -- trace has at least two places and fewer than 2 ^ 32.
  pub run_blocks-AllChange :
      (blocks : List ℕ) (t : BlockTrace) (b : ℕ)
      → 2 ≤ size
      → size < 2 ^ 32
      → LastBlock t b
      → AllChange b blocks
      → Returns (run_blocks blocks t) λ u. u.block_trace_index < size
  run_blocks-AllChange [] t b many small last changes = (t, refl, last.0)
  run_blocks-AllChange (address ∷ rest) t b many small last (differs, changes) =
      let (u, returns, (last1, count)) = run_block-other t b address many small last differs in
      let (v, runs, inside) = run_blocks-AllChange rest u address many small last1 changes in
      rw returns (v, runs, inside)
