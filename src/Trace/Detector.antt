-- ===== src/Trace/Detector.antt =====
-- The trace of blocks (`traceBlock`, src/guestManager/guestContext.h) and the loop detector (src/
-- instructionEmu/loopDetector.c). `size` is CONFIG_GUEST_CONTEXT_BLOCK_TRACE_SIZE, `warn` and
-- `limit` are CONFIG_LOOP_DETECTOR_WARN_TRESHOLD and CONFIG_LOOP_DETECTOR_DIE_TRESHOLD. The two
-- counts are natural numbers: the code's are signed words, and the limit is far below their end.
use hyparm.Common.{
  ℕ, zero, suc, ◌+◌, ◌-◌, ◌%◌, ◌^◌, ◌==◌, ltb, leb, if◌then◌else◌, Outcome, ok, die, too_many_loops,
}
use hyparm.Memory.{Memory, update}

-- A signed index: `pos n` is n, and `negsuc n` is -(n + 1).
pub data ℤ : Type 0 where
  pos negsuc : ℕ → ℤ

pub record BlockTrace : Type 0 where
  pub block_trace : Memory ℕ
  pub block_trace_index : ℕ
  pub loop_count : ℕ
  pub next_threshold : ℕ

-- `(s32int)context->blockTraceIndex - 1`
abbrev pub previous_index : ℕ → ℤ
previous_index zero = negsuc 0
previous_index (suc i) = pos i

-- The two loops of `wrapBlockTraceIndex`.
module _ (size : ℕ) where
  unfoldable pub wrap_down : (fuel index : ℕ) → ℕ
  wrap_down zero index = index
  wrap_down (suc fuel) index =
      let rest = wrap_down fuel (index - size) in if ltb size index then rest else index

  -- From -(n + 1).
  unfoldable pub wrap_up : (fuel n : ℕ) → ℕ
  wrap_up zero n = 0
  wrap_up (suc fuel) n =
      let rest = wrap_up fuel (n - size) in if ltb n size then size - suc n else rest

  unfoldable pub wrap_block_trace_index : ℤ → ℕ
  unfolding wrap_down wrap_up
  wrap_block_trace_index (pos n) = wrap_down n n
  wrap_block_trace_index (negsuc n) = wrap_up (suc n) n

  unfoldable pub trace_block : BlockTrace → (start_address : ℕ) → BlockTrace
  trace_block t start_address =
      let next = (t.block_trace_index + 1) % 2 ^ 32 in
      let index = if leb size next then 0 else next in
      record t { block_trace_index = index; block_trace = update t.block_trace index start_address }

module _ (warn : ℕ) where
  unfoldable pub reset_loop_detector : BlockTrace → BlockTrace
  reset_loop_detector t = record t { loop_count = 0; next_threshold = warn }

  unfoldable pub run_loop_detector : (size limit : ℕ) → BlockTrace → Outcome BlockTrace
  unfolding reset_loop_detector wrap_block_trace_index
  run_loop_detector size limit t =
      let current_block = t.block_trace t.block_trace_index in
      let last_block =
        t.block_trace (wrap_block_trace_index size (previous_index t.block_trace_index)) in
      let count = suc t.loop_count in
      let counted = record t {
        loop_count = count;
        next_threshold =
            if ltb t.next_threshold count then t.next_threshold + warn else t.next_threshold;
      } in
      if current_block == last_block
      then (if ltb limit count then die too_many_loops else ok counted)
      else ok (reset_loop_detector t)
