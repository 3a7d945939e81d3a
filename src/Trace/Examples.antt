-- ===== src/Trace/Examples.antt =====
-- The theorems on the block trace at a trace of four places.
use hyparm.Trace.Detector.{BlockTrace}

abbrev traced : BlockTrace
traced = record {
  block_trace = λ n. 0x8000;
  block_trace_index = 3;
  loop_count = 0;
  next_threshold = 2;
}
