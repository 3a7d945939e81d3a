-- ===== src/Trace.antt =====
-- The trace of the basic blocks that the guest ran, and the detector of loops of one block.
pub mod Detector
pub mod Wrapping
pub mod Detection
mod Examples
