-- ===== src/Scan.antt =====
-- Scanning guest code into blocks, and linking the blocks (src/instructionEmu).
pub mod Translator
pub mod Scanner
pub mod Linking
pub mod Rescan
pub mod Closing
pub mod BlockEnds
mod Examples
