-- ===== src/Instr.antt =====
-- The instructions that the hypervisor interprets (src/instructionEmu/interpreter/arm), and the
-- emulation of loads and stores that fault (src/instructionEmu/loadStoreDecode.c).
pub mod Encoding
pub mod Machine
pub mod Transfers
pub mod Loads
pub mod Stores
pub mod Multiple
pub mod Branches
pub mod Ram
pub mod Saving
pub mod Loading
pub mod Directions
pub mod PushPop
pub mod Dual
pub mod Jumps
pub mod Status
pub mod Sync
pub mod Emulate
pub mod Masks
pub mod SingleFields
pub mod Decoding
pub mod Emulation
mod Examples
