-- ===== src/Cpu.antt =====
-- The guest's processor: its registers and modes (src/guestManager/guestContext.c,
-- src/instructionEmu/interpreter) and its exceptions (src/guestManager/guestExceptions.c).
pub mod State
pub mod Registers
pub mod Modes
pub mod Exceptions
pub mod Entry
pub mod Handlers
pub mod Delivery
pub mod Throwing
pub mod Banking
pub mod Conditions
pub mod Return
pub mod Resume
pub mod Msr
pub mod Sample
mod Examples
pub mod Shifts
pub mod Rotations
