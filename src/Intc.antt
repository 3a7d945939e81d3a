-- ===== src/Intc.antt =====
-- src/vm/omap35xx/intc.c: the interrupt controller that the guest sees.
pub mod State
pub mod Banks
pub mod Lines
pub mod Priority
pub mod Registers
pub mod Load
pub mod Store
pub mod Invariant
pub mod Accesses
pub mod Reach
pub mod Views
pub mod Masking
pub mod Raising
pub mod Sorting
pub mod MaskStores
mod Examples
