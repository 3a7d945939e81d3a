-- ===== src/Bits.antt =====
-- Machine words of 32 bits as native numbers, read bit by bit.
mod Step
pub use Step.{bit_and_step, bit_or_step}
mod At
mod Mask
mod Shift
mod Field
pub use At.*
unfoldable pub use At.{bit_at}
pub use Mask.*
pub use Shift.*
pub use Field.*
