-- ===== src/Handle.antt =====
-- The handlers of the exceptions that the host takes while the guest runs (src/exceptions/
-- exceptionHandlers.c): they put the guest's processor, its memory protection, the scanner and the
-- loop detector together.
pub mod System
pub mod HostPc
pub mod Aborts
pub mod Calls
pub mod Preemption
pub mod Addressing
pub mod Taking
pub mod Injection
mod Examples
