-- ===== src/Devices.antt =====
-- The library of the emulated devices (src/vm/omap35xx/hardwareLibrary.c): a tree of buses and end
-- devices, in which the address of an access finds the functions of its device.
pub mod Tree
pub mod Library
pub mod MemoryMap
pub mod Routing
pub mod Places
pub mod Access
mod Examples
pub mod Sdram
pub mod SdramRow
pub mod Ram
