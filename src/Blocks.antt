-- ===== src/Blocks.antt =====
-- The cache of translated guest code: src/guestManager/basicBlockStore.{c,h},
-- src/guestManager/translationStore.c and the unlinking of src/instructionEmu/blockLinker.c.
pub mod Store
pub mod Lookup
pub mod Placing
pub mod ExecBitmap
pub mod ExecLaws
pub mod Translations
pub mod Clearing
pub mod Appending
pub mod DryRun
mod Examples
