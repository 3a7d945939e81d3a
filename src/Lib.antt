-- ===== src/Lib.antt =====
-- Hyparm, a hypervisor for the ARM Cortex-A8 that runs a guest by binary translation: a model of
-- parts of it, and the theorems on them.
--
-- The program. The guest's code runs as translated blocks. src/guestManager/basicBlockStore.c keeps
-- the blocks, src/guestManager/translationStore.c their code, and src/instructionEmu/blockLinker.c
-- links and unlinks them. A guest write to a page with translated code clears the translations that
-- it makes stale. The guest sees emulated devices; the one through which all others signal is the
-- interrupt controller src/vm/omap35xx/intc.c, which tells the host's controller
-- (src/drivers/beagle/beIntc.c) of the masking of the timer GPT1. src/guestManager/guestExceptions.c
-- raises its lines, and makes the guest take interrupts, aborts and service calls by a change of its
-- processor's state.
--
-- The files.
-- Common and its children hold the tests on numbers, C arrays as lists, and `Outcome`, the result of
-- code that may reach `DIE_NOW`. Bits is about the bits of 32-bit words. Memory is memory as a
-- function of the address.
-- Access is ACCESS_SIZE of src/common/types.h, and Host is maskInterruptBE and unmaskInterruptBE.
-- Intc is src/vm/omap35xx/intc.c: State is the struct and its reset, Registers the map of its
-- registers, Banks the masks, Lines setInterrupt and clearInterrupt, Priority prioritySortIrqs, Load
-- and Store the accesses of the guest. The proofs stand in Invariant, Accesses, Reach (all
-- histories), Masking, Raising, Sorting and MaskStores, in the terms of Views (one line at a time).
-- Blocks is the cache of translated code: Store and Lookup are getBlockInfo, Placing is its use by
-- the scanner, ExecBitmap and ExecLaws are setExecBitmap and isExecBitSet, Translations is
-- src/guestManager/translationStore.c with addInstructionToBlock, unlinkBlock and unlinkAllBlocks;
-- Clearing, Appending and DryRun prove what these do.
-- Cpu is the guest's processor: State is the processor part of struct guestContext, Registers the
-- access to registers and the condition codes (src/instructionEmu/interpreter/internals.c and
-- common.h), Shifts the shifter operands, Modes guestChangeMode with the parts of
-- src/memoryManager/addressing.c that it calls, CPSRWriteByInstr and SPSRWriteByInstr
-- (src/instructionEmu/interpreter/common.c), Exceptions is src/guestManager/guestExceptions.c. The
-- proofs stand in Banking, Conditions, Rotations, Entry, Handlers, Delivery, Throwing, Return, Resume
-- and Msr.
-- Mmu is src/memoryManager: Entries are the formats of pageTable.h, Protection shouldDataAbort and
-- shouldPrefetchAbort, Building and Mapping the making of entries and the mappings of pageTable.c,
-- Space the look-up of an address, Regions mapRegion, WriteProtect guestWriteProtect and
-- writeProtectRange, Infos pageTableInfo.c, Shadow mapAccessPermissionBits of shadowMap.c. Rights is
-- the architecture's walk and permission check, to which Faults compares the code. The other proofs
-- stand in Places, InfoLaws, SectionMaps, PageMaps, LargeMaps, RegionLaws, OnePage and
-- ProtectedPages.
-- Trace is src/instructionEmu/loopDetector.c with traceBlock (Detector); Wrapping and Detection are
-- the proofs.
-- Scan is src/instructionEmu/scanner.c (Scanner) and the parts of the translator and the linker that
-- make host instructions (Translator); Closing, BlockEnds, Rescan and Linking are
-- the proofs. The scanner
-- fills the blocks of Blocks, and calls the write protection of Mmu through an argument. Its decoder
-- is the record `Decoder`, with the law `Adds` on the function that rewrites an instruction.
-- Handle is src/exceptions/exceptionHandlers.c, which puts the components together: System is what the
-- handlers work on, HostPc findBlockIndexNumber and hostpcToGuestpc (src/instructionEmu/translator/
-- translator.c), Aborts the data and prefetch aborts, Calls softwareInterrupt. Where a handler or an
-- instruction changes the guest's mode, change_guest has the write of TTBR0 that
-- src/memoryManager/addressing.c ends with. Taking, Addressing, Injection and Preemption are the
-- proofs. The load and store emulation and the instruction handlers are
-- arguments; Instr has the emulation.
-- Instr is the guest's single instructions: Encoding are the fields of union ARMInstruction
-- (src/instructionEmu/decoder/arm/structs.h), Machine the shared parts of
-- src/instructionEmu/interpreter/common.h, Transfers, Loads, Stores, Multiple, Branches, Status
-- and Sync the files of src/instructionEmu/interpreter/arm, and Emulate emulateLoadStoreGeneric
-- (src/instructionEmu/loadStoreDecode.c). vmLoad and vmStore are the record `Bus`; `IsRam` says
-- of them that the words of RAM stay as they are stored. Jumps, Saving, Loading, Directions, PushPop, Dual,
-- Masks, SingleFields, Decoding and Emulation are the proofs.
-- Devices is src/vm/omap35xx/hardwareLibrary.c: Tree are createDevice, attachDevice and the
-- generic load and store, Library createHardwareLibrary, Access vmLoad and vmStore, which fill
-- `Bus`, Sdram loadSdram and storeSdram of src/vm/omap35xx/sdram.c, and Ram fills `IsRam` for the
-- guest's words in the SDRAM. MemoryMap is the map by ranges, to which Routing and Places compare the tree; SdramRow is about its last row. The fuel
-- of the tree is its depth, 6.
-- In a component Examples applies its theorems to concrete states.
--
-- The correspondence. A C function f is the function f in snake_case. A function that changes a
-- struct takes it and gives the changed one. Numbers are natural numbers; where an operation of the
-- source can wrap round, the remainder by 2 ^ 32 is written out, and ~x is `not32 x`. A `switch` on a
-- register offset is a match on the register at that offset. CONFIG_GUEST_FREERTOS is a Boolean
-- argument, and the ends of the code cache are arguments too. Arrays that the code walks with
-- pointers are functions of the index. Loops count the rounds that are left: 32 for the bits of a
-- word, 65536 for the entries of the block store, and for the search of getBlockInfo, which has no
-- bound in the source, the entries from its start to the end of the array; past that end the
-- source reads outside the array, which is `none`.
--
-- Page table entries are words, and a bit-field is read and assigned at its place. Memory is indexed
-- by the addresses that the code uses; the hypervisor's own mapping is one to one. What `memalign`
-- gives is the argument `memalign`, a sequence of addresses. shadowMap is not modelled: it is the
-- argument `shadow_map`, and whether the guest's own table is, or can be, mapped when the guest
-- changes between user and privileged modes is the argument `table_mapped`. mapRegion and
-- writeProtectRange count down the small pages of 32-bit addresses, and the scanner their words;
-- a loop that uses all of them up dies with `endless`, which the theorems exclude.
--
-- Not modelled: the decoder and the Thumb code, the rewriting of single instructions by the
-- translators, `irq` and `fiq` (which drive the host's devices), CONFIG_HW_PASSTHROUGH in the
-- handlers, the rest of the memory manager, the loads and stores of the other devices, the drivers
-- and the boot code. Tracing, printing and cache maintenance have no counterpart, and allocation is
-- taken to succeed.
pub mod Common
pub mod Bits
pub mod Access
pub mod Host
pub mod Intc
pub mod Memory
pub mod Blocks
pub mod Cpu
pub mod Devices
pub mod Mmu
pub mod Trace
pub mod Scan
pub mod Handle
pub mod Instr
