-- ===== src/Scan/Examples.antt =====
-- The theorems on scanning and linking at a small guest.
use hyparm.Common.{
  ℕ, suc, Bool, ◌+◌, ◌*◌, ◌≤◌, ◌≡◌, ◌≢◌, refl, arith, true, false, ltb, ◌==◌, if◌then◌else◌,
}
use hyparm.Common.{ok, die, bad_range, sym, Returns, Outcome}
use mathlib.Core.Path.{subst}
use hyparm.Memory.{Memory}
use hyparm.Blocks.Store.{BlockType, BasicBlock, zeroed}
use hyparm.Blocks.Translations.{TranslationStore, unlink_block}
use hyparm.Mmu.Sample.{host_space}
use hyparm.Mmu.Space.{Space}
use hyparm.Mmu.Infos.{get_page_table_info}
use hyparm.Mmu.WriteProtect.{guest_write_protect, write_protect_range, protect_pages}
use hyparm.Scan.Translator.{link_block, arm_write_pc_to_register}
use hyparm.Scan.Scanner.{
  Decoder, ScanContext, irc_safe, irc_replace, hypercall_word, scan_arm_block,
}
use hyparm.Scan.Linking.{unlink_block-link_block}
use hyparm.Scan.Closing.{Adds, arm_write_pc_to_register-IsBuilding, EndsWith}
use hyparm.Scan.BlockEnds.{scan_arm_block_lem}

-- Two moves and a branch to 0x8000, at 0x8000.
abbrev program : Memory ℕ
program a = if a == 0x8008 then 0xeaff_fffc else 0xe1a0_0001

abbrev decoder : Decoder
decoder = record {
  decode = λ instruction. if instruction == 0xe1a0_0001 then irc_safe else irc_replace;
  handler_of = λ instruction. 0x9000;
  pc_handler = λ ts index pc instruction. arm_write_pc_to_register 0xb000_0000 ts index 14 0 pc;
}

decoder-Adds : Adds decoder
decoder-Adds ts index pc instruction t =
    arm_write_pc_to_register-IsBuilding 0xb000_0000 ts index 14 0 pc t

-- Block 3 has the two moves, its hypercall and its index, from 0xa000_0000 on.
abbrev block_three : BasicBlock
block_three = record {
  block_type = BlockType.arm;
  guest_start = 0x8000;
  guest_end = 0x8008;
  code_store_start = 0xa000_0000;
  code_store_size = 4;
  handler = 0x9000;
  one_hypercall = true;
}

abbrev store : TranslationStore
store = record {
  code_store = 0xa000_0000;
  code_store_free_ptr = 0xa000_0010;
  basic_block_store = λ i. if i == 3 then block_three else zeroed;
  write = true;
  words =
      λ a. if a == 0xa000_0008 then 0xef00_0103 else if a == 0xa000_000c then 3 else 0xe1a0_0001;
}

abbrev scanning : ScanContext
scanning = record {
  translation_store = store;
  exec_bitmap = λ n. 0;
  space = host_space;
  r15 = 0x8000;
  last_entry_block_index = 0;
}

abbrev allocator : ℕ → ℕ
allocator n = 0x4000 * (n + 1)

abbrev no_shadow : Space → ℕ → Bool × Space
no_shadow space a = (false, space)

-- `guestWriteProtect` on the hypervisor's table, where the pages of the guest have no entry.
abbrev protect : Space → ℕ → ℕ → Outcome Space
protect space a b = guest_write_protect allocator no_shadow space false 0 0 0x4000 a b

protect_page :
    (fuel e : ℕ)
    → ltb 0x8fff e ≡ false
    → protect_pages allocator no_shadow (suc fuel) host_space 0x4000 0x8000 e 0x8000 ≡ ok host_space
unfolding protect_pages get_page_table_info
protect_page fuel e last = rw last refl

guest_write_protect_here :
    (table a b : ℕ) (s : Space)
    → ltb b a ≡ false
    → write_protect_range allocator no_shadow host_space table a b ≡ ok s
    → guest_write_protect allocator no_shadow host_space false 0 0 table a b ≡ ok s
unfolding guest_write_protect
guest_write_protect_here table a b s ordered returns =
    subst
      (λ (empty : Bool).
        (if empty
          then die bad_range
          else write_protect_range allocator no_shadow host_space table a b)
        ≡ ok s)
      (sym ordered) returns

protect_range :
    (e : ℕ)
    → ltb 0x8fff e ≡ false
    → write_protect_range allocator no_shadow host_space 0x4000 0x8000 e ≡ ok host_space
unfolding write_protect_range
protect_range e last = protect_page 0xf_ffff e last

protect_returns :
    (e : ℕ) → 0x8000 ≤ e → e ≤ 0x8008 → (s : Space) × (protect host_space 0x8000 e ≡ ok s)
protect_returns e from to = (
  host_space,
  guest_write_protect_here 0x4000 0x8000 e host_space (ground (arith, from))
      (protect_range e (ground (arith, to))),
)

scan_arm_block_lem_example :
    Returns (scan_arm_block 0xb000_0000 decoder program protect scanning 0x8000 4) λ after.
      EndsWith after.translation_store 4 (hypercall_word 4)
      × (after.r15 ≡ (after.translation_store.basic_block_store 4).code_store_start)
scan_arm_block_lem_example =
    scan_arm_block_lem 0xb000_0000 decoder program decoder-Adds protect scanning 0x8000 4 2 refl
      (omega arith) (omega arith) (omega arith) refl protect_returns

unlink_block-link_block_example :
    ((a : ℕ)
      → 0xa000_0008 ≢ a
      → (link_block program store 0x8000 0xa000_0008 3).words a ≡ store.words a)
    × ((a : ℕ)
        → (unlink_block (link_block program store 0x8000 0xa000_0008 3) 3).words a ≡ store.words a)
unlink_block-link_block_example = unlink_block-link_block program store 0x8000 3 refl refl
