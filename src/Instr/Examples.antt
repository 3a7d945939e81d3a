-- ===== src/Instr/Examples.antt =====
-- The theorems on single instructions at a guest in supervisor mode, with RAM.
use hyparm.Common.{
  ℕ, ◌+◌, ◌*◌, ◌/◌, ◌%◌, ◌^◌, ◌≤◌, ◌<◌, ◌≡◌, ◌∙◌, inl, Bool, refl, arith, true, false, ◌==◌, ◌&&◌,
  ◌||◌, if◌then◌else◌, Returns, ok,
}
use hyparm.Memory.{update}
use hyparm.Cpu.State.{GuestContext, mode_of}
use hyparm.Cpu.Registers.{get_gp_register, condition_passed}
use hyparm.Cpu.Banking.{has_bank}
use hyparm.Cpu.Sample.{user}
use hyparm.Blocks.Store.{zeroed}
use hyparm.Mmu.Sample.{host_space}
use hyparm.Handle.System.{System}
use hyparm.Scan.Linking.{branch_destination}
use hyparm.Instr.Encoding.{cc, flag, rm, writes_back}
use hyparm.Instr.Machine.{Bus, offset_address, access_address}
use hyparm.Instr.Multiple.{count_bits_set, arm_stm_instruction, arm_ldm_instruction}
use hyparm.Instr.Branches.{arm_bl_instruction, arm_bx_instruction}
use hyparm.Instr.Loads.{arm_ldrd_imm_instruction}
use hyparm.Instr.Emulate.{decode_access}
use hyparm.Instr.Ram.{IsRam, register}
use hyparm.Access.{AccessSize}
use hyparm.Mmu.Entries.{get_entry_first}
use hyparm.Mmu.Places.{get_entry_first_lem}
use hyparm.Devices.Tree.{Functions}
use hyparm.Devices.Ram.{IsGuestWord, sdram_bus, sdram_bus-IsRam}
use hyparm.Instr.Jumps.{arm_bx-arm_bl}
use hyparm.Instr.PushPop.{arm_ldm-arm_stm}
use hyparm.Instr.Dual.{arm_ldrd_imm_instruction_lem}
use hyparm.Instr.Decoding.{
  single_encoding, without_user, extra_access, decode_access-single, decode_access-extra,
}
use hyparm.Memory.{Memory}
use hyparm.Common.{Outcome}
use hyparm.Cpu.Exceptions.{jump}
use hyparm.Mmu.Space.{Space}
use hyparm.Scan.Scanner.{Decoder, irc_replace}
use hyparm.Handle.Aborts.{dabt_permission_fault}
use hyparm.Instr.Emulate.{emulate_load_store_generic}
use hyparm.Instr.Emulation.{dabt_permission_fault-store}

abbrev caller : GuestContext
caller = record user {
  registers = λ n. if n == 15 then 0x8000 else 0x8200_1000 + n * 0x100;
  cpsr = 0x4000_0013;
  guest_data_abt_pending = false;
}

-- The hypervisor's table maps the megabyte from 0x8200_0000 to itself.
abbrev sections : Memory ℕ
sections a = if a == 0x8100_2080 then 0x8200_0402 else 0

abbrev start : System
start = record {
  guest = caller;
  tables = record {
    guest_physical = 0x8000_4000;
    hypervisor_page_table = 0x8100_0000;
    context_id = 1;
  };
  mmu = record { ttbr0 = 0x8200_0000; asid = 0x101 };
  virt_addr_enabled = false;
  scanning = record {
    translation_store = record {
      code_store = 0xa000_0000;
      code_store_free_ptr = 0xa000_0000;
      basic_block_store = λ i. zeroed;
      write = true;
      words = λ a. 0;
    };
    exec_bitmap = λ n. 0;
    space = record host_space { words = sections };
    r15 = 0;
    last_entry_block_index = 0;
  };
  trace = record {
    block_trace = λ n. 0;
    block_trace_index = 0;
    loop_count = 0;
    next_threshold = 100;
  };
  must_reset_loop_detector = false;
}

abbrev no_shadow : Space → ℕ → Bool × Space
no_shadow space a = (false, space)

abbrev no_edit : System → ℕ → ℕ → ℕ → Outcome System
no_edit s virt_addr phy_addr value = ok s

-- The other devices read as 0, and ignore what is stored.
abbrev other_load : Functions → ℕ → System → AccessSize → ℕ → ℕ → Outcome (ℕ × System)
other_load f start_address s size virt_addr phy_addr = ok (0, s)

abbrev other_store : Functions → ℕ → System → AccessSize → ℕ → ℕ → ℕ → Outcome System
other_store f start_address s size virt_addr phy_addr value = ok s

abbrev no_tables : Memory ℕ
no_tables a = 0

abbrev bus : Bus
bus = sdram_bus false false false no_shadow no_edit other_load other_store no_tables

bus-IsRam : IsRam bus
unfolding sdram_bus-IsRam
bus-IsRam =
    sdram_bus-IsRam false false false no_shadow no_edit other_load other_store no_tables 0x8200_0000
      0x8210_0000 (omega arith) (omega arith)

start-IsGuestWord :
    (a : ℕ)
    → 0x8200_0000 ≤ a
    → a < 0x8210_0000
    → a % 4 ≡ 0
    → IsGuestWord 0x8200_0000 0x8210_0000 start a
start-IsGuestWord a from to aligned =
    let at : get_entry_first 0x8100_0000 a ≡ 0x8100_2080 =
      get_entry_first_lem 0x8100_0000 a (omega arith) (omega (arith, to))
      ∙ omega (arith, from, to) in
    let megabyte : 0x820 ≡ a / 2 ^ 20 = omega (arith, from, to) in
    record {
      off = refl;
      aligned = aligned;
      from = from;
      to = to;
      is_section = rw at refl;
      not_super = rw at refl;
      to_itself = rw at megabyte;
      apart = inl (rw at (omega arith));
    }

arm_bx-arm_bl_example : Returns (arm_bl_instruction false start 0xeb00_0002) λ (t, target).
    (target ≡ branch_destination 0x8000 0xeb00_0002)
    × ((n : ℕ) → n < 14 → get_gp_register false t.guest n ≡ get_gp_register false caller n)
    × ((u : System) (return : ℕ)
        → get_gp_register false u.guest 14 ≡ get_gp_register false t.guest 14
        → condition_passed u.guest (cc return) ≡ true
        → rm return ≡ 14
        → Returns (arm_bx_instruction false u return) λ (w, next). next ≡ (0x8000 + 4) % 2 ^ 32)
unfolding condition_passed
arm_bx-arm_bl_example = arm_bx-arm_bl start 0xeb00_0002 refl (omega arith) refl refl

-- STMDB R0!, {R4-R6} and LDMIA R0!, {R4-R6}.
arm_ldm-arm_stm_example : Returns (arm_stm_instruction false bus start 0xe920_0070) λ (t, next).
    (next ≡ (0x8000 + 4) % 2 ^ 32)
    × ((u : System)
        → has_bank (mode_of u.guest.cpsr) ≡ true
        → condition_passed u.guest (cc 0xe8b0_0070) ≡ true
        → u.scanning.space.words ≡ t.scanning.space.words
        → ((j : ℕ)
            → j < 15
            → IsGuestWord 0x8200_0000 0x8210_0000 u ((0x8200_0ff4 + 4 * j) % 2 ^ 32))
        → get_gp_register false u.guest 0 ≡ get_gp_register false t.guest 0
        → Returns (arm_ldm_instruction false bus u 0xe8b0_0070) λ (w, after).
          (after ≡ (u.guest.registers 15 + 4) % 2 ^ 32)
          × ((n : ℕ)
              → n < 15
              → get_gp_register false w.guest n
                ≡ get_gp_register false (if flag n 0x70 || 0 == n then caller else u.guest) n))
unfolding condition_passed get_gp_register bus-IsRam count_bits_set
arm_ldm-arm_stm_example =
    arm_ldm-arm_stm bus bus-IsRam start 0xe920_0070 0xe8b0_0070 refl refl refl (omega arith) refl
      (omega arith) refl refl refl refl refl
      (λ j lt.
        start-IsGuestWord ((0x8200_0ff4 + 4 * j) % 2 ^ 32) (omega (arith, lt)) (omega (arith, lt))
          (omega arith))

-- LDRD R2, [R0, #8]
arm_ldrd_imm_instruction_lem_example :
    Returns (arm_ldrd_imm_instruction false bus start 0xe1c0_20d8) λ (t, next).
      (next ≡ (0x8000 + 4) % 2 ^ 32)
      × (t.scanning.space.words ≡ start.scanning.space.words)
      × ((n : ℕ)
          → n < 15
          → get_gp_register false t.guest n ≡ (
              if writes_back 0xe1c0_20d8 && 0 == n
              then ok (offset_address 0xe1c0_20d8 (register caller 0) 8)
              else if 2 == n
              then ok (
                  start.scanning.space.words
                    ((access_address 0xe1c0_20d8 (register caller 0) 8 + 4) % 2 ^ 32))
              else get_gp_register false caller n))
unfolding condition_passed get_gp_register bus-IsRam
arm_ldrd_imm_instruction_lem_example =
    arm_ldrd_imm_instruction_lem bus bus-IsRam start 0xe1c0_20d8 refl refl (omega arith)
      (omega arith) (start-IsGuestWord 0x8200_1008 (omega arith) (omega arith) refl)
      (start-IsGuestWord 0x8200_100c (omega arith) (omega arith) refl)

-- LDRT R0, [R1], #4
decode_access-single_example :
    decode_access 0xe4b1_0004 ≡ without_user (single_encoding 0xe4b1_0004)
decode_access-single_example = decode_access-single 0xe4b1_0004 refl (λ e. refl)

-- LDRSB R2, [R1, #1]
decode_access-extra_example : decode_access 0xe1d1_20d1 ≡ extra_access 0xe1d1_20d1
decode_access-extra_example =
    decode_access-extra 0xe1d1_20d1 refl refl refl (omega arith) (λ e. refl)

-- STR R2, [R1, #4], with a decoder that replaces each instruction.
abbrev decoder : Decoder
decoder = record {
  decode = λ instruction. irc_replace;
  handler_of = λ instruction. 0x9000;
  pc_handler = λ ts index pc instruction. ts;
}

abbrev code : Memory ℕ
code a = 0xe581_2004

abbrev protect : Space → ℕ → ℕ → Outcome Space
protect space a b = ok space

dabt_permission_fault-store_example :
    Returns
      (dabt_permission_fault 0xa010_0000 decoder code protect
        (λ c. true)
        false
        code
        (λ s a. (false, s))
        (emulate_load_store_generic bus code)
        start
        true
        0x8200_1104)
      λ t.
        (t.guest ≡ jump caller ((0x8000 + 4) % 2 ^ 32))
        × ((b : ℕ)
            → IsGuestWord 0x8200_0000 0x8210_0000 start b
            → t.scanning.space.words b
              ≡ update start.scanning.space.words
                  (access_address 0xe581_2004 (register caller 1) 4)
                  (register caller 2)
                  b)
unfolding condition_passed get_gp_register bus-IsRam
dabt_permission_fault-store_example =
    dabt_permission_fault-store bus bus-IsRam 0xa010_0000 decoder code code protect (λ c. true)
      (λ s a. (false, s)) start 0x8200_1104 refl refl refl refl refl refl refl refl
      (start-IsGuestWord 0x8200_1104 (omega arith) (omega arith) refl)
