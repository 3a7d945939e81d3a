-- ===== src/Handle/Examples.antt =====
-- The theorems on the handlers at a small guest.
use hyparm.Common.{
  ℕ, ◌+◌, ◌*◌, ◌^◌, ◌<◌, ◌≤◌, ◌≡◌, refl, arith, Bool, true, false, ◌==◌, if◌then◌else◌, Outcome, ok,
  ◌>>=◌,
}
use hyparm.Memory.{Memory}
use hyparm.Cpu.State.{GuestContext, Vector, irq_mode}
use hyparm.Cpu.Modes.{is_guest_in_priv_mode}
use hyparm.Cpu.Exceptions.{jump, exc_vect_low_irq}
use hyparm.Cpu.Handlers.{StartsHandler}
use hyparm.Cpu.Sample.{user}
use hyparm.Blocks.Store.{BlockType, BasicBlock, zeroed}
use hyparm.Mmu.Protection.{cp15_dacr, restored}
use hyparm.Mmu.Sample.{host_space}
use hyparm.Mmu.Space.{Space}
use hyparm.Trace.Detector.{BlockTrace, trace_block, run_loop_detector}
use hyparm.Scan.Scanner.{Decoder, ScanContext, irc_safe, irc_replace}
use hyparm.Handle.System.{System, scan_guest}
use hyparm.Handle.HostPc.{hostpc_to_guestpc, hostpc_to_guestpc_lem}
use hyparm.Handle.Aborts.{dabt_permission_fault, dabt_translation_fault}
use hyparm.Handle.Taking.{TakesDataAbort}
use hyparm.Handle.Injection.{dabt_permission_fault_lem, dabt_translation_fault_lem}
use hyparm.Handle.Calls.{is_guest_call, reset_loop_detector_if_needed, software_interrupt}
use hyparm.Handle.Preemption.{software_interrupt-deliver_interrupt}

-- Moves, translated by copies.
abbrev decoder : Decoder
decoder = record {
  decode = λ instruction. if instruction == 0xe1a0_0001 then irc_safe else irc_replace;
  handler_of = λ instruction. 0x9000;
  pc_handler = λ ts index pc instruction. ts;
}

abbrev program : Memory ℕ
program a = if a == 0x8008 then 0xeaff_fffc else 0xe1a0_0001

-- Block 3 has two moves of the guest at 0x8000, from 0xa000_0000 on.
abbrev block_three : BasicBlock
block_three = record {
  block_type = BlockType.arm;
  guest_start = 0x8000;
  guest_end = 0x8008;
  code_store_start = 0xa000_0000;
  code_store_size = 4;
  handler = 0x9000;
  one_hypercall = true;
}

abbrev scanning : ScanContext
scanning = record {
  translation_store = record {
    code_store = 0xa000_0000;
    code_store_free_ptr = 0xa000_0010;
    basic_block_store = λ i. if i == 3 then block_three else zeroed;
    write = true;
    words = λ a. 0xe1a0_0001;
  };
  exec_bitmap = λ n. 0;
  space = host_space;
  r15 = 0xa000_0004;
  last_entry_block_index = 3;
}

-- A guest in user mode, and one in supervisor mode inside block 3; both are clients of domain 1.
abbrev client : GuestContext
client = record user { coproc_reg_bank = λ n. if n == cp15_dacr then 4 else 0 }

abbrev kernel : GuestContext
kernel = record client { registers = λ n. if n == 15 then 0xa000_0004 else n; cpsr = 0x4000_0013 }

abbrev system_of : GuestContext → System
system_of c = record {
  guest = c;
  tables = record {
    guest_physical = 0x8000_4000;
    hypervisor_page_table = 0x8100_0000;
    context_id = 1;
  };
  mmu = record { ttbr0 = 0x8200_0000; asid = 0x101 };
  virt_addr_enabled = true;
  scanning = scanning;
  trace = record {
    block_trace = λ n. 0;
    block_trace_index = 0;
    loop_count = 0;
    next_threshold = 100;
  };
  must_reset_loop_detector = false;
}

-- The guest's page at 0x1234_5000 is read-only for user mode; that at 0x1235_6000 is not mapped.
abbrev guest_memory : Memory ℕ
guest_memory a =
    if a == 0x8000_448c then 0x9000_0021 else if a == 0x9000_0114 then 0x8765_4022 else 0

guest_memory-word : (a : ℕ) → guest_memory a < 2 ^ 32
guest_memory-word a = ground arith

abbrev protect : Space → ℕ → ℕ → Outcome Space
protect space a b = ok space

abbrev emulate : System → ℕ → Outcome System
emulate s a = ok s

abbrev no_shadow : System → ℕ → Bool × System
no_shadow s a = (false, s)

abbrev mapped_always : GuestContext → Bool
mapped_always c = true

two_moves : (i : ℕ) → i ≤ 1 → decoder.decode (program (0x8000 + 4 * i)) ≡ irc_safe
two_moves i h = ground arith

hostpc_to_guestpc_lem_example :
    hostpc_to_guestpc 0xb000_0000 decoder program scanning
    ≡ ok (scanning.translation_store, 0x8000 + 4 * 1)
hostpc_to_guestpc_lem_example =
    hostpc_to_guestpc_lem 0xb000_0000 decoder program scanning 1 refl (omega arith) (omega arith)
      two_moves refl (omega arith) refl

dabt_permission_fault_lem_example :
    (d : GuestContext) × TakesDataAbort client d 0x8000 0xf true 1 0x1234_5678
    × (dabt_permission_fault 0xb000_0000 decoder program protect mapped_always false guest_memory
          no_shadow emulate
          (system_of client)
          true
          0x1234_5678
        ≡ scan_guest 0xb000_0000 decoder program protect (record (system_of client) {
          guest = d;
          mmu = record { ttbr0 = client.shadow_priv; asid = 0x101 };
        }))
unfolding is_guest_in_priv_mode
dabt_permission_fault_lem_example =
    dabt_permission_fault_lem 0xb000_0000 decoder program protect mapped_always (λ c. refl) false
      guest_memory no_shadow emulate (system_of client) true 0x1234_5678 refl guest_memory-word
      (omega arith) (omega arith) refl

dabt_translation_fault_lem_example :
    (d : GuestContext) × TakesDataAbort
      (jump kernel (0x8000 + 4 * 1))
      d
      (0x8000 + 4 * 1)
      7
      false
      1
      0x1235_6000
    × (dabt_translation_fault 0xb000_0000 decoder program protect mapped_always false guest_memory
          no_shadow emulate
          (system_of kernel)
          false
          0x1235_6000
        ≡ scan_guest 0xb000_0000 decoder program protect (record (system_of kernel) {
          guest = d;
          mmu = restored (system_of kernel).tables (system_of kernel).mmu;
        }))
unfolding is_guest_in_priv_mode
dabt_translation_fault_lem_example =
    dabt_translation_fault_lem 0xb000_0000 decoder program protect mapped_always (λ c. refl) false
      guest_memory no_shadow emulate (system_of kernel) (system_of kernel) false 0x1235_6000
      (0x8000 + 4 * 1) refl refl hostpc_to_guestpc_lem_example guest_memory-word (omega arith)
      (omega arith) refl

-- A handler that goes on at 0x8000 for each instruction.
abbrev back_to_start : System → ℕ → ℕ → Outcome (System × ℕ)
back_to_start s handler instruction = ok (system_of kernel, 0x8000)

software_interrupt-deliver_interrupt_example :
    (d : GuestContext) × StartsHandler
      (jump kernel 0x8000)
      d
      irq_mode
      exc_vect_low_irq
      Vector.irq_vector
    × (d.spsr_irq ≡ 0x4000_0013)
    × (d.r14_irq ≡ 0x8004)
    × (d.guest_irq_pending ≡ false)
    × (let ready = reset_loop_detector_if_needed 100 (record (system_of kernel) {
      guest = d;
      mmu = (system_of kernel).mmu;
      trace = trace_block 8 (system_of kernel).trace 0x8000;
    }) in
        software_interrupt 0xb000_0000 decoder program protect mapped_always false back_to_start 8
          100 1000
          (system_of kernel)
          0x103
        ≡ (run_loop_detector 100 8 1000 ready.trace >>= λ (t : BlockTrace).
            scan_guest 0xb000_0000 decoder program protect (record ready { trace = t })))
unfolding is_guest_call
software_interrupt-deliver_interrupt_example =
    software_interrupt-deliver_interrupt 0xb000_0000 decoder program protect mapped_always
      (λ c. refl) false back_to_start 8 100 1000 (system_of kernel) (system_of kernel) 0x103 0x8000
      refl refl refl refl
