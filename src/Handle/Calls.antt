-- ===== src/Handle/Calls.antt =====
-- The hypercalls at the ends of translated blocks, and the guest's own system calls
-- (`softwareInterrupt`, src/exceptions/exceptionHandlers.c), with the loop detector configured.
use hyparm.Common.{
  ℕ, ◌+◌, ◌-◌, ◌%◌, ◌^◌, Bool, true, false, ◌==◌, ◌&&◌, ltb, if◌then◌else◌, Outcome, ok, ◌>>=◌,
}
use hyparm.Memory.{Memory}
use hyparm.Cpu.State.{GuestContext, bit_field, mode_of, usr_mode, t_bit, i_bit}
use hyparm.Cpu.Exceptions.{jump, deliver_service_call, deliver_interrupt, deliver_data_abort}
use hyparm.Mmu.Space.{Space}
use hyparm.Trace.Detector.{trace_block, reset_loop_detector, run_loop_detector}
use hyparm.Scan.Translator.{is_branch, link_block}
use hyparm.Scan.Scanner.{Decoder}
use hyparm.Handle.System.{change_guest, System, with_guest, scan_guest}

-- A guest's own call: 0 in Thumb, and below 0x100 in ARM.
unfoldable pub is_guest_call : (thumb2 : Bool) → GuestContext → (code : ℕ) → Bool
is_guest_call thumb2 c code =
    if thumb2 && bit_field c.cpsr t_bit == 1 then code == 0 else ltb code 0x100

-- `resetLoopDetectorIfNeeded`
unfoldable pub reset_loop_detector_if_needed : (warn : ℕ) → System → System
unfolding reset_loop_detector
reset_loop_detector_if_needed warn s =
    let fresh = record s {
      trace = reset_loop_detector warn s.trace;
      must_reset_loop_detector = false;
    } in
    if s.must_reset_loop_detector then fresh else s

-- What the first half has found: the system, the guest's next program counter, whether the block may
-- be linked, and the instruction that ended it.
pub record Next : Type 0 where
  pub system : System
  pub next_pc : ℕ
  pub link : Bool
  pub end_instr : ℕ

-- The index of the block, from the code of a hypercall.
abbrev pub block_of_code : ℕ → ℕ
block_of_code code = (code + 2 ^ 32 - 0x100) % 2 ^ 32

module _ (pool_end : ℕ) (decoder : Decoder) (code_memory : Memory ℕ)
    (write_protect : Space → (start_address end_address : ℕ) → Outcome Space)
    (table_mapped : GuestContext → Bool) (thumb2 : Bool) where
  -- `gSVC` and its two cases. `run_handler` calls the handler of an instruction.
  unfoldable pub handle_call :
      (run_handler : System → (handler instruction : ℕ) → Outcome (System × ℕ))
      → System
      → (code : ℕ) → Outcome Next
  unfolding is_guest_call deliver_service_call jump change_guest
  handle_call run_handler s code =
      let block = s.scanning.translation_store.basic_block_store (block_of_code code) in
      let end_instr = code_memory block.guest_end in
      let called = (do
        delivered ← deliver_service_call table_mapped thumb2 s.guest
        ok (record {
          system = change_guest s delivered;
          next_pc = delivered.registers 15;
          link = false;
          end_instr = 0;
        })) in
      let ended = (do
        (after, next_pc) ←
            run_handler (with_guest s (jump s.guest block.guest_end)) block.handler end_instr
        ok (record { system = after; next_pc = next_pc; link = true; end_instr = end_instr })) in
      if is_guest_call thumb2 s.guest code then called else ended

  -- `traceBlock(context, nextPC); context->R15 = nextPC;`
  unfoldable pub trace_next : (size : ℕ) → Next → Next
  unfolding trace_block jump
  trace_next size n = record n {
    system = record n.system {
      trace = trace_block size n.system.trace n.next_pc;
      guest = jump n.system.guest n.next_pc;
    };
  }

  -- An interrupt or a data abort that is pending. A masked interrupt hides the abort.
  unfoldable pub deliver_pending : Next → Outcome Next
  unfolding deliver_interrupt deliver_data_abort change_guest
  deliver_pending n =
      let c = n.system.guest in
      let delivered =
        λ (d : GuestContext). ok (record n { system = change_guest n.system d; link = false }) in
      if c.guest_irq_pending
      then (if bit_field c.cpsr i_bit == 0
          then deliver_interrupt table_mapped thumb2 c >>= delivered
          else ok n)
      else if c.guest_data_abt_pending
      then deliver_data_abort table_mapped thumb2 c >>= delivered
      else ok n

  -- `linkBlock`, of the block with the code's index.
  unfoldable pub link_next : Next → (last_pc index : ℕ) → System
  unfolding is_branch link_block
  link_next n last_pc index =
      let s = n.system in
      let linked =
        link_block code_memory s.scanning.translation_store (s.guest.registers 15) last_pc index in
      let store = record s { scanning = record s.scanning { translation_store = linked } } in
      if n.link && is_branch n.end_instr then store else s

  -- The end: a guest in a privileged mode runs translated code.
  unfoldable pub go_on : (size warn limit : ℕ) → Next → (last_pc index : ℕ) → Outcome System
  unfolding reset_loop_detector_if_needed run_loop_detector link_next scan_guest
  go_on size warn limit n last_pc index =
      let ready = reset_loop_detector_if_needed warn n.system in
      let scanned = (do
        trace ← run_loop_detector warn size limit ready.trace
        let next = record n { system = record ready { trace = trace } }
        scan_guest pool_end decoder code_memory write_protect (link_next next last_pc index)) in
      if mode_of n.system.guest.cpsr == usr_mode
      then ok (record n.system { must_reset_loop_detector = true })
      else scanned

  unfoldable pub software_interrupt :
      (run_handler : System → (handler instruction : ℕ) → Outcome (System × ℕ))
      → (size warn limit : ℕ) → System
      → (code : ℕ) → Outcome System
  unfolding handle_call trace_next deliver_pending go_on
  software_interrupt run_handler size warn limit s code = do
    next ← handle_call run_handler s code
    pending ← deliver_pending (trace_next size next)
    go_on size warn limit pending (s.guest.registers 15) (block_of_code code)
