-- ===== src/Handle/Preemption.antt =====
-- The guest takes its interrupts between its blocks, at their hypercalls.
use hyparm.Common.{
  ℕ, ◌+◌, ◌%◌, ◌^◌, ◌≡◌, refl, Bool, true, false, ◌==◌, if◌then◌else◌, Outcome, ok, ◌>>=◌,
}
use hyparm.Memory.{Memory, update}
use hyparm.Cpu.State.{GuestContext, Vector, bit_field, mode_of, usr_mode, irq_mode, i_bit}
use hyparm.Cpu.Exceptions.{jump, deliver_interrupt, exc_vect_low_irq}
use hyparm.Cpu.Handlers.{StartsHandler}
use hyparm.Cpu.Delivery.{deliver_interrupt_lem}
use hyparm.Mmu.Space.{Space}
use hyparm.Trace.Detector.{BlockTrace, trace_block, run_loop_detector}
use hyparm.Scan.Scanner.{Decoder}
use hyparm.Handle.System.{System, with_guest, scan_guest}
use hyparm.Handle.Addressing.{exception_mmu, change_guest-exception}
use hyparm.Handle.Calls.{
  is_guest_call, reset_loop_detector_if_needed, block_of_code, handle_call, trace_next,
  deliver_pending, link_next, go_on, software_interrupt,
}

module _ (pool_end : ℕ) (decoder : Decoder) (code_memory : Memory ℕ)
    (write_protect : Space → (start_address end_address : ℕ) → Outcome Space)
    (table_mapped : GuestContext → Bool) (maps : (d : GuestContext) → table_mapped d ≡ true)
    (thumb2 : Bool) (run_handler : System → (handler instruction : ℕ) → Outcome (System × ℕ))
    (size warn limit : ℕ) where
  handle_call-ended :
      (s after : System) (code next_pc : ℕ)
      → is_guest_call thumb2 s.guest code ≡ false
      → (let block = s.scanning.translation_store.basic_block_store (block_of_code code) in
          run_handler
            (with_guest s (jump s.guest block.guest_end))
            block.handler
            (code_memory block.guest_end)
          ≡ ok (after, next_pc))
      → handle_call pool_end decoder code_memory write_protect table_mapped thumb2 run_handler s
          code
        ≡ ok (record {
          system = after;
          next_pc = next_pc;
          link = true;
          end_instr =
              code_memory
                (s.scanning.translation_store.basic_block_store (block_of_code code)).guest_end;
        })
  unfolding handle_call
  handle_call-ended s after code next_pc ended handled = rw (ended, handled) refl

  deliver_pending-irq :
      (after : System) (next_pc end_instr : ℕ) (d : GuestContext)
      → after.guest.guest_irq_pending ≡ true
      → bit_field after.guest.cpsr i_bit ≡ 0
      → deliver_interrupt table_mapped thumb2 (jump after.guest next_pc) ≡ ok d
      → (mode_of d.cpsr == usr_mode) ≡ false
      → d.shadow_active ≡ (
          if mode_of after.guest.cpsr == usr_mode
          then after.guest.shadow_priv
          else after.guest.shadow_active)
      → deliver_pending pool_end decoder code_memory write_protect table_mapped thumb2 (
          trace_next pool_end decoder code_memory write_protect table_mapped thumb2 size
            (record { system = after; next_pc = next_pc; link = true; end_instr = end_instr }))
        ≡ ok (record {
          system = record after {
            guest = d;
            mmu = exception_mmu after.tables after.guest after.mmu;
            trace = trace_block size after.trace next_pc;
          };
          next_pc = next_pc;
          link = false;
          end_instr = end_instr;
        })
  unfolding deliver_pending trace_next jump
  deliver_pending-irq after next_pc end_instr d pending open_irq returns privileged shadow =
      let traced : System = record after {
        guest = jump after.guest next_pc;
        trace = trace_block size after.trace next_pc;
      } in
      let changed = change_guest-exception traced d privileged shadow in
      rw (pending, open_irq, returns, changed) refl

  go_on-unlinked :
      (s : System) (next_pc end_instr last_pc index : ℕ)
      → (mode_of s.guest.cpsr == usr_mode) ≡ false
      → go_on pool_end decoder code_memory write_protect table_mapped thumb2 size warn limit
          (record { system = s; next_pc = next_pc; link = false; end_instr = end_instr })
          last_pc
          index
        ≡ (run_loop_detector warn size limit (reset_loop_detector_if_needed warn s).trace
            >>= λ (t : BlockTrace).
                scan_guest pool_end decoder code_memory write_protect
                  (record (reset_loop_detector_if_needed warn s) { trace = t }))
  unfolding go_on link_next
  go_on-unlinked s next_pc end_instr last_pc index privileged = rw privileged refl

  -- `softwareInterrupt` at the end of a block, when the handler of the block's last instruction
  -- returns with an interrupt pending and not masked, and the guest's page table is mapped. The
  -- guest goes to its IRQ handler, with the start of the next block and 4 in R14_IRQ, SPSR_IRQ as
  -- the CPSR after the block, and no interrupt pending. The MMU walks the privileged shadow table if
  -- the guest was in user mode after the block, and else the table of before. The next block is in the trace. The loop
  -- detector runs, after a reset if one is due, and then the scanner, at the IRQ handler; no block
  -- is linked.
  pub software_interrupt-deliver_interrupt :
      (s after : System) (code next_pc : ℕ)
      → is_guest_call thumb2 s.guest code ≡ false
      → (let block = s.scanning.translation_store.basic_block_store (block_of_code code) in
          run_handler
            (with_guest s (jump s.guest block.guest_end))
            block.handler
            (code_memory block.guest_end)
          ≡ ok (after, next_pc))
      → after.guest.guest_irq_pending ≡ true
      → bit_field after.guest.cpsr i_bit ≡ 0
      → (d : GuestContext) × StartsHandler
          (jump after.guest next_pc)
          d
          irq_mode
          exc_vect_low_irq
          Vector.irq_vector
        × (d.spsr_irq ≡ after.guest.cpsr)
        × (d.r14_irq ≡ (next_pc + 4) % 2 ^ 32)
        × (d.guest_irq_pending ≡ false)
        × (let ready = reset_loop_detector_if_needed warn (record after {
          guest = d;
          mmu = exception_mmu after.tables after.guest after.mmu;
          trace = trace_block size after.trace next_pc;
        }) in
            software_interrupt pool_end decoder code_memory write_protect table_mapped thumb2
              run_handler size warn limit s code
            ≡ (run_loop_detector warn size limit ready.trace >>= λ (t : BlockTrace).
                scan_guest pool_end decoder code_memory write_protect (record ready { trace = t })))
  unfolding software_interrupt jump update
  software_interrupt-deliver_interrupt s after code next_pc ended handled pending open_irq =
      let (d, returns, (starts, masked, saved, link, done)) =
        deliver_interrupt_lem table_mapped maps thumb2 (jump after.guest next_pc) in
      let end_instr =
        code_memory
          (s.scanning.translation_store.basic_block_store (block_of_code code)).guest_end in
      let first = handle_call-ended s after code next_pc ended handled in
      let privileged : (mode_of d.cpsr == usr_mode) ≡ false = rw starts.in_mode refl in
      let second =
        deliver_pending-irq after next_pc end_instr d pending open_irq returns privileged
          starts.shadow in
      let traced : System = record after {
        guest = d;
        mmu = exception_mmu after.tables after.guest after.mmu;
        trace = trace_block size after.trace next_pc;
      } in
      let third =
        go_on-unlinked traced next_pc end_instr (s.guest.registers 15) (block_of_code code)
          privileged in
      (d, starts, saved, link, done, rw (first, second) third)
