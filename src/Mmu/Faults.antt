-- ===== src/Mmu/Faults.antt =====
-- `shouldDataAbort` and `shouldPrefetchAbort` decide as the architecture does.
use hyparm.Common.{
  ℕ, ◌+◌, ◌*◌, ◌/◌, ◌%◌, ◌^◌, ◌<◌, ◌≡◌, refl, arith, bit_and, bit_or, Bool, true, false, not, ◌==◌,
  ◌!=◌, ◌&&◌, if◌then◌else◌, ◌⊎◌, inl, inr, Bool-cases,
}
use hyparm.Common.{none, some, Outcome, ok, die, ◌>>=◌, reserved_permission}
use hyparm.Memory.{Memory}
use hyparm.Bits.{bit_test, shift_bit}
use hyparm.Cpu.State.{GuestContext, cp15_sctrl}
use hyparm.Cpu.Exceptions.{throw_data_abort, throw_prefetch_abort}
use hyparm.Mmu.Entries.{field, entry_domain, section_permission, page_permission}
use hyparm.Mmu.Protection.{
  cp15_dacr, Tables, Mmu, restored, Verdict, data_permission, prefetch_permission, check_domain,
  find_entries, data_abort_of, should_data_abort, prefetch_abort_of, should_prefetch_abort,
}
use hyparm.Mmu.Rights.{may, status, walk, Decision, decide_mapped, decide, permission}
use hyparm.Mmu.Places.{get_entry_first_lem, second_entry_address_lem, permission_number}

data_permission_lem :
    (privileged is_write : Bool) (ap10 ap2 : ℕ)
    → ap10 < 4
    → ap2 < 2
    → data_permission privileged is_write (bit_or ap10 (ap2 * 2 ^ 2)) ≡ (
        if ap2 == 1 && ap10 == 0
        then die reserved_permission
        else ok (not (may privileged is_write ap10 ap2)))
unfolding data_permission
data_permission_lem true true ap10 ap2 h k = rw (permission_number ap10 ap2 h k) (ground arith)
data_permission_lem true false ap10 ap2 h k = rw (permission_number ap10 ap2 h k) (ground arith)
data_permission_lem false true ap10 ap2 h k = rw (permission_number ap10 ap2 h k) (ground arith)
data_permission_lem false false ap10 ap2 h k = rw (permission_number ap10 ap2 h k) (ground arith)

prefetch_permission_lem :
    (privileged : Bool) (ap10 ap2 : ℕ)
    → ap10 < 4
    → ap2 < 2
    → prefetch_permission privileged (bit_or ap10 (ap2 * 2 ^ 2)) ≡ (
        if ap2 == 1 && ap10 == 0
        then die reserved_permission
        else ok (not (may privileged false ap10 ap2)))
unfolding prefetch_permission
prefetch_permission_lem true ap10 ap2 h k = rw (permission_number ap10 ap2 h k) (ground arith)
prefetch_permission_lem false ap10 ap2 h k = rw (permission_number ap10 ap2 h k) (ground arith)

afe_test : (sctlr : ℕ) → (bit_and sctlr 0x2000_0000 != 0) ≡ (sctlr / 2 ^ 29 % 2 == 1)
afe_test sctlr = rw (bit_test sctlr 29, shift_bit sctlr 29)

-- The domain check and the check of a client, with what the caller makes of their answer.
module _ {A : Type 0} (context : GuestContext) (guest_first : ℕ) (client : Outcome Bool)
    (privileged is_write is_section : Bool) (ap10 ap2 : ℕ) (f : Bool → A) (g : Decision → A) where
  check_domain_lem :
      client ≡ (
        if ap2 == 1 && ap10 == 0
        then die reserved_permission
        else ok (not (may privileged is_write ap10 ap2)))
      → f false ≡ g none
      → f true ≡ g (some (permission, is_section, entry_domain guest_first))
      → (check_domain context guest_first client >>= λ (aborts : Bool). ok (f aborts)) ≡ (
          decide_mapped
            (context.coproc_reg_bank cp15_sctrl)
            (context.coproc_reg_bank cp15_dacr)
            privileged
            is_write
            is_section
            (entry_domain guest_first)
            ap10
            ap2
          >>= λ (d : Decision). ok (g d))
  unfolding check_domain
  check_domain_lem hc granted aborted =
      let afe = afe_test (context.coproc_reg_bank cp15_sctrl) in
      elim (Bool-cases (may privileged is_write ap10 ap2)) [
        | inl e ↦ rw (afe, hc, e) (ground arith)
        | inr e ↦ rw (afe, hc, e) (ground arith)
      ]

four_types : (entry : ℕ) → (entry % 4 ≡ 0) ⊎ ((entry % 4 ≡ 1) ⊎ ((entry % 4 ≡ 2) ⊎ (entry % 4 ≡ 3)))
four_types entry = omega arith

page_types : (entry : ℕ) → ((entry % 4 == 0) ≡ true) ⊎ ((entry % 4 == 0) ≡ false)
page_types entry = Bool-cases (entry % 4 == 0)

module _ (tables : Tables) (mmu : Mmu) (context : GuestContext) where
  -- What the caller is told of a decision: no abort, with the guest as it was, or the abort thrown.
  abbrev pub data_verdict : Bool → ℕ → Decision → Verdict
  data_verdict is_write address none = (false, context, restored tables mmu)
  data_verdict is_write address (some (f, is_section, domain)) = (
    true,
    throw_data_abort context address (status f is_section) is_write domain,
    restored tables mmu,
  )

  abbrev pub prefetch_verdict : ℕ → Decision → Verdict
  prefetch_verdict address none = (false, context, restored tables mmu)
  prefetch_verdict address (some (f, is_section, domain)) =
      (true, throw_prefetch_abort context address (status f is_section), restored tables mmu)

module _ (memory : Memory ℕ) (tables : Tables) (mmu : Mmu) (context : GuestContext) where
  -- `shouldDataAbort` refines the architecture's check, if the words of memory, the guest's table
  -- base and the address are 32-bit values. It aborts for the faults of the walk and of the
  -- permission fields and for no others, with the architecture's fault status and the domain of the
  -- entry, and it stops where the check does.
  pub should_data_abort_lem :
      (privileged is_write : Bool) (address : ℕ)
      → ((a : ℕ) → memory a < 2 ^ 32)
      → tables.guest_physical < 2 ^ 32
      → address < 2 ^ 32
      → should_data_abort memory tables mmu context privileged is_write address ≡ (
          decide
            (context.coproc_reg_bank cp15_sctrl)
            (context.coproc_reg_bank cp15_dacr)
            privileged
            is_write
            (walk memory tables.guest_physical address)
          >>= λ (d : Decision). ok (data_verdict tables mmu context is_write address d))
  unfolding should_data_abort find_entries data_abort_of
  should_data_abort_lem privileged is_write address words base small =
      let at_first = get_entry_first_lem tables.guest_physical address base small in
      let first = memory (tables.guest_physical / 2 ^ 14 * 2 ^ 14 + address / 2 ^ 20 * 4) in
      let at_second = second_entry_address_lem first address (words _) in
      let second = memory (first / 2 ^ 10 * 2 ^ 10 + address / 2 ^ 12 % 2 ^ 8 * 4) in
      let thrown =
        λ (code : ℕ). throw_data_abort context address code is_write (entry_domain first) in
      rw (at_first, at_second)
        (elim (four_types first) [
          | inl e ↦ rw e refl
          | inr (inl e) ↦ elim (page_types second) [
            | inl p ↦ rw (e, p) refl
            | inr p ↦
                rw (e, p)
                  (check_domain_lem context first
                    (data_permission privileged is_write (page_permission second)) privileged
                    is_write false (field 4 2 second) (field 9 1 second)
                    (λ (aborts : Bool).
                      (aborts, if aborts then thrown 0xf else context, restored tables mmu))
                    (data_verdict tables mmu context is_write address)
                    (data_permission_lem privileged is_write (field 4 2 second) (field 9 1 second)
                      (omega arith) (omega arith))
                    refl refl)
          ]
          | inr (inr (inl e)) ↦ rw e (
              check_domain_lem context first
                (data_permission privileged is_write (section_permission first)) privileged is_write
                true (field 10 2 first) (field 15 1 first)
                (λ (aborts : Bool).
                  (aborts, if aborts then thrown 0xd else context, restored tables mmu))
                (data_verdict tables mmu context is_write address)
                (data_permission_lem privileged is_write (field 10 2 first) (field 15 1 first)
                  (omega arith) (omega arith))
                refl refl)
          | inr (inr (inr e)) ↦ rw e refl
        ])

  -- `shouldPrefetchAbort` refines the architecture's check of a read, if the words of memory, the
  -- guest's table base and the address are 32-bit values. It throws an instruction abort with the
  -- architecture's fault status for the faults of the walk and of the permission fields, and for no
  -- others: the execute-never bits have no part in it. It stops where the check does.
  pub should_prefetch_abort_lem :
      (privileged : Bool) (address : ℕ)
      → ((a : ℕ) → memory a < 2 ^ 32)
      → tables.guest_physical < 2 ^ 32
      → address < 2 ^ 32
      → should_prefetch_abort memory tables mmu context privileged address ≡ (
          decide
            (context.coproc_reg_bank cp15_sctrl)
            (context.coproc_reg_bank cp15_dacr)
            privileged
            false
            (walk memory tables.guest_physical address)
          >>= λ (d : Decision). ok (prefetch_verdict tables mmu context address d))
  unfolding should_prefetch_abort find_entries prefetch_abort_of
  should_prefetch_abort_lem privileged address words base small =
      let at_first = get_entry_first_lem tables.guest_physical address base small in
      let first = memory (tables.guest_physical / 2 ^ 14 * 2 ^ 14 + address / 2 ^ 20 * 4) in
      let at_second = second_entry_address_lem first address (words _) in
      let second = memory (first / 2 ^ 10 * 2 ^ 10 + address / 2 ^ 12 % 2 ^ 8 * 4) in
      let thrown = λ (code : ℕ). throw_prefetch_abort context address code in
      rw (at_first, at_second)
        (elim (four_types first) [
          | inl e ↦ rw e refl
          | inr (inl e) ↦ elim (page_types second) [
            | inl p ↦ rw (e, p) refl
            | inr p ↦
                rw (e, p)
                  (check_domain_lem context first
                    (prefetch_permission privileged (page_permission second)) privileged false false
                    (field 4 2 second) (field 9 1 second)
                    (λ (aborts : Bool).
                      (aborts, if aborts then thrown 0xf else context, restored tables mmu))
                    (prefetch_verdict tables mmu context address)
                    (prefetch_permission_lem privileged (field 4 2 second) (field 9 1 second)
                      (omega arith) (omega arith))
                    refl refl)
          ]
          | inr (inr (inl e)) ↦ rw e (
              check_domain_lem context first
                (prefetch_permission privileged (section_permission first)) privileged false true
                (field 10 2 first) (field 15 1 first)
                (λ (aborts : Bool).
                  (aborts, if aborts then thrown 0xd else context, restored tables mmu))
                (prefetch_verdict tables mmu context address)
                (prefetch_permission_lem privileged (field 10 2 first) (field 15 1 first)
                  (omega arith) (omega arith))
                refl refl)
          | inr (inr (inr e)) ↦ rw e refl
        ])
