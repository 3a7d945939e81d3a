-- ===== src/Mmu/Rights.antt =====
-- What the architecture lets an access do, from the two access permission fields by themselves, and
-- its walk of the tables in arithmetic: what `shouldDataAbort` and `shouldPrefetchAbort` are to
-- decide.
use hyparm.Common.{
  ℕ, ◌+◌, ◌*◌, ◌/◌, ◌%◌, ◌^◌, Bool, true, false, ◌==◌, ◌!=◌, ◌&&◌, ◌||◌, if◌then◌else◌,
}
use hyparm.Common.{
  Option, none, some, Outcome, ok, die, not_implemented, reserved_entry, reserved_domain,
  reserved_permission,
}
use hyparm.Memory.{Memory}

-- AP[1:0] gives the access, AP[2] takes writing away.
abbrev pub may_read : Bool → ℕ → Bool
may_read privileged ap10 = ap10 != 0 && (privileged || ap10 != 1)

abbrev pub may_write : Bool → ℕ → ℕ → Bool
may_write privileged ap10 ap2 = ap2 == 0 && ap10 != 0 && (privileged || ap10 == 3)

abbrev pub may : Bool → Bool → ℕ → ℕ → Bool
may privileged is_write ap10 ap2 =
    if is_write then may_write privileged ap10 ap2 else may_read privileged ap10

pub data Fault : Type 0 where
  translation permission : Fault

-- The fault status of a section and of a page.
abbrev pub status : Fault → Bool → ℕ
status translation is_section = if is_section then 5 else 7
status permission is_section = if is_section then 0xd else 0xf

-- The outcome of a walk: no mapping, or one with its domain, AP[1:0] and AP[2].
pub data Walk : Type 0 where
  no_walk : Walk
  unmapped : (is_section : Bool) (domain : ℕ) → Walk
  mapped : (is_section : Bool) (domain ap10 ap2 : ℕ) → Walk

abbrev pub walk : Memory ℕ → ℕ → ℕ → Walk
walk memory base address =
    let first = memory (base / 2 ^ 14 * 2 ^ 14 + address / 2 ^ 20 * 4) in
    let second = memory (first / 2 ^ 10 * 2 ^ 10 + address / 2 ^ 12 % 2 ^ 8 * 4) in
    let domain = first / 2 ^ 5 % 2 ^ 4 in
    if first % 4 == 0
    then unmapped true domain
    else if first % 4 == 3
    then no_walk
    else if first % 4 == 2
    then mapped true domain (first / 2 ^ 10 % 4) (first / 2 ^ 15 % 2)
    else if second % 4 == 0
    then unmapped false domain
    else mapped false domain (second / 2 ^ 4 % 4) (second / 2 ^ 9 % 2)

-- The fault of an access, or none, with SCTLR and DACR. The hypervisor stops at a reserved value,
-- at the simplified permission model of SCTLR.AFE, and at a domain without access.
abbrev pub Decision : Type 0
Decision = Option (Fault × Bool × ℕ)

abbrev pub decide_mapped : ℕ → ℕ → Bool → Bool → Bool → ℕ → ℕ → ℕ → Outcome Decision
decide_mapped sctlr dacr privileged is_write is_section domain ap10 ap2 =
    let access = dacr / 2 ^ (domain * 2) % 4 in
    if sctlr / 2 ^ 29 % 2 == 1
    then die not_implemented
    else if access == 3
    then ok none
    else if access == 2
    then die reserved_domain
    else if access == 0
    then die not_implemented
    else if ap2 == 1 && ap10 == 0
    then die reserved_permission
    else if may privileged is_write ap10 ap2
    then ok none
    else ok (some (permission, is_section, domain))

abbrev pub decide : ℕ → ℕ → Bool → Bool → Walk → Outcome Decision
decide sctlr dacr privileged is_write no_walk = die reserved_entry
decide sctlr dacr privileged is_write (unmapped is_section domain) =
    ok (some (translation, is_section, domain))
decide sctlr dacr privileged is_write (mapped is_section domain ap10 ap2) =
    decide_mapped sctlr dacr privileged is_write is_section domain ap10 ap2
