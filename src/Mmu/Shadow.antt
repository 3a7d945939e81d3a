-- ===== src/Mmu/Shadow.antt =====
-- The permissions of a shadow entry (`mapAccessPermissionBits`, src/memoryManager/shadowMap.c). The
-- guest runs in the host's user mode, whatever its own mode is.
use hyparm.Common.{
  ℕ, zero, suc, ◌/◌, ◌%◌, ◌<◌, ◌≡◌, ◌≢◌, refl, arith, Bool, true, false, ◌==◌, ◌&&◌, if◌then◌else◌,
}
use hyparm.Common.{Outcome, ok, die, Returns, reserved_domain, reserved_permission}
use hyparm.Cpu.State.{GuestContext}
use hyparm.Cpu.Modes.{is_guest_in_priv_mode}
use hyparm.Mmu.Entries.{
  priv_no_usr_no, priv_rw_usr_no, priv_rw_usr_ro, priv_rw_usr_rw, priv_ro_usr_no, deprecated,
  priv_ro_usr_ro,
}
use hyparm.Mmu.Protection.{cp15_dacr, dacr_no_access, dacr_client, dacr_reserved, domain_bits}
use hyparm.Mmu.Rights.{may}

-- The case of a client.
unfoldable pub shadow_of_client : Bool → ℕ → Outcome ℕ
shadow_of_client guest_priv guest_ap =
    if guest_ap == priv_no_usr_no
    then ok priv_rw_usr_no
    else if guest_ap == priv_rw_usr_no
    then ok (if guest_priv then priv_rw_usr_rw else priv_rw_usr_no)
    else if guest_ap == priv_rw_usr_ro
    then ok (if guest_priv then priv_rw_usr_rw else priv_rw_usr_ro)
    else if guest_ap == priv_rw_usr_rw
    then ok priv_rw_usr_rw
    else if guest_ap == priv_ro_usr_no
    then ok (if guest_priv then priv_rw_usr_ro else priv_rw_usr_no)
    else if guest_ap == deprecated
    then ok (if guest_priv then priv_rw_usr_rw else priv_rw_usr_ro)
    else if guest_ap == priv_ro_usr_ro
    then ok priv_rw_usr_ro
    else die reserved_permission

unfoldable pub map_access_permission_bits : GuestContext → (guest_ap domain : ℕ) → Outcome ℕ
unfolding shadow_of_client is_guest_in_priv_mode
map_access_permission_bits context guest_ap domain =
    let dom_bits = domain_bits (context.coproc_reg_bank cp15_dacr) domain in
    if dom_bits == dacr_no_access
    then ok priv_rw_usr_no
    else if dom_bits == dacr_client
    then shadow_of_client (is_guest_in_priv_mode context) guest_ap
    else if dom_bits == dacr_reserved
    then die reserved_domain
    else ok priv_rw_usr_rw

-- What the guest may do through a shadow entry: the host's user mode.
abbrev pub shadow_may : Bool → ℕ → Bool
shadow_may is_write shadow_ap = may false is_write (shadow_ap % 4) (shadow_ap / 4)

eight : (P : ℕ → Type 0) → P 0 → P 1 → P 2 → P 3 → P 4 → P 5 → P 6 → P 7 → (n : ℕ) → n < 8 → P n
eight P a b c d e f g h zero lt = a
eight P a b c d e f g h (suc zero) lt = b
eight P a b c d e f g h (suc (suc zero)) lt = c
eight P a b c d e f g h (suc (suc (suc zero))) lt = d
eight P a b c d e f g h (suc (suc (suc (suc zero)))) lt = e
eight P a b c d e f g h (suc (suc (suc (suc (suc zero))))) lt = f
eight P a b c d e f g h (suc (suc (suc (suc (suc (suc zero)))))) lt = g
eight P a b c d e f g h (suc (suc (suc (suc (suc (suc (suc zero))))))) lt = h
eight P a b c d e f g h (suc (suc (suc (suc (suc (suc (suc (suc n)))))))) lt = absurd (omega arith)

-- A client's entry gives the guest what its own tables give it in its mode, but for one case.
abbrev Rights : (guest_priv is_write : Bool) (guest_ap : ℕ) → Type 0
Rights guest_priv is_write guest_ap =
    guest_ap ≢ 4
    → Returns (shadow_of_client guest_priv guest_ap) λ shadow_ap. shadow_may is_write shadow_ap ≡ (
        if guest_ap == 6 && guest_priv && is_write
        then true
        else may guest_priv is_write (guest_ap % 4) (guest_ap / 4))

client-Rights :
    (guest_priv is_write : Bool) (guest_ap : ℕ) → guest_ap < 8 → Rights guest_priv is_write guest_ap
unfolding shadow_of_client
client-Rights true true =
    eight (Rights true true) (λ u. (_, refl, refl)) (λ u. (_, refl, refl)) (λ u. (_, refl, refl))
      (λ u. (_, refl, refl)) (λ u. absurd (u refl)) (λ u. (_, refl, refl)) (λ u. (_, refl, refl))
      (λ u. (_, refl, refl))
client-Rights true false =
    eight (Rights true false) (λ u. (_, refl, refl)) (λ u. (_, refl, refl)) (λ u. (_, refl, refl))
      (λ u. (_, refl, refl)) (λ u. absurd (u refl)) (λ u. (_, refl, refl)) (λ u. (_, refl, refl))
      (λ u. (_, refl, refl))
client-Rights false true =
    eight (Rights false true) (λ u. (_, refl, refl)) (λ u. (_, refl, refl)) (λ u. (_, refl, refl))
      (λ u. (_, refl, refl)) (λ u. absurd (u refl)) (λ u. (_, refl, refl)) (λ u. (_, refl, refl))
      (λ u. (_, refl, refl))
client-Rights false false =
    eight (Rights false false) (λ u. (_, refl, refl)) (λ u. (_, refl, refl)) (λ u. (_, refl, refl))
      (λ u. (_, refl, refl)) (λ u. absurd (u refl)) (λ u. (_, refl, refl)) (λ u. (_, refl, refl))
      (λ u. (_, refl, refl))

-- In a domain that the guest accesses as a client (DACR 1), a shadow entry lets the guest read and
-- write what the permissions of its own entry let it, in its mode, for each of the permissions 0 to
-- 7 but the reserved 4. The exception is permission 6, read-only in both modes: a privileged guest
-- gets to write there.
pub map_access_permission_bits_lem :
    (context : GuestContext) (guest_ap domain : ℕ) (is_write : Bool)
    → guest_ap < 8
    → guest_ap ≢ 4
    → domain_bits (context.coproc_reg_bank cp15_dacr) domain ≡ 1
    → Returns (map_access_permission_bits context guest_ap domain) λ shadow_ap.
      shadow_may is_write shadow_ap ≡ (
        if guest_ap == 6 && is_guest_in_priv_mode context && is_write
        then true
        else may (is_guest_in_priv_mode context) is_write (guest_ap % 4) (guest_ap / 4))
unfolding map_access_permission_bits
map_access_permission_bits_lem context guest_ap domain is_write lt usable as_client =
    rw as_client (client-Rights (is_guest_in_priv_mode context) is_write guest_ap lt usable)
