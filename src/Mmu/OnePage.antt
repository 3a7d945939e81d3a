-- ===== src/Mmu/OnePage.antt =====
-- One round of `writeProtectRange`: the entry of one small page, and the pages after it.
use hyparm.Common.{
  ℕ, suc, ◌+◌, ◌-◌, ◌*◌, ◌/◌, ◌%◌, ◌^◌, ◌≤◌, ◌<◌, ◌≡◌, ◌≢◌, refl, ◌∙◌, arith, false, ◌==◌,
  Bool-cases, ◌⊎◌, inl, inr,
}
use hyparm.Common.{Returns}
use hyparm.Memory.{update_self, update_ne}
use hyparm.Mmu.Entries.{page_permission}
use hyparm.Mmu.Places.{permission_number}
use hyparm.Mmu.Space.{Space}
use hyparm.Mmu.Mapping.{with_word}
use hyparm.Mmu.WriteProtect.{assign, protect_word, protect_entry}

page_permission_lem : (word : ℕ) → page_permission word ≡ word / 2 ^ 9 % 2 * 4 + word / 2 ^ 4 % 4
page_permission_lem word =
    permission_number (word / 2 ^ 4 % 4) (word / 2 ^ 9 % 2) (omega arith) (omega arith)

protect_word_lem :
    (word : ℕ) → (page_permission (protect_word word) ≢ 3) × (protect_word word % 4 ≡ word % 4)
unfolding protect_word
protect_word_lem word = elim (Bool-cases (page_permission word == 3)) [
  | inl e ↦
      let ap : word / 2 ^ 9 % 2 * 4 + word / 2 ^ 4 % 4 ≡ 3 =
        ground (arith, page_permission_lem word) in
      let ap2 : word / 2 ^ 9 % 2 ≡ 0 = omega arith in
      let ap10 : word / 2 ^ 4 % 4 ≡ 3 = omega arith in
      let inner : assign 4 2 2 word ≡ word - 0x10 = omega arith in
      let outer : assign 9 1 0 (word - 0x10) ≡ word - 0x10 = omega arith in
      let perm = page_permission_lem (word - 0x10) in
      rw (e, inner, outer) (λ f. omega (arith, perm, f), omega arith)
  | inr e ↦ rw e (ground (arith, page_permission_lem word), refl)
]

pub protect_entry_lem :
    (space : Space) (second : ℕ)
    → space.words second % 4 ≢ 1
    → Returns (protect_entry space second) λ after.
      (after.page_tables ≡ space.page_tables)
      × (after.words second % 4 ≡ space.words second % 4)
      × (space.words second % 4 ≢ 0 → page_permission (after.words second) ≢ 3)
      × ((other : ℕ) → second ≢ other → after.words other ≡ space.words other)
unfolding protect_entry
protect_entry_lem space second not_large =
    let word = space.words second in
    let (safe, same) = protect_word_lem word in
    let self = update_self space.words second (protect_word word) in
    elim (Bool-cases (word % 4 == 0)) [
      | inl e ↦
          let faulted : word % 4 ≡ 0 = ground arith in
          rw e (space, refl, (refl, refl, λ present. absurd (present faulted), λ other ne. refl))
      | inr e ↦
          let small : (word % 4 == 1) ≡ false = ground arith in
          rw (e, small)
            (
              with_word space second (protect_word word),
              refl,
              (
                refl,
                rw (self) same,
                λ present. rw (self) safe,
                λ other ne. update_ne space.words second (protect_word word) other ne,
              ),
            )
    ]

-- The entry of page number `k`.
abbrev pub slot : ℕ → ℕ → ℕ
slot base k = base + k % 2 ^ 8 * 4

-- What is left after the pages from `low` to `high` are protected.
abbrev pub Protected : (base low high : ℕ) → (before after : Space) → Type 0
Protected base low high before after =
    ((k : ℕ)
      → low ≤ k
      → k ≤ high
      → before.words (slot base k) % 4 ≢ 0
      → page_permission (after.words (slot base k)) ≢ 3)
    × ((other : ℕ)
        → ((k : ℕ) → low ≤ k → k ≤ high → slot base k ≢ other)
        → after.words other ≡ before.words other)

pub here_or_later : (p k : ℕ) → p ≤ k → (p ≡ k) ⊎ (p < k)
here_or_later p k lo = omega arith

-- One page, and then those after it.
module _ (base p : ℕ) (before one : Space)
    (safe : before.words (slot base p) % 4 ≢ 0 → page_permission (one.words (slot base p)) ≢ 3)
    (others : (other : ℕ) → slot base p ≢ other → one.words other ≡ before.words other) where
  pub one_page : (high : ℕ) → high ≡ p → Protected base p high before one
  one_page high last = (
    λ k lo hi. (let same : p ≡ k = omega arith in rw (← same) safe),
    λ other away. others other (away p (omega arith) (omega arith)),
  )

  pub page_and_rest :
      (low high : ℕ) (after : Space)
      → low ≡ suc p
      → p / 2 ^ 8 ≡ high / 2 ^ 8
      → p ≤ high
      → Protected base low high one after
      → Protected base p high before after
  page_and_rest low high after next block ordered (rest_safe, rest_others) = (
    λ k lo hi present. elim (here_or_later p k lo) [
      | inl same ↦
          (let kept = rest_others (slot base p) (λ j jlo jhi. omega arith) in
            rw (← same, kept) (safe (rw same present)))
      | inr later ↦
          (let moved = others (slot base k) (omega arith) in
            rest_safe k (omega arith) hi (rw moved present))
    ],
    λ other away.
        rest_others other (λ k lo hi. away k (omega arith) hi)
        ∙ others other (away p (omega arith) ordered),
  )
