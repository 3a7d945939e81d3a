-- ===== src/Mmu/ProtectedPages.antt =====
-- After `writeProtectRange`, the guest's user mode can write to no small page of the range.
use hyparm.Common.{
  ℕ, zero, suc, ◌+◌, ◌-◌, ◌*◌, ◌/◌, ◌%◌, ◌^◌, ◌≤◌, ◌<◌, ◌≡◌, ◌≢◌, ◌∙◌, arith, bit_and, Bool, true,
  false, ◌==◌, ltb, if◌then◌else◌, Bool-cases, inl, inr,
}
use hyparm.Common.{ok, Returns}
use hyparm.Bits.{bit_and_high, bit_and_mask}
use hyparm.Mmu.Entries.{get_entry_first}
use hyparm.Mmu.Space.{Space}
use hyparm.Mmu.PageMaps.{HasTable, page_entry, get_entry_second_lem}
use hyparm.Mmu.WriteProtect.{protect_entry, split_if, protect_pages, write_protect_range}
use hyparm.Mmu.OnePage.{protect_entry_lem, slot, Protected, one_page, page_and_rest}

module _ (memalign : ℕ → ℕ) (shadow_map : Space → ℕ → Bool × Space) (table start end base : ℕ) where
  abbrev first_entry : ℕ
  first_entry = get_entry_first table start

  -- One round, in a megabyte with a second-level table.
  protect_pages-step :
      (fuel : ℕ) (space protected : Space) (page_start : ℕ)
      → HasTable space first_entry base
      → page_start < 2 ^ 32
      → protect_entry space (page_entry base page_start) ≡ ok protected
      → protect_pages memalign shadow_map (suc fuel) space table start end page_start ≡ (
          if ltb (page_start / 2 ^ 12 * 2 ^ 12 + 0xfff) end
          then protect_pages memalign shadow_map fuel protected table start end
              ((page_start / 2 ^ 12 * 2 ^ 12 + 0x1000) % 2 ^ 32)
          else ok protected)
  unfolding protect_pages split_if
  protect_pages-step fuel space protected page_start h small returns =
      let page_end : (bit_and page_start 0xffff_f000 + 0xfff) % 2 ^ 32
          ≡ page_start / 2 ^ 12 * 2 ^ 12 + 0xfff =
        omega
          (arith, bit_and_high 12 page_start (2 ^ 20 - 1), bit_and_mask 20 (page_start / 2 ^ 12)) in
      let later : page_start / 2 ^ 12 * 2 ^ 12 + 0xfff + 1 ≡ page_start / 2 ^ 12 * 2 ^ 12 + 0x1000 =
        omega arith in
      let positive : (page_start / 2 ^ 12 * 2 ^ 12 + 0xfff == 0) ≡ false = ground arith in
      rw (
        h.0,
        get_entry_second_lem space first_entry base page_start h,
        returns,
        page_end,
        positive,
        later,
      )

  protect_pages-more :
      (fuel : ℕ) (space protected : Space) (page_start next : ℕ)
      → HasTable space first_entry base
      → page_start < 2 ^ 32
      → protect_entry space (page_entry base page_start) ≡ ok protected
      → ltb (page_start / 2 ^ 12 * 2 ^ 12 + 0xfff) end ≡ true
      → (page_start / 2 ^ 12 * 2 ^ 12 + 0x1000) % 2 ^ 32 ≡ next
      → protect_pages memalign shadow_map (suc fuel) space table start end page_start
        ≡ protect_pages memalign shadow_map fuel protected table start end next
  protect_pages-more fuel space protected page_start next h small returns more flat =
      protect_pages-step fuel space protected page_start h small returns ∙ rw (more, flat)

  -- The loop, from `page_start` on.
  protect_pages_lem :
      (fuel : ℕ) (space : Space) (page_start : ℕ)
      → HasTable space first_entry base
      → ((k : ℕ) → slot base k ≢ first_entry)
      → page_start ≤ end
      → end < 2 ^ 32
      → page_start / 2 ^ 20 ≡ end / 2 ^ 20
      → end / 2 ^ 12 - page_start / 2 ^ 12 < fuel
      → ((k : ℕ) → page_start / 2 ^ 12 ≤ k → k ≤ end / 2 ^ 12 → space.words (slot base k) % 4 ≢ 1)
      → Returns
          (protect_pages memalign shadow_map fuel space table start end page_start)
          (Protected base (page_start / 2 ^ 12) (end / 2 ^ 12) space)
  protect_pages_lem zero space page_start h apart ordered small mega enough pages =
      absurd (omega arith)
  protect_pages_lem (suc fuel) space page_start h apart ordered small mega enough pages =
      let p = page_start / 2 ^ 12 in
      let (one, returns, (kept, kind, safe, others)) =
        protect_entry_lem space (slot base p) (pages p (omega arith) (omega arith)) in
      let step = protect_pages-step fuel space one page_start h (omega arith) returns in
      elim (Bool-cases (ltb (p * 2 ^ 12 + 0xfff) end)) [
        | inr last ↦ (
          one,
          step ∙ rw last,
          one_page base p space one safe others (end / 2 ^ 12) (ground arith),
        )
        | inl more ↦
            (let before : p * 2 ^ 12 + 0xfff < end = ground arith in
              let flat : (p * 2 ^ 12 + 0x1000) % 2 ^ 32 ≡ p * 2 ^ 12 + 0x1000 = omega arith in
              let next : (p * 2 ^ 12 + 0x1000) / 2 ^ 12 ≡ suc p = omega arith in
              let h1 : HasTable one first_entry base =
                (rw (others first_entry (apart p)) h.0, rw kept h.1, h.2, h.3) in
              let distinct : (k : ℕ) → suc p ≤ k → k ≤ end / 2 ^ 12 → slot base p ≢ slot base k =
                λ k lo hi. omega arith in
              let pages1 : (k : ℕ)
                  → (p * 2 ^ 12 + 0x1000) / 2 ^ 12 ≤ k
                  → k ≤ end / 2 ^ 12
                  → one.words (slot base k) % 4 ≢ 1 =
                λ k lo hi.
                  rw (others (slot base k) (distinct k (omega arith) hi))
                    (pages k (omega arith) hi) in
              let (after, loops, (rest_safe, rest_others)) =
                protect_pages_lem fuel one (p * 2 ^ 12 + 0x1000) h1 apart (omega arith) small
                  (omega arith) (omega arith) pages1 in
              (
                after,
                protect_pages-more fuel space one page_start (p * 2 ^ 12 + 0x1000) h (omega arith)
                      returns more flat
                    ∙ loops,
                page_and_rest base p space one safe others ((p * 2 ^ 12 + 0x1000) / 2 ^ 12)
                    (end / 2 ^ 12) after next (omega arith) (omega arith) (rest_safe, rest_others),
              ))
      ]

  -- `writeProtectRange` over a range in one megabyte with a second-level table (`HasTable`), without
  -- large pages, comes to an end. In none of the range's pages has a small page then the permissions
  -- that let the guest's user mode write, and each word but the entries of those pages stays as it
  -- was. The end is a 32-bit value, and the first-level entry is not a word of the second-level
  -- table.
  pub write_protect_range_lem :
      (space : Space)
      → HasTable space (get_entry_first table start) base
      → ((k : ℕ) → slot base k ≢ get_entry_first table start)
      → start ≤ end
      → end < 2 ^ 32
      → start / 2 ^ 20 ≡ end / 2 ^ 20
      → ((k : ℕ) → start / 2 ^ 12 ≤ k → k ≤ end / 2 ^ 12 → space.words (slot base k) % 4 ≢ 1)
      → Returns
          (write_protect_range memalign shadow_map space table start end)
          (Protected base (start / 2 ^ 12) (end / 2 ^ 12) space)
  unfolding write_protect_range
  write_protect_range_lem space h apart ordered small mega pages =
      protect_pages_lem 0x10_0000 space start h apart ordered small mega (omega arith) pages
