-- ===== src/Mmu/InfoLaws.antt =====
-- The lists of second-level tables find what was added, and forget what was removed.
use hyparm.Common.{
  ℕ, ◌≡◌, ◌≢◌, refl, arith, Bool, true, false, ◌==◌, if◌then◌else◌, Option, none, some, List, [],
  ◌∷◌, ◌++◌, inl, inr, Bool-cases,
}
use hyparm.Mmu.Infos.{
  PtInfo, PageTables, add_page_table_info, find_info, or_else, get_page_table_info, unlink,
  free_table, remove_page_table_info,
}

find_info-++ :
    (xs ys : List PtInfo) (entry : ℕ)
    → find_info (xs ++ ys) entry ≡ or_else (find_info xs entry) (find_info ys entry)
unfolding find_info or_else
find_info-++ [] ys entry = refl
find_info-++ (x ∷ xs) ys entry = ground (arith, find_info-++ xs ys entry)

or_else-none : (o : Option PtInfo) → or_else o none ≡ o
unfolding or_else
or_else-none none = refl
or_else-none (some i) = refl

or_else-eq-none : (o p : Option PtInfo) → or_else o p ≡ none → (o ≡ none) × (p ≡ none)
unfolding or_else
or_else-eq-none none p h = (refl, h)
or_else-eq-none (some i) p h = cc

module _ (new : PtInfo) where
  find_info-last :
      (xs : List PtInfo) (entry : ℕ)
      → new.first_level_entry ≡ entry
      → find_info xs entry ≡ none
      → find_info (xs ++ new ∷ []) entry ≡ some new
  unfolding find_info or_else
  find_info-last xs entry own absent = rw (find_info-++ xs (new ∷ []) entry, absent) (ground arith)

  find_info-other :
      (xs : List PtInfo) (other : ℕ)
      → new.first_level_entry ≢ other
      → find_info (xs ++ new ∷ []) other ≡ find_info xs other
  unfolding find_info or_else
  find_info-other xs other ne =
      let alone : find_info (new ∷ []) other ≡ none = ground arith in
      rw (find_info-++ xs (new ∷ []) other, alone) (or_else-none (find_info xs other))

  unlink-last :
      (xs : List PtInfo) (entry : ℕ)
      → new.first_level_entry ≡ entry
      → find_info xs entry ≡ none
      → unlink (xs ++ new ∷ []) entry ≡ (xs, some new)
  unfolding unlink find_info
  unlink-last [] entry own absent = ground arith
  unlink-last (x ∷ xs) entry own absent =
      let apart : (x.first_level_entry == entry) ≡ false = ground arith in
      let later : find_info xs entry ≡ none = ground arith in
      rw (apart, unlink-last xs entry own later)

abbrev pub info_of : (entry virtual physical mapped : ℕ) → Bool → PtInfo
info_of entry virtual physical mapped host = record {
  first_level_entry = entry;
  virt_addr = virtual;
  phys_addr = physical;
  mapped_megabyte = mapped;
  host = host;
}

-- A table that was not known is found under its entry once it is added, and each other entry still
-- finds what it found.
pub get_page_table_info-add :
    (tables : PageTables) (entry virtual physical mapped : ℕ) (host : Bool)
    → get_page_table_info tables entry ≡ none
    → (get_page_table_info (add_page_table_info tables entry virtual physical mapped host) entry
        ≡ some (info_of entry virtual physical mapped host))
      × ((other : ℕ)
          → entry ≢ other
          → get_page_table_info
              (add_page_table_info tables entry virtual physical mapped host)
              other
            ≡ get_page_table_info tables other)
unfolding get_page_table_info add_page_table_info or_else
get_page_table_info-add tables entry virtual physical mapped host absent =
    let new = λ (b : Bool). info_of entry virtual physical mapped b in
    let (no_hpt, no_more) = or_else-eq-none (find_info tables.hpt_info entry) _ absent in
    let (no_spt, no_gpt) =
      or_else-eq-none (find_info tables.spt_info entry) (find_info tables.gpt_info entry) no_more in
    elim (Bool-cases tables.virt_addr_enabled) [
      | inl e ↦ elim (Bool-cases host) [
        | inl h ↦
            rw (e, h)
              (
                rw (no_hpt, find_info-last (new true) tables.spt_info entry refl no_spt),
                λ other ne. rw (find_info-other (new true) tables.spt_info other ne),
              )
        | inr h ↦
            rw (e, h)
              (
                rw (no_hpt, no_spt, find_info-last (new false) tables.gpt_info entry refl no_gpt),
                λ other ne. rw (find_info-other (new false) tables.gpt_info other ne),
              )
      ]
      | inr e ↦ rw e (
        rw (find_info-last (new host) tables.hpt_info entry refl no_hpt),
        λ other ne. rw (find_info-other (new host) tables.hpt_info other ne),
      )
    ]

-- With virtual addressing enabled, removing the table that was added, from the list it was added to,
-- leaves the lists as they were, if its entry was not known. A host table has been given to `free`.
pub remove_page_table_info-add :
    (tables : PageTables) (entry virtual physical mapped : ℕ) (host : Bool)
    → tables.virt_addr_enabled ≡ true
    → get_page_table_info tables entry ≡ none
    → remove_page_table_info
        (add_page_table_info tables entry virtual physical mapped host)
        entry
        host
      ≡ record tables { freed = if host then virtual ∷ tables.freed else tables.freed }
unfolding get_page_table_info add_page_table_info remove_page_table_info free_table
remove_page_table_info-add tables entry virtual physical mapped host enabled absent =
    let new = λ (b : Bool). info_of entry virtual physical mapped b in
    let (no_hpt, no_more) = or_else-eq-none (find_info tables.hpt_info entry) _ absent in
    let (no_spt, no_gpt) =
      or_else-eq-none (find_info tables.spt_info entry) (find_info tables.gpt_info entry) no_more in
    elim (Bool-cases host) [
      | inl h ↦ rw (enabled, h, unlink-last (new true) tables.spt_info entry refl no_spt)
      | inr h ↦ rw (enabled, h, unlink-last (new false) tables.gpt_info entry refl no_gpt)
    ]
