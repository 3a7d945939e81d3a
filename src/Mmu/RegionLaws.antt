-- ===== src/Mmu/RegionLaws.antt =====
-- `mapRegion` covers its region with pieces that touch and do not overlap, and comes to an end.
use hyparm.Common.{
  ℕ, zero, suc, ◌+◌, ◌-◌, ◌*◌, ◌%◌, ◌^◌, ◌≤◌, ◌<◌, max, ◌≡◌, refl, ◌∙◌, arith, Bool, true, ◌==◌,
  ◌&&◌, leb, ltb, if◌then◌else◌, Bool-cases, inl, inr, List, [], ◌∷◌,
}
use hyparm.Common.{Outcome, ok, die, ◌>>=◌, bad_range}
use hyparm.Mmu.Building.{Attributes}
use hyparm.Mmu.Space.{Space}
use hyparm.Mmu.Regions.{MappingUnit, size_of, choose_unit, map_units, map_unit, map_region}

abbrev pub Piece : Type 0
Piece = MappingUnit × ℕ × ℕ

-- Pieces that follow one another from a virtual and a physical address up to a physical stop. Each
-- is aligned to its size in physical memory.
pub data Tiles : (virtual physical stop : ℕ) → List Piece → Type 0 where
  no_tile : {virtual physical : ℕ} → Tiles virtual physical physical []
  tile :
      {virtual physical stop : ℕ} {rest : List Piece} (kind : MappingUnit)
      → physical % size_of kind ≡ 0
      → Tiles ((virtual + size_of kind) % 2 ^ 32) (physical + size_of kind) stop rest
      → Tiles virtual physical stop ((kind, virtual, physical) ∷ rest)

-- The mappings of the pieces, one after the other.
abbrev pub map_pieces {ℓ} :
    {S : Type ℓ} → (MappingUnit → S → ℕ → ℕ → Outcome S) → S → List Piece → Outcome S
map_pieces mapper s [] = ok s
map_pieces mapper s ((kind, virtual, physical) ∷ rest) =
    mapper kind s virtual physical >>= λ mapped. map_pieces mapper mapped rest

-- The chosen unit is aligned, and does not go past the page that has the end.
choose_unit_lem :
    (physical stop : ℕ)
    → physical % 2 ^ 12 ≡ 0
    → physical < stop
    → (physical % size_of (choose_unit physical stop) ≡ 0)
      × (physical + size_of (choose_unit physical stop) < stop + 0x1000)
      × (0x1000 ≤ size_of (choose_unit physical stop))
      × (size_of (choose_unit physical stop) % 2 ^ 12 ≡ 0)
unfolding choose_unit
choose_unit_lem physical stop aligned below =
    elim (Bool-cases (physical % 2 ^ 20 == 0 && leb 0x10_0000 (stop - physical))) [
      | inl e ↦ rw e (ground arith, ground arith, omega arith, refl)
      | inr e ↦ elim (Bool-cases (physical % 2 ^ 16 == 0 && leb 0x1_0000 (stop - physical))) [
        | inl f ↦ rw (e, f) (ground arith, ground arith, omega arith, refl)
        | inr f ↦ rw (e, f) (aligned, omega arith, omega arith, refl)
      ]
    ]

if-true {ℓ} : {A : Type ℓ} (b : Bool) (x y : A) → b ≡ true → (if b then x else y) ≡ x
if-true b x y h = rw h

bind-compose {ℓ κ} :
    {S : Type ℓ} {X : Type κ} {f : S → Outcome X} (o : Outcome S) (g : S → Outcome S)
    (k : S → Outcome X)
    → ((m : S) → f m ≡ (g m >>= k))
    → (o >>= f) ≡ ((o >>= g) >>= k)
bind-compose (ok m) g k h = h m
bind-compose (die e) g k h = refl

module _ {ℓ} {S : Type ℓ} (mapper : MappingUnit → S → ℕ → ℕ → Outcome S) (end : ℕ) where
  -- What the loop does from `physical` on: pieces, and where they stop.
  abbrev Covered : (fuel virtual physical : ℕ) → Type ℓ
  Covered fuel virtual physical =
      (stop : ℕ) × (pieces : List Piece) × Tiles virtual physical stop pieces
      × (end ≤ stop)
      × (stop < max (physical + 1) (end + 0x1000))
      × ((s : S)
          → map_units mapper fuel s virtual physical end
            ≡ (map_pieces mapper s pieces >>= λ (mapped : S). ok (stop, mapped)))

  map_units-step :
      (fuel : ℕ) (s : S) (virtual physical next : ℕ)
      → ltb physical end ≡ true
      → (physical + size_of (choose_unit physical end)) % 2 ^ 32 ≡ next
      → map_units mapper (suc fuel) s virtual physical end ≡ (
          mapper (choose_unit physical end) s virtual physical >>= λ (m : S).
          map_units mapper fuel m
            ((virtual + size_of (choose_unit physical end)) % 2 ^ 32)
            next
            end)
  unfolding map_units
  map_units-step fuel s virtual physical next before flat = rw (before, flat)

  map_units_lem :
      (fuel virtual physical : ℕ)
      → physical % 2 ^ 12 ≡ 0
      → end ≤ 2 ^ 32 - 2 ^ 12
      → end - physical + 0x1000 ≤ fuel * 0x1000
      → Covered fuel virtual physical
  unfolding map_units
  map_units_lem zero virtual physical aligned small enough = absurd (omega arith)
  map_units_lem (suc fuel) virtual physical aligned small enough =
      elim (Bool-cases (ltb physical end)) [
        | inr past ↦ (physical, [], no_tile, ground arith, omega arith, λ s. rw past)
        | inl before ↦
            (let kind = choose_unit physical end in
              let below : physical < end = ground arith in
              let (fits, within, least, whole) = choose_unit_lem physical end aligned below in
              let flat : (physical + size_of kind) % 2 ^ 32 ≡ physical + size_of kind =
                omega arith in
              let (stop, pieces, tiles, reach, near, runs) =
                map_units_lem fuel ((virtual + size_of kind) % 2 ^ 32) (physical + size_of kind)
                  (omega arith) small (omega arith) in
              (
                stop,
                (kind, virtual, physical) ∷ pieces,
                tile kind fits tiles,
                reach,
                omega arith,
                λ s.
                    map_units-step fuel s virtual physical (physical + size_of kind) before flat
                    ∙ bind-compose (mapper kind s virtual physical)
                        (λ (m : S). map_pieces mapper m pieces) (λ (m : S). ok (stop, m)) runs,
              ))
      ]

module _ (memalign : ℕ → ℕ) (shadow_map : Space → ℕ → Bool × Space) where
  -- `mapRegion` from a multiple of 4 kB, to an end that is not in the last 4 kB of the addresses,
  -- comes to an end. It makes the mappings of pieces that cover the physical addresses from the
  -- start to the stop that it returns, without a gap or an overlap, each aligned to its size, and
  -- the virtual addresses run beside them. The stop is not before the end, and past an end that is
  -- not before the start it goes by less than 4 kB.
  pub map_region_lem :
      (space : Space) (table virtual_start physical_start physical_end : ℕ)
      (attributes : Attributes)
      → physical_start % 2 ^ 12 ≡ 0
      → physical_end ≤ 2 ^ 32 - 2 ^ 12
      → (stop : ℕ) × (pieces : List Piece) × Tiles virtual_start physical_start stop pieces
        × (physical_end ≤ stop)
        × (physical_start ≤ physical_end → stop < physical_end + 0x1000)
        × (map_region memalign shadow_map space table virtual_start physical_start physical_end
              attributes
            ≡ (map_pieces (map_unit memalign shadow_map table attributes) space pieces
                >>= λ (mapped : Space). ok (stop, mapped)))
  unfolding map_region
  map_region_lem space table virtual_start physical_start physical_end attributes aligned small =
      let (stop, pieces, tiles, reach, near, runs) =
        map_units_lem (map_unit memalign shadow_map table attributes) physical_end 0x10_0001
          virtual_start physical_start aligned small (omega arith) in
      (
        stop,
        pieces,
        tiles,
        reach,
        λ ordered. omega arith,
        if-true (physical_start % 2 ^ 12 == 0) _ (die bad_range) (ground arith) ∙ runs space,
      )
