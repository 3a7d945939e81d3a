-- ===== src/Devices/SdramRow.antt =====
-- Where `createHardwareLibrary` has put the SDRAM.
use hyparm.Common.{
  ℕ, ◌≤◌, ◌<◌, ◌≡◌, refl, ap, ◌∙◌, arith, Bool, true, false, zero, suc, ◌-◌, ltb, leb, ◌&&◌, length,
  [], ◌∷◌, Outcome, List, some,
}
use hyparm.Devices.Tree.{Functions, device_at, call_function, sdram}
use hyparm.Devices.MemoryMap.{Range, row, memory_map, find_row}
use hyparm.Devices.Routing.{answer, and_true}
use hyparm.Devices.Places.{library, library_routes}

-- The first `n` rows are below the SDRAM, and what comes after them.
abbrev all_below : ℕ → List Range → Bool
all_below zero rows = true
all_below (suc n) [] = true
all_below (suc n) (r ∷ rows) = ltb r.last 0x8000_0000 && all_below n rows

abbrev after_rows : ℕ → List Range → List Range
after_rows zero rows = rows
after_rows (suc n) [] = []
after_rows (suc n) (r ∷ rows) = after_rows n rows

find_row_after :
    (n : ℕ) (rows : List Range) (a : ℕ)
    → all_below n rows ≡ true
    → 0x8000_0000 ≤ a
    → find_row rows a ≡ find_row (after_rows n rows) a
find_row_after zero rows a below from = refl
find_row_after (suc n) [] a below from = refl
find_row_after (suc n) (r ∷ rows) a below from =
    let (low, rest) = and_true (ltb r.last 0x8000_0000) _ below in
    let not_here : (leb r.first a && leb a r.last) ≡ false = ground (arith, low, from) in
    rw not_here (find_row_after n rows a rest from)

-- The SDRAM is the last row.
sdram_last :
    (hw mmc profiler : Bool)
    → let rows = memory_map hw mmc profiler in
      (all_below (length rows - 1) rows ≡ true)
      × (after_rows (length rows - 1) rows ≡ row 0x8000_0000 0xbfff_ffff sdram ∷ [])
sdram_last false false false = (refl, refl)
sdram_last false false true = (refl, refl)
sdram_last false true false = (refl, refl)
sdram_last false true true = (refl, refl)
sdram_last true false false = (refl, refl)
sdram_last true false true = (refl, refl)
sdram_last true true false = (refl, refl)
sdram_last true true true = (refl, refl)

find_row-sdram :
    (hw mmc profiler : Bool) (a : ℕ)
    → 0x8000_0000 ≤ a
    → a < 0xc000_0000
    → find_row (memory_map hw mmc profiler) a ≡ some (row 0x8000_0000 0xbfff_ffff sdram)
find_row-sdram hw mmc profiler a from to =
    let rows = memory_map hw mmc profiler in
    let (below, last) = sdram_last hw mmc profiler in
    let here : (leb 0x8000_0000 a && leb a 0xbfff_ffff) ≡ true = ground (arith, from, to) in
    find_row_after (length rows - 1) rows a below from
    ∙ ap (λ (rest : List Range). find_row rest a) last
    ∙ rw here refl

-- An access to an address of the SDRAM calls its functions.
pub sdram_answers :
    {A : Type 0} (hw mmc profiler : Bool) (own : Functions → ℕ → Outcome A) (a : ℕ)
    → 0x8000_0000 ≤ a
    → a < 0xc000_0000
    → call_function
        (λ f dev. own f (device_at (library hw mmc profiler) dev).start_address_mapped)
        6
        (library hw mmc profiler)
        0
        a
      ≡ own sdram 0x8000_0000
sdram_answers hw mmc profiler own a from to =
    library_routes hw mmc profiler own a (omega (arith, to))
    ∙ ap (answer own) (find_row-sdram hw mmc profiler a from to)
