-- ===== src/Blocks/ExecLaws.antt =====
-- What `setExecBitmap` and `isExecBitSet` do to each page.
use hyparm.Common.{ℕ, ◌+◌, ◌-◌, ◌%◌, ◌/◌, ◌*◌, ◌^◌, ◌≤◌, ◌<◌, ◌≡◌, ◌≢◌, arith, bit_or, true, false}
use hyparm.Common.{◌==◌, ◌!=◌, if◌then◌else◌, ◌||◌}
use hyparm.Bits.{bit_at, bit_at-bit_or, bit_at-pow, bit_at-le-one, shift_bit}
use hyparm.Memory.{Memory, update}
use hyparm.Blocks.ExecBitmap.{mark, set_exec_bitmap, is_exec_bit_set}

-- The page of an address.
abbrev pub page_of : ℕ → ℕ
page_of addr = addr / 2 ^ 12

mark_bit :
    (bitmap : Memory ℕ) (page other : ℕ)
    → bit_at (mark bitmap (page / 8) (page / 8) (page % 8) (other / 8)) (other % 8)
      ≡ (if page == other then 1 else bit_at (bitmap (other / 8)) (other % 8))
unfolding mark update
mark_bit bitmap page other = ground (
  arith,
  shift_bit (bitmap (page / 8)) (page % 8),
  bit_at-bit_or (bitmap (page / 8)) (2 ^ (page % 8)) (other % 8),
  bit_at-pow (page % 8) (other % 8),
  bit_at-le-one (bitmap (page / 8)) (other % 8),
)

-- The bit index of the source, `page - (page >> 3 << 3)`.
bit_index : (page : ℕ) → page - page / 2 ^ 3 * 2 ^ 3 ≡ page % 8
bit_index page = omega arith

is_exec_bit_set-eq :
    (bitmap : Memory ℕ) (addr : ℕ)
    → is_exec_bit_set bitmap addr ≡ (bit_at (bitmap (page_of addr / 8)) (page_of addr % 8) != 0)
unfolding is_exec_bit_set
is_exec_bit_set-eq bitmap addr =
    rw (bit_index (page_of addr), shift_bit (bitmap (page_of addr / 8)) (page_of addr % 8))

-- A block within one page marks that page, and no other.
pub is_exec_bit_set-set_exec_bitmap :
    (bitmap : Memory ℕ) (start end addr : ℕ)
    → page_of start ≡ page_of end
    → is_exec_bit_set (set_exec_bitmap bitmap start end) addr
      ≡ (page_of addr == page_of start || is_exec_bit_set bitmap addr)
unfolding set_exec_bitmap
is_exec_bit_set-set_exec_bitmap bitmap start end addr same =
    let p = page_of start in
    let one_page : (page_of start != page_of end) ≡ false = ground arith in
    rw
      (
        is_exec_bit_set-eq (set_exec_bitmap bitmap start end) addr,
        is_exec_bit_set-eq bitmap addr,
        bit_index p,
        one_page,
        mark_bit bitmap p (page_of addr),
      )
      (ground arith)

mark_elsewhere :
    (bitmap : Memory ℕ) (from byte bit : ℕ)
    → bit_at (bitmap from) bit ≡ 0
    → mark bitmap from byte bit byte ≡ bit_or (bitmap from) (2 ^ bit)
unfolding mark update
mark_elsewhere bitmap from byte bit clear = ground (arith, shift_bit (bitmap from) bit)

mark_off :
    (bitmap : Memory ℕ) (from byte bit b : ℕ) → byte ≢ b → mark bitmap from byte bit b ≡ bitmap b
unfolding mark update
mark_off bitmap from byte bit b off = ground arith

set_exec_bitmap_spanning :
    (bitmap : Memory ℕ) (start end : ℕ)
    → page_of start ≢ page_of end
    → set_exec_bitmap bitmap start end
      ≡ mark
          (mark bitmap (page_of start / 8) (page_of start / 8) (page_of start % 8))
          (page_of end % 8)
          (page_of end / 8)
          (page_of end % 8)
unfolding set_exec_bitmap
set_exec_bitmap_spanning bitmap start end differ =
    let spans : (page_of start != page_of end) ≡ true = ground arith in
    rw (bit_index (page_of start), bit_index (page_of end), spans)

-- A block that runs over into the next page, within one byte of the bitmap, does not mark the page
-- where it starts, if the byte that is read for the last page has neither bit set. (That byte is
-- one of the first eight, for the lowest 256 KB.)
pub set_exec_bitmap_loses_start :
    (bitmap : Memory ℕ) (start end : ℕ)
    → page_of end ≡ page_of start + 1
    → page_of start % 8 < 7
    → 8 ≤ page_of start / 8
    → bit_at (bitmap (page_of end % 8)) (page_of end % 8) ≡ 0
    → bit_at (bitmap (page_of end % 8)) (page_of start % 8) ≡ 0
    → is_exec_bit_set (set_exec_bitmap bitmap start end) start ≡ false
set_exec_bitmap_loses_start bitmap start end next room high clear_end clear_start =
    let p = page_of start in
    let q = page_of end in
    let first = mark bitmap (q / 8) (q / 8) (p % 8) in
    let low : first (q % 8) ≡ bitmap (q % 8) =
      mark_off bitmap (q / 8) (q / 8) (p % 8) (q % 8) (omega arith) in
    let byte : p / 8 ≡ q / 8 = omega arith in
    let clear : bit_at (first (q % 8)) (q % 8) ≡ 0 = rw low clear_end in
    rw
      (
        is_exec_bit_set-eq (set_exec_bitmap bitmap start end) start,
        set_exec_bitmap_spanning bitmap start end (omega arith),
        byte,
        mark_elsewhere first (q % 8) (q / 8) (q % 8) clear,
        low,
      )
      (ground
        (arith, bit_at-bit_or (bitmap (q % 8)) (2 ^ (q % 8)) (p % 8), bit_at-pow (q % 8) (p % 8)))
