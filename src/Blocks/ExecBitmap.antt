-- ===== src/Blocks/ExecBitmap.antt =====
-- The bitmap of the pages that hold translated code (`setExecBitmap`, `isExecBitSet`): one bit for
-- each 4 KB page, eight to a byte.
use hyparm.Common.{ℕ, ◌-◌, ◌*◌, ◌/◌, ◌%◌, ◌^◌, bit_or, Bool, ◌==◌, ◌!=◌, if◌then◌else◌}
use hyparm.Memory.{Memory, update}

-- `if (actualBit == 0) context->execBitmap[byteIndex] = actualByte | (1 << bitIndex);` where
-- `actualByte` was read from `read_from`.
unfoldable pub mark : Memory ℕ → ℕ → ℕ → ℕ → Memory ℕ
mark bitmap read_from byte_index bit_index =
    let actual_byte = bitmap read_from in
    let actual_bit = actual_byte / 2 ^ bit_index % 2 in
    if actual_bit == 0
    then update bitmap byte_index (bit_or actual_byte (2 ^ bit_index))
    else bitmap

-- For the last page the source reads `execBitmap[bitIndexEnd]`, not `execBitmap[byteIndexEnd]`.
unfoldable pub set_exec_bitmap : Memory ℕ → ℕ → ℕ → Memory ℕ
set_exec_bitmap bitmap start end =
    let starting_page = start / 2 ^ 12 in
    let ending_page = end / 2 ^ 12 in
    let byte_index = starting_page / 2 ^ 3 in
    let bit_index = starting_page - byte_index * 2 ^ 3 in
    let bitmap' = mark bitmap byte_index byte_index bit_index in
    let byte_index_end = ending_page / 2 ^ 3 in
    let bit_index_end = ending_page - byte_index_end * 2 ^ 3 in
    if starting_page != ending_page
    then mark bitmap' bit_index_end byte_index_end bit_index_end
    else bitmap'

unfoldable pub is_exec_bit_set : Memory ℕ → ℕ → Bool
is_exec_bit_set bitmap addr =
    let page = addr / 2 ^ 12 in
    let byte_index = page / 2 ^ 3 in
    let bit_index = page - byte_index * 2 ^ 3 in
    let actual_byte = bitmap byte_index in
    let actual_bit = actual_byte / 2 ^ bit_index % 2 in actual_bit != 0
