-- ===== src/Buffer.antt =====
-- The part of an array that an operation reads or writes, by the positions that Lua gives
-- (`setupbuf` of src/lmodaux.c). Arrays are smaller than 2^63 bytes; sums on `size_t` wrap around.
pub mod Bounds
use coutil.Prelude.{ℕ, ◌+◌, ◌-◌, ◌^◌, ◌%◌, Bool, Option, none, some, ltb, leb, ◌==◌, if◌then◌else◌}
use coutil.Prelude.Int.{ℤ, pos, negsuc}

abbrev pub size_max : ℕ
size_max = 2 ^ 64

-- `(size_t)pos` for -(n + 1).
abbrev pub wrapped : ℕ → ℕ
wrapped n = size_max - (n + 1)

unfoldable pub posrelat_i : ℤ → ℕ → ℕ
posrelat_i (pos n) len = if n == 0 then 1 else n
posrelat_i (negsuc n) len = if ltb len (n + 1) then 1 else (len + wrapped n + 1) % size_max

unfoldable pub getendpos : ℤ → ℕ → ℕ
getendpos (pos n) len = if ltb len n then len else n
getendpos (negsuc n) len = if ltb len (n + 1) then 0 else (len + wrapped n + 1) % size_max

-- `uv_buf_t`, with the base counted from the start of the array; it is taken one higher, so that the
-- subtraction does not cut.
pub record Buf : Type 0 where
  pub base_plus_1 : ℕ
  pub len : ℕ

-- The two positions as they stand, or 1 and -1.
abbrev pub opt : Option ℤ → ℤ → ℤ
opt none def = def
opt (some i) def = i

unfoldable pub setupbuf : Option ℤ → Option ℤ → ℕ → Buf
unfolding posrelat_i getendpos
setupbuf first last sz =
    let start = posrelat_i (opt first (pos 1)) sz in
    let end = getendpos (opt last (negsuc 0)) sz in
    record {
      base_plus_1 = start;
      len = if leb start end then (end + size_max - start + 1) % size_max else 0;
    }
