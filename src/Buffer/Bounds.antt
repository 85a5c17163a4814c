-- ===== src/Buffer/Bounds.antt =====
-- A buffer stays inside its array and holds what the positions say (src/lmodaux.c).
use coutil.Prelude.{ℕ, ◌+◌, ◌^◌, ◌≡◌, Bool, true, ◌&&◌, Option, some, ltb, leb, arith}
use coutil.Prelude.Int.{ℤ, pos, negsuc}
use coutil.Buffer.{Buf, opt, setupbuf}

-- The byte at `k`, counted from 0, of an array of `sz`: it is in the buffer.
abbrev pub covers : Buf → ℕ → Bool
covers buf k = leb buf.base_plus_1 (k + 1) && ltb (k + 1) (buf.base_plus_1 + buf.len)

-- It stands at a position of Lua or behind it, or at it or before it; negative positions count from
-- the end, where -1 is the last byte.
abbrev pub at_or_after : ℤ → ℕ → ℕ → Bool
at_or_after (pos i) sz k = leb i (k + 1)
at_or_after (negsuc n) sz k = leb sz (k + 1 + n)

abbrev pub at_or_before : ℤ → ℕ → ℕ → Bool
at_or_before (pos j) sz k = leb (k + 1) j
at_or_before (negsuc n) sz k = leb (k + 1 + n) sz

abbrev pub is_lua_integer : ℤ → Bool
is_lua_integer (pos n) = ltb n (2 ^ 63)
is_lua_integer (negsuc n) = ltb n (2 ^ 63)

at_positions :
    (i j : ℤ) (sz k : ℕ)
    → ltb sz (2 ^ 63) ≡ true
    → is_lua_integer i ≡ true
    → is_lua_integer j ≡ true
    → covers (setupbuf (some i) (some j) sz) k
      ≡ (ltb k sz && at_or_after i sz k && at_or_before j sz k)
unfolding setupbuf
at_positions (pos i) (pos j) sz k s hi hj = ground arith
at_positions (pos i) (negsuc j) sz k s hi hj = ground arith
at_positions (negsuc i) (pos j) sz k s hi hj = ground arith
at_positions (negsuc i) (negsuc j) sz k s hi hj = ground arith

-- The buffer holds exactly the bytes of the array that stand from the first position to the last one
-- as Lua counts them (1 and -1 where they are absent). So it never reaches outside of the array,
-- whatever the two integers are.
pub setupbuf-covers :
    (first last : Option ℤ) (sz k : ℕ)
    → ltb sz (2 ^ 63) ≡ true
    → is_lua_integer (opt first (pos 1)) ≡ true
    → is_lua_integer (opt last (negsuc 0)) ≡ true
    → covers (setupbuf first last sz) k ≡ (
        ltb k sz && at_or_after (opt first (pos 1)) sz k && at_or_before (opt last (negsuc 0)) sz k)
unfolding setupbuf
setupbuf-covers first last sz k s hi hj =
    at_positions (opt first (pos 1)) (opt last (negsuc 0)) sz k s hi hj
