-- ===== src/Address/Netmask.antt =====
-- The length of a network mask, as `netinfo_call` of src/lcommunf.c computes it for its letter `l`. A
-- mask is the list of its bytes, of which there is one at least.
use coutil.Prelude.Bits.{all_below, all_below_sound}
use coutil.Prelude.{
  ℕ, zero, suc, ◌+◌, ◌-◌, ◌*◌, ◌/◌, ◌^◌, ◌≡◌, ◌≤◌, ◌∙◌, sym, ap, refl, Bool, true, false, List, [],
  ◌∷◌, ◌++◌, ◌==◌, ==_iff, ◌||◌, not, length, if◌then◌else◌, arith,
}

abbrev byte_at : ℕ → List ℕ → ℕ
byte_at i [] = 0
byte_at zero (b ∷ bs) = b
byte_at (suc i) (b ∷ bs) = byte_at i bs

-- `while (sz && !mask[--sz])`
unfoldable last_byte : (sz : ℕ) → List ℕ → ℕ
last_byte zero mask = 0
last_byte (suc sz) mask = let rest = last_byte sz mask in if byte_at sz mask == 0 then rest else sz

-- The rounds of `for (byte = ~mask[sz]; byte; byte >>= 1)`; 8 are enough for a byte.
unfoldable shifts : (fuel : ℕ) → ℕ → ℕ
shifts zero byte = 0
shifts (suc fuel) byte = let rest = shifts fuel (byte / 2) in if byte == 0 then 0 else rest + 1

unfoldable masklen : List ℕ → ℕ
masklen mask =
    let sz = last_byte (length mask) mask in 8 * (sz + 1) - shifts 8 (255 - byte_at sz mask)

abbrev copies : ℕ → ℕ → List ℕ
copies zero b = []
copies (suc n) b = b ∷ copies n b

-- A byte with its highest `r` bits set.
abbrev high : ℕ → ℕ
high r = 256 - 2 ^ (8 - r)

byte_at-behind : (n b : ℕ) (rest : List ℕ) → byte_at n (copies n 255 ++ b ∷ rest) ≡ b
byte_at-behind zero b rest = refl
byte_at-behind (suc n) b rest = byte_at-behind n b rest

byte_at-copies : (z n : ℕ) → byte_at n (copies z 0) ≡ 0
byte_at-copies zero zero = refl
byte_at-copies zero (suc n) = refl
byte_at-copies (suc z) zero = refl
byte_at-copies (suc z) (suc n) = byte_at-copies z n

byte_at-zero : (q b z n i : ℕ) → n ≡ q + 1 + i → byte_at n (copies q 255 ++ b ∷ copies z 0) ≡ 0
byte_at-zero q b z zero i e = absurd (omega (arith, e))
byte_at-zero zero b z (suc n) i e = byte_at-copies z n
byte_at-zero (suc q) b z (suc n) i e = byte_at-zero q b z n i (omega (arith, e))

last_byte-zeros :
    (q b z i n : ℕ)
    → n ≡ q + 1 + i
    → (b == 0) ≡ false
    → last_byte n (copies q 255 ++ b ∷ copies z 0) ≡ q
unfolding last_byte
last_byte-zeros q b z i zero e h = absurd (omega (arith, e))
last_byte-zeros q b z zero (suc n) e h =
    let same : n ≡ q = omega (arith, e) in
    rw (last_byte, same, byte_at-behind q b (copies z 0), h) refl
last_byte-zeros q b z (suc i) (suc n) e h =
    rw (last_byte, byte_at-zero q b z n i (omega (arith, e)))
      (last_byte-zeros q b z i n (omega (arith, e)) h)

last_byte-none : (z n : ℕ) → last_byte n (copies z 0) ≡ 0
unfolding last_byte
last_byte-none z zero = refl
last_byte-none z (suc n) = rw (last_byte, byte_at-copies z n) (last_byte-none z n)

is_right : ℕ → Bool
is_right r = shifts 8 (255 - high r) == 8 - r

rounds : all_below 9 is_right ≡ true
unfolding all_below is_right shifts
rounds = refl

shifts-high : (r : ℕ) → r ≤ 8 → shifts 8 (255 - high r) ≡ 8 - r
unfolding is_right
shifts-high r h =
    (==_iff (shifts 8 (255 - high r)) (8 - r)).0
      (all_below_sound 9 is_right r rounds (omega (arith, h)))

is_nonzero : ℕ → Bool
is_nonzero r = (r == 0) || not (high r == 0)

nonzeros : all_below 9 is_nonzero ≡ true
unfolding all_below is_nonzero
nonzeros = refl

high-nonzero : (r : ℕ) → 1 ≤ r → r ≤ 8 → (high r == 0) ≡ false
unfolding is_nonzero
high-nonzero r l h =
    let t = all_below_sound 9 is_nonzero r nonzeros (omega (arith, h)) in
    let n : (r == 0) ≡ false = ground (arith, l) in or_not (r == 0) (high r == 0) t n
  where
    or_not : (a b : Bool) → (a || not b) ≡ true → a ≡ false → b ≡ false
    or_not true b t n = absurd (ground (arith, n))
    or_not false true t n = sym t
    or_not false false t n = refl

length-copies : (n b : ℕ) (rest : List ℕ) → length (copies n b ++ rest) ≡ n + length rest
length-copies zero b rest = omega arith
length-copies (suc n) b rest = omega (arith, length-copies n b rest)

length-zeros : (z : ℕ) → length (copies z 0) ≡ z
length-zeros zero = refl
length-zeros (suc z) = ap (λ n. suc n) (length-zeros z)

-- The mask of a prefix: `q` bytes of ones, a byte with `r` of them, and `z` bytes of zeros.
abbrev prefix : (q r z : ℕ) → List ℕ
prefix q r z = copies q 255 ++ high r ∷ copies z 0

-- The length of the mask of a prefix is the number of its bits, of which its last byte that is not zero
-- has one at least.
masklen-prefix : (q r z : ℕ) → 1 ≤ r → r ≤ 8 → masklen (prefix q r z) ≡ 8 * q + r
unfolding masklen
masklen-prefix q r z l h =
    let size : length (prefix q r z) ≡ q + 1 + z =
      length-copies q 255 (high r ∷ copies z 0) ∙ omega (arith, length-zeros z) in
    let last = last_byte-zeros q (high r) z z (length (prefix q r z)) size (high-nonzero r l h) in
    rw (masklen, last, byte_at-behind q (high r) (copies z 0), shifts-high r h)
      (omega (arith, l, h))

-- A mask of zeros has the length 0.
masklen-zeros : (z : ℕ) → masklen (copies (suc z) 0) ≡ 0
unfolding masklen shifts
masklen-zeros z = rw (masklen, last_byte-none (suc z) (length (copies (suc z) 0))) refl
