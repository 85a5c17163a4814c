-- ===== src/Prelude/Bits.antt =====
-- Flags in a number: the digits of `bit_and` and `bit_or`, and checks of all values below a bound.
use Prim.Native.Nat.{
  ℕ, zero, suc, ◌+◌, ◌-◌, ◌*◌, ◌/◌, ◌%◌, ◌≤◌, ◌<◌, min, max, bit_and, bit_or, digits,
  bit_and-bitwise, bit_or-bitwise,
}
use mathlib.Core.Path.{◌≡◌, refl, sym, ap, ◌∙◌}
use mathlib.Core.Bool.{Bool, true, false}
use native.Mathlib.Omega.{arith}
use coutil.Prelude.Tests.{if◌then◌else◌}

-- A test of all numbers below a bound, from the greatest one down.
unfoldable pub all_below : ℕ → (ℕ → Bool) → Bool
all_below zero test = true
all_below (suc bound) test = if test bound then all_below bound test else false

pub all_below_sound :
    (bound : ℕ) (test : ℕ → Bool) (i : ℕ) → all_below bound test ≡ true → i < bound → test i ≡ true
unfolding all_below
all_below_sound zero test i passed below = absurd (omega (arith, below))
all_below_sound (suc bound) test i passed below =
    ground (arith, passed, below, all_below_sound bound test i)

-- The binary digit of a number at a place.
abbrev pub bit_at : ℕ → ℕ → ℕ
bit_at zero a = a % 2
bit_at (suc i) a = bit_at i (a / 2)

-- `digits` counts down from the first number; from a greater one on it gives the same.
module _ (last : ℕ → ℕ) (digit : ℕ → ℕ → ℕ) where
  abbrev from : ℕ → ℕ → ℕ → ℕ
  from count x y = digits last digit count x y

  one_more : (count x y : ℕ) → x ≤ count → from (suc count) x y ≡ from count x y
  one_more zero zero y le = refl
  one_more (suc count) zero y le = refl
  one_more zero (suc x) y le = absurd (omega (arith, le))
  one_more (suc count) (suc x) y le =
      ap (λ v. v * 2 + digit (suc x % 2) (y % 2))
        (one_more count (suc x / 2) (y / 2) (omega (arith, le)))

  some_more : (extra x y : ℕ) → from (extra + x) x y ≡ from x x y
  some_more zero x y = ap (λ count. from count x y) (omega arith)
  some_more (suc extra) x y =
      ap (λ count. from count x y) {y = suc (extra + x)} (omega arith)
      ∙ one_more (extra + x) x y (omega arith)
      ∙ some_more extra x y

  lowest_digit :
      (x y : ℕ)
      → from (suc x) (suc x) y
        ≡ from (suc x / 2) (suc x / 2) (y / 2) * 2 + digit (suc x % 2) (y % 2)
  lowest_digit x y =
      let h = suc x / 2 in
      ap (λ v. v * 2 + digit (suc x % 2) (y % 2))
        (ap (λ count. from count h (y / 2)) {y = x - h + h} (omega arith)
          ∙ some_more (x - h) h (y / 2))

no_bits-bit_and : (y : ℕ) → bit_and 0 y ≡ 0
no_bits-bit_and y = bit_and-bitwise 0 y

no_bits-bit_or : (y : ℕ) → bit_or 0 y ≡ y
no_bits-bit_or y = bit_or-bitwise 0 y

and_half : (x y : ℕ) → bit_and x y ≡ bit_and (x / 2) (y / 2) * 2 + min (x % 2) (y % 2)
and_half zero y = omega (arith, no_bits-bit_and y, no_bits-bit_and (y / 2))
and_half (suc x) y =
    bit_and-bitwise (suc x) y
    ∙ lowest_digit (λ _. zero) min x y
    ∙ ap (λ v. v * 2 + min (suc x % 2) (y % 2)) (sym (bit_and-bitwise (suc x / 2) (y / 2)))

or_half : (x y : ℕ) → bit_or x y ≡ bit_or (x / 2) (y / 2) * 2 + max (x % 2) (y % 2)
or_half zero y = omega (arith, no_bits-bit_or y, no_bits-bit_or (y / 2))
or_half (suc x) y =
    bit_or-bitwise (suc x) y
    ∙ lowest_digit (λ v. v) max x y
    ∙ ap (λ v. v * 2 + max (suc x % 2) (y % 2)) (sym (bit_or-bitwise (suc x / 2) (y / 2)))

no_bits_within : (bound x : ℕ) → x ≤ bound → bit_and x 0 ≡ 0
no_bits_within bound zero le = refl
no_bits_within zero (suc x) le = absurd (omega (arith, le))
no_bits_within (suc bound) (suc x) le =
    let half : bit_and (suc x / 2) 0 ≡ 0 = no_bits_within bound (suc x / 2) (omega (arith, le)) in
    omega (arith, and_half (suc x) 0, half)

bit_and-no_bits : (x : ℕ) → bit_and x 0 ≡ 0
bit_and-no_bits x = no_bits_within x x (omega arith)

-- The digits of an `or` and of an `and`.
pub bit_at-bit_or : (i a b : ℕ) → bit_at i (bit_or a b) ≡ max (bit_at i a) (bit_at i b)
bit_at-bit_or zero a b = omega (arith, or_half a b)
bit_at-bit_or (suc i) a b =
    let half : bit_or a b / 2 ≡ bit_or (a / 2) (b / 2) = omega (arith, or_half a b) in
    rw half (bit_at-bit_or i (a / 2) (b / 2))

abbrev pub pow2 : ℕ → ℕ
pow2 zero = 1
pow2 (suc k) = pow2 k * 2

-- A test of one flag.
pub bit_and-pow2 : (k a : ℕ) → bit_and a (pow2 k) ≡ bit_at k a * pow2 k
bit_and-pow2 zero a = omega (arith, and_half a 1, bit_and-no_bits (a / 2))
bit_and-pow2 (suc k) a =
    let half : pow2 k * 2 / 2 ≡ pow2 k = omega arith in
    let even : pow2 k * 2 % 2 ≡ 0 = omega arith in
    and_half a (pow2 k * 2) ∙ rw (half, even, bit_and-pow2 k (a / 2)) (grind arith)
