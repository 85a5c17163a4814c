-- ===== src/File/Perm.antt =====
-- Permissions are set and read by the same letters (`checkperm` and `pushfilestat` of src/lfilef.c).
use Prim.Native.Nat.{bit_and, bit_or, max}
use coutil.Prelude.{
  ℕ, zero, suc, ◌*◌, ◌≡◌, ◌∙◌, ap, refl, Bool, true, false, not, Option, none, some, List, [], ◌∷◌,
  ◌==◌, has, ◌<◌, ==_iff, arith, if◌then◌else◌, Option-cases, inl, inr,
}
use coutil.Prelude.Bits.{all_below, all_below_sound, bit_at, bit_at-bit_or, pow2, bit_and-pow2}
use coutil.File.{perm_flag, checkperm, Statbuf, pushfilestat, boolean}

-- The place of a letter's flag.
abbrev pub place : ℕ → Option ℕ
place c =
    if c == b'U'
    then some 11
    else if c == b'G'
    then some 10
    else if c == b'S'
    then some 9
    else if c == b'r'
    then some 8
    else if c == b'w'
    then some 7
    else if c == b'x'
    then some 6
    else if c == b'R'
    then some 5
    else if c == b'W'
    then some 4
    else if c == b'X'
    then some 3
    else if c == b'4'
    then some 2
    else if c == b'2'
    then some 1
    else if c == b'1'
    then some 0
    else none

place-lt : (c k : ℕ) → place c ≡ some k → c < 256
place-lt c k h = ground arith

perm_flag-lt : (d flag : ℕ) → perm_flag d ≡ some flag → d < 256
unfolding perm_flag
perm_flag-lt d flag h = ground arith

-- All pairs of letters.
abbrev fits_at : ℕ → ℕ → ℕ → Bool
fits_at c k d = elim (perm_flag d) [
  | none ↦ true
  | some flag ↦ bit_at k flag == (if d == c then 1 else 0)
]

abbrev fits_all : ℕ → Bool
fits_all c = elim (place c) [ none ↦ true | some k ↦ all_below 256 (fits_at c k) ]

fits_table : all_below 256 fits_all ≡ true
unfolding all_below perm_flag
fits_table = refl

flag_at :
    (c d k flag : ℕ)
    → place c ≡ some k
    → perm_flag d ≡ some flag
    → bit_at k flag ≡ (if d == c then 1 else 0)
flag_at c d k flag p f =
    let row = all_below_sound 256 fits_all c fits_table (place-lt c k p) in
    let row' : all_below 256 (fits_at c k) ≡ true = rw (fits_all, p) at row in
    let cell = all_below_sound 256 (fits_at c k) d row' (perm_flag-lt d flag f) in
    let cell' : (bit_at k flag == (if d == c then 1 else 0)) ≡ true = rw (fits_at, f) at cell in
    (==_iff (bit_at k flag) (if d == c then 1 else 0)).0 cell'

checkperm-bit_at :
    (c k : ℕ) (mode : List ℕ) (perm0 perm : ℕ)
    → place c ≡ some k
    → checkperm perm0 mode ≡ some perm
    → bit_at k perm ≡ max (bit_at k perm0) (if has c mode then 1 else 0)
unfolding checkperm
checkperm-bit_at c k [] perm0 perm p h = ground arith
checkperm-bit_at c k (d ∷ mode) perm0 perm p h = elim (Option-cases (perm_flag d)) [
  | inl e ↦ let h' : none ≡ some perm = rw (checkperm, e) at h in cc
  | inr (flag, e) ↦
      let h' : checkperm (bit_or perm0 flag) mode ≡ some perm = rw (checkperm, e) at h in
      ground (
        arith,
        checkperm-bit_at c k mode (bit_or perm0 flag) perm p h',
        bit_at-bit_or k perm0 flag,
        flag_at c d k flag p e,
      )
]

pushfilestat-place :
    (tn : ℕ → List ℕ) (stat : Statbuf) (c k : ℕ)
    → place c ≡ some k
    → pushfilestat tn stat c ≡ some (boolean (not (bit_and stat.st_mode (pow2 k) == 0)))
unfolding pushfilestat
pushfilestat-place tn stat c k p = ground arith

bit_at_zero : (k : ℕ) → bit_at k 0 ≡ 0
bit_at_zero zero = refl
bit_at_zero (suc k) = bit_at_zero k

pow2_pos : (k : ℕ) → 0 < pow2 k
pow2_pos zero = omega arith
pow2_pos (suc k) = omega (arith, pow2_pos k)

flag_test : (k v : ℕ) (b : Bool) → v ≡ (if b then 1 else 0) → not (v * pow2 k == 0) ≡ b
flag_test k v true e = rw e (ground (arith, pow2_pos k))
flag_test k v false e = rw e (ground arith)

-- A file with the permissions that `checkperm` reads from a text has, for each letter of a
-- permission, the boolean that `pushfilestat` gives exactly where the letter stands in the text.
checkperm-pushfilestat :
    (type_name : ℕ → List ℕ) (stat : Statbuf) (mode : List ℕ) (perm c k : ℕ)
    → checkperm 0 mode ≡ some perm
    → place c ≡ some k
    → pushfilestat type_name (record stat { st_mode = perm }) c ≡ some (boolean (has c mode))
checkperm-pushfilestat type_name stat mode perm c k h p =
    pushfilestat-place type_name (record stat { st_mode = perm }) c k p
    ∙ rw (bit_and-pow2 k perm) (
        ap (λ b. some (boolean b))
          (flag_test k (bit_at k perm) (has c mode)
            (checkperm-bit_at c k mode 0 perm p h ∙ rw (bit_at_zero k) (ground arith))))
