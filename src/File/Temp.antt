-- ===== src/File/Temp.antt =====
-- Temporary files of src/lfilef.c: the mode and the template of `system.maketemp`. A text of C is read
-- up to its first zero; the template is an array of 256 bytes with unknown contents.
pub mod Mode
pub mod Template
use coutil.Prelude.{
  ℕ, zero, suc, ◌+◌, ◌-◌, ◌≡◌, ◌≤◌, ◌<◌, ◌∙◌, sym, ap, refl, Bool, true, false, ◌&&◌, ◌||◌, not,
  Option, none, some, List, [], ◌∷◌, ◌++◌, ◌==◌, ==_iff, ltb, length, length-append, drop, has,
  if◌then◌else◌, arith, Bool-cases, inl, inr,
}
use coutil.Process.{c_string, Outcome, ok, error, undefined}

abbrev pub mktmp_templatesz : ℕ
mktmp_templatesz = 256

-- `template[i] = c`; `none` if it is outside.
abbrev pub write_at : ℕ → ℕ → List ℕ → Option (List ℕ)
write_at i c [] = none
write_at zero c (b ∷ array) = some (c ∷ array)
write_at (suc i) c (b ∷ array) = elim (write_at i c array) [
  | none ↦ none
  | some array' ↦ some (b ∷ array')
]

-- The first loop of `callmktmp` from the place `i`, with the place of the zero. The prefix ends with a
-- zero of its own at the latest.
unfoldable pub copy_prefix : ℕ → List ℕ → List ℕ → Option (ℕ × List ℕ)
copy_prefix i [] array = elim (write_at i 0 array) [ none ↦ none | some array' ↦ some (i, array') ]
copy_prefix i (c ∷ prefix) array = elim (write_at i c array) [
  | none ↦ none
  | some array' ↦
      let rest = copy_prefix (i + 1) prefix array' in if c == 0 then some (i, array') else rest
]

-- `strcpy` to the place `i`.
unfoldable pub copy_string : ℕ → List ℕ → List ℕ → Option (List ℕ)
copy_string i [] array = write_at i 0 array
copy_string i (c ∷ s) array = elim (write_at i c array) [
  | none ↦ none
  | some array' ↦ copy_string (i + 1) s array'
]

abbrev pub six_letters : List ℕ
six_letters = b'X' ∷ b'X' ∷ b'X' ∷ b'X' ∷ b'X' ∷ b'X' ∷ []

-- `callmktmp`: the template that libuv gets.
unfoldable pub callmktmp : List ℕ → List ℕ → Outcome (List ℕ)
callmktmp prefix array = elim (copy_prefix 0 prefix array) [
  | none ↦ undefined
  | some (i, array') ↦ elim (copy_string i six_letters array') [
    | none ↦ undefined
    | some t ↦ ok (c_string t)
  ]
]

-- The three low bits of `bits` and of the masks of the mode: MKTMP_OPENFILE holds the bit of
-- MKTMP_CREATEFILE and one more.
pub record TempMode : Type 0 where
  pub bit_0 : Bool
  pub bit_1 : Bool
  pub bit_2 : Bool

abbrev pub no_bits : TempMode
no_bits = record { bit_0 = false; bit_1 = false; bit_2 = false }

abbrev pub mktmp_noyield : TempMode
mktmp_noyield = record { bit_0 = true; bit_1 = false; bit_2 = false }

abbrev pub mktmp_createfile : TempMode
mktmp_createfile = record { bit_0 = false; bit_1 = true; bit_2 = false }

abbrev pub mktmp_openfile : TempMode
mktmp_openfile = record { bit_0 = false; bit_1 = true; bit_2 = true }

-- `bits | mask`
abbrev pub bit_or : TempMode → TempMode → TempMode
bit_or bits mask = record {
  bit_0 = bits.bit_0 || mask.bit_0;
  bit_1 = bits.bit_1 || mask.bit_1;
  bit_2 = bits.bit_2 || mask.bit_2;
}

-- `bits & mask` as a condition
abbrev pub meets : TempMode → TempMode → Bool
meets bits mask =
    (bits.bit_0 && mask.bit_0) || (bits.bit_1 && mask.bit_1) || (bits.bit_2 && mask.bit_2)

-- The loop over the letters; it ends at the first zero. `none` is an error.
unfoldable pub add_mode : TempMode → List ℕ → Option TempMode
add_mode bits [] = some bits
add_mode bits (c ∷ mode) =
    let created = add_mode (bit_or bits mktmp_createfile) mode in
    let opened = add_mode (bit_or bits mktmp_openfile) mode in
    if c == 0 then some bits else if c == b'f' then created else if c == b'o' then opened else none

-- The loop over the begin, with the bits and the rest of the mode.
unfoldable pub skip_noyield : TempMode → List ℕ → TempMode × List ℕ
skip_noyield bits [] = (bits, [])
skip_noyield bits (c ∷ mode) =
    let rest = skip_noyield mktmp_noyield mode in if c == b'~' then rest else (bits, c ∷ mode)

-- What `callmktmp` and the handlers of the call get: whether the call yields, the places 3 and 4 of the
-- stack, which hold the mode and the scheduler or nil, and the template.
pub record TempCall : Type 0 where
  pub noyield : Bool
  pub mode : Bool
  pub sched : Bool
  pub template : List ℕ

abbrev pub call_of : TempMode → Outcome (List ℕ) → Outcome TempCall
call_of bits (ok template) = ok (record {
  noyield = meets bits mktmp_noyield;
  mode = meets bits mktmp_createfile;
  sched = meets bits mktmp_openfile;
  template = template;
})
call_of bits error = error
call_of bits undefined = undefined

-- `system_maketemp` up to the call of libuv. `checkstack` says for how many values Lua has room.
unfoldable pub system_maketemp :
    (checkstack : ℕ → Bool) → (prefix mode array : List ℕ) → Outcome TempCall
system_maketemp checkstack prefix mode array =
    let (bits0, letters) = skip_noyield no_bits mode in
    if not (ltb (length prefix) (mktmp_templatesz - 6))
    then error
    else elim (add_mode bits0 letters) [
      | none ↦ error
      | some bits ↦
          if checkstack (length (c_string letters) + 5)
          then call_of bits (callmktmp prefix array)
          else error
    ]
