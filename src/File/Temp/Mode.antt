-- ===== src/File/Temp/Mode.antt =====
-- The mode of `system.maketemp` (src/lfilef.c).
use coutil.Prelude.{
  ℕ, ◌≡◌, ◌∙◌, ap, refl, Bool, true, false, ◌&&◌, ◌||◌, none, some, List, [], ◌∷◌, ◌==◌,
  if◌then◌else◌, arith, Bool-cases, inl, inr,
}
use coutil.Process.{c_string, ok}
use coutil.File.Temp.{
  TempMode, TempCall, no_bits, mktmp_noyield, mktmp_createfile, mktmp_openfile, bit_or, add_mode,
  skip_noyield, call_of,
}

-- The modes that are accepted: `~` in the begin only, and the letters `f` and `o`.
abbrev pub letters_only : List ℕ → Bool
letters_only [] = true
letters_only (c ∷ mode) = ((c == b'f') || (c == b'o')) && letters_only mode

abbrev pub without_prefix : List ℕ → List ℕ
without_prefix [] = []
without_prefix (c ∷ mode) = if c == b'~' then without_prefix mode else c ∷ mode

abbrev pub starts_with : ℕ → List ℕ → Bool
starts_with d [] = false
starts_with d (c ∷ mode) = c == d

abbrev pub not_empty : List ℕ → Bool
not_empty [] = false
not_empty (c ∷ mode) = true

-- The call for a mode without zeros.
abbrev pub asked : (mode template : List ℕ) → TempCall
asked mode template = record {
  noyield = starts_with b'~' mode;
  mode = not_empty (without_prefix mode);
  sched = not_empty (without_prefix mode);
  template = template;
}

-- The bits that the letters of a mode without zeros leave.
abbrev pub with_letters : TempMode → List ℕ → TempMode
with_letters bits [] = bits
with_letters bits (c ∷ mode) =
    with_letters (bit_or bits (if c == b'f' then mktmp_createfile else mktmp_openfile)) mode

pub add_mode_lem :
    (bits : TempMode) (mode : List ℕ)
    → add_mode bits mode
      ≡ (if letters_only (c_string mode) then some (with_letters bits (c_string mode)) else none)
unfolding add_mode
add_mode_lem bits [] = refl
add_mode_lem bits (c ∷ mode) = elim (Bool-cases (c == 0)) [
  | inl z ↦ rw (add_mode, c_string, z) refl
  | inr z ↦ elim (Bool-cases (c == b'f')) [
    | inl e ↦
        rw (add_mode, c_string, z, letters_only, with_letters, e)
          (add_mode_lem (bit_or bits mktmp_createfile) mode)
    | inr n ↦ elim (Bool-cases (c == b'o')) [
      | inl e ↦
          rw (add_mode, c_string, z, letters_only, with_letters, n, e)
            (add_mode_lem (bit_or bits mktmp_openfile) mode)
      | inr m ↦ rw (add_mode, c_string, z, letters_only, n, m) refl
    ]
  ]
]

-- A file is made exactly behind a letter, and both letters set the bit of that.
with_letters_lem :
    (bits : TempMode) (mode : List ℕ)
    → (bits.bit_1 || bits.bit_2) ≡ bits.bit_1
    → ((with_letters bits mode).bit_0 ≡ bits.bit_0)
      × ((with_letters bits mode).bit_1 ≡ (bits.bit_1 || not_empty mode))
      × (((with_letters bits mode).bit_1 || (with_letters bits mode).bit_2)
          ≡ (bits.bit_1 || not_empty mode))
with_letters_lem bits [] h = ground arith
with_letters_lem bits (c ∷ mode) h = elim (Bool-cases (c == b'f')) [
  | inl e ↦
      let rec = with_letters_lem (bit_or bits mktmp_createfile) mode (ground arith) in
      rw (with_letters, e) (ground (arith, rec))
  | inr n ↦
      let rec = with_letters_lem (bit_or bits mktmp_openfile) mode (ground arith) in
      rw (with_letters, n) (ground (arith, rec))
]

pub skip_noyield_lem :
    (bits : TempMode) (mode : List ℕ)
    → skip_noyield bits mode
      ≡ (if starts_with b'~' mode then mktmp_noyield else bits, without_prefix mode)
unfolding skip_noyield
skip_noyield_lem bits [] = refl
skip_noyield_lem bits (c ∷ mode) = elim (Bool-cases (c == b'~')) [
  | inl e ↦
      let same : (if starts_with b'~' mode then mktmp_noyield else mktmp_noyield) ≡ mktmp_noyield =
        elim (Bool-cases (starts_with b'~' mode)) [ inl s ↦ rw s refl | inr s ↦ rw s refl ] in
      rw (skip_noyield, without_prefix, e)
        (skip_noyield_lem mktmp_noyield mode ∙ ap (λ b. (b, without_prefix mode)) same)
  | inr n ↦ rw (skip_noyield, without_prefix, n) refl
]

pub without_prefix-c_string :
    (mode : List ℕ) → c_string (without_prefix mode) ≡ without_prefix (c_string mode)
without_prefix-c_string [] = refl
without_prefix-c_string (c ∷ mode) = elim (Bool-cases (c == b'~')) [
  | inl e ↦
      let shown : (c == 0) ≡ false = ground arith in
      rw (without_prefix, c_string, shown, without_prefix, e) (without_prefix-c_string mode)
  | inr n ↦ elim (Bool-cases (c == 0)) [
    | inl z ↦ rw (without_prefix, c_string, n, z) refl
    | inr z ↦ rw (without_prefix, c_string, n, z, n) refl
  ]
]

pub starts_with-c_string :
    (mode : List ℕ) → starts_with b'~' (c_string mode) ≡ starts_with b'~' mode
starts_with-c_string [] = refl
starts_with-c_string (c ∷ mode) = ground arith

pub call_of-asked :
    (mode letters template : List ℕ)
    → call_of
        (with_letters (if starts_with b'~' mode then mktmp_noyield else no_bits) letters)
        (ok template)
      ≡ ok (record {
        noyield = starts_with b'~' mode;
        mode = not_empty letters;
        sched = not_empty letters;
        template = template;
      })
call_of-asked mode letters template = elim (Bool-cases (starts_with b'~' mode)) [
  | inl s ↦ let rec = with_letters_lem mktmp_noyield letters refl in rw s (ground (arith, rec))
  | inr s ↦ let rec = with_letters_lem no_bits letters refl in rw s (ground (arith, rec))
]
