-- ===== src/File/Info/Results.antt =====
-- The results of `system_fileinfo` of src/lfilef.c for every mode.
use coutil.Prelude.{
  ℕ, Bool, ◌≡◌, ◌≤◌, ◌∙◌, sym, ap, refl, true, false, Option, none, some, List, [], if◌then◌else◌,
  arith, Option-cases, inl, inr, map, are_bytes,
}
use coutil.File.{Value}
use coutil.File.Info.{sets, info_lstat, Answers, checkinfomode, system_fileinfo}
use coutil.File.Info.Values.{letter_value, any_fails, fileinfo_loop_lem}
use coutil.File.Info.Modes.{checkinfomode_lem}

-- What a mode stands for: an error of the mode, an error of a source that it asks for, or for each
-- letter the value that its own source has for it.
abbrev pub fileinfo :
    (checkstack : ℕ → Bool) → Answers → List ℕ → Option (Option (Option (List Value)))
fileinfo checkstack uv mode = elim (checkinfomode checkstack 2 31 mode) [
  | none ↦ none
  | some (b, rest) ↦ some (
      some (if any_fails uv b then none else some (map (letter_value uv (sets b info_lstat)) rest)))
]

-- For every mode of bytes, run to its end as one with `~` is, four rounds at most are enough (a fuel
-- of 5), and `system_fileinfo` returns the values of the letters, each in the place of its letter,
-- though the values come source by source; it is an error exactly if the mode is refused, also
-- where Lua has no room for its values, or a source that a letter asks for fails.
pub system_fileinfo-fileinfo :
    (checkstack : ℕ → Bool) (uv : Answers) (fuel : ℕ) (mode : List ℕ)
    → 5 ≤ fuel
    → are_bytes mode ≡ true
    → system_fileinfo checkstack uv fuel mode ≡ fileinfo checkstack uv mode
unfolding system_fileinfo
system_fileinfo-fileinfo checkstack uv fuel mode h bytes =
    elim (Option-cases (checkinfomode checkstack 2 31 mode)) [
      | inl e ↦ rw (system_fileinfo, fileinfo, e) refl
      | inr ((b, rest), e) ↦
          let (lt, letters) = checkinfomode_lem checkstack mode b rest bytes e in
          rw (system_fileinfo, fileinfo, e)
            (ap some (
              fileinfo_loop_lem uv fuel b rest [] (omega arith) (ground arith) (omega arith)
                (λ k c g. (letters k c g).0)
                (λ k c g gone. let f : true ≡ false = sym (letters k c g).1 ∙ gone in cc)))
    ]
