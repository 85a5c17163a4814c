-- ===== src/File/Temp/Template.antt =====
-- The template of `system.maketemp` (src/lfilef.c).
use coutil.Prelude.{
  append_assoc, ℕ, zero, suc, ◌+◌, ◌-◌, ◌≡◌, ◌≤◌, ◌<◌, ◌∙◌, sym, ap, refl, Bool, ◌&&◌, some, List,
  [], ◌∷◌, ◌++◌, ◌==◌, ==_iff, ltb, length, length-append, if◌then◌else◌, arith, Bool-cases, inl,
  inr,
}
use coutil.Process.{c_string, ok, error}
use coutil.File.Temp.{
  mktmp_templatesz, write_at, copy_prefix, copy_string, six_letters, callmktmp, no_bits,
  mktmp_noyield, system_maketemp,
}
use coutil.File.Temp.Mode.{
  letters_only, without_prefix, starts_with, asked, add_mode_lem, skip_noyield_lem,
  without_prefix-c_string, starts_with-c_string, call_of-asked,
}

write_at-behind :
    (pre : List ℕ) (c b : ℕ) (rest : List ℕ) (i : ℕ)
    → i ≡ length pre
    → write_at i c (pre ++ b ∷ rest) ≡ some (pre ++ c ∷ rest)
write_at-behind [] c b rest i e = rw e refl
write_at-behind (p ∷ pre) c b rest zero e = absurd (omega (arith, e))
write_at-behind (p ∷ pre) c b rest (suc i) e =
    rw (write_at-behind pre c b rest i (omega (arith, e))) refl

-- A copy behind `pre`, in an array that has room for it.
copy_prefix_lem :
    (pre : List ℕ) (s rest : List ℕ) (i : ℕ)
    → i ≡ length pre
    → length s < length rest
    → (left : List ℕ) × (length left + length (c_string s) + 1 ≡ length rest)
      × (copy_prefix i s (pre ++ rest)
          ≡ some (i + length (c_string s), pre ++ (c_string s ++ 0 ∷ left)))
unfolding copy_prefix
copy_prefix_lem pre s [] i e h = absurd (omega (arith, h))
copy_prefix_lem pre [] (b ∷ rest) i e h =
    let same : i + 0 ≡ i = omega arith in
    (rest, omega arith, rw (copy_prefix, write_at-behind pre 0 b rest i e, same) refl)
copy_prefix_lem pre (c ∷ s) (b ∷ rest) i e h =
    let put = write_at-behind pre c b rest i e in
    elim (Bool-cases (c == 0)) [
      | inl z ↦
          let zero_ : c ≡ 0 = (==_iff c 0).0 z in
          let same : i + 0 ≡ i = omega arith in
          rw (copy_prefix, c_string, put, z, same)
            (rest, omega arith, ap (λ d. some (i, pre ++ d ∷ rest)) zero_)
      | inr n ↦
          let (left, size, rec) =
            copy_prefix_lem (pre ++ c ∷ []) s rest (i + 1)
              (sym (length-append pre (c ∷ []) ∙ omega (arith, e))) (omega (arith, h)) in
          let rec' : copy_prefix (i + 1) s (pre ++ c ∷ rest)
              ≡ some (i + 1 + length (c_string s), pre ++ c ∷ (c_string s ++ 0 ∷ left)) =
            rw (append_assoc pre (c ∷ []) rest, append_assoc pre (c ∷ []) (c_string s ++ 0 ∷ left))
              at rec in
          let shift : i + suc (length (c_string s)) ≡ i + 1 + length (c_string s) = omega arith in
          rw (copy_prefix, c_string, put, n, shift, rec') (left, omega (arith, size), refl)
    ]

copy_string_lem :
    (pre : List ℕ) (s rest : List ℕ) (i : ℕ)
    → i ≡ length pre
    → length s < length rest
    → (left : List ℕ) × (copy_string i s (pre ++ rest) ≡ some (pre ++ (s ++ 0 ∷ left)))
unfolding copy_string
copy_string_lem pre s [] i e h = absurd (omega (arith, h))
copy_string_lem pre [] (b ∷ rest) i e h = (rest, write_at-behind pre 0 b rest i e)
copy_string_lem pre (c ∷ s) (b ∷ rest) i e h =
    let (left, rec) =
      copy_string_lem (pre ++ c ∷ []) s rest (i + 1)
        (sym (length-append pre (c ∷ []) ∙ omega (arith, e))) (omega (arith, h)) in
    let rec' : copy_string (i + 1) s (pre ++ c ∷ rest) ≡ some (pre ++ c ∷ (s ++ 0 ∷ left)) =
      rw (append_assoc pre (c ∷ []) rest, append_assoc pre (c ∷ []) (s ++ 0 ∷ left)) at rec in
    (left, rw (copy_string, write_at-behind pre c b rest i e) rec')

length-c_string : (s : List ℕ) → length (c_string s) ≤ length s
length-c_string [] = omega arith
length-c_string (c ∷ s) = ground (arith, length-c_string s)

-- A text behind one without zeros.
c_string-append : (s t : List ℕ) → c_string (c_string s ++ t) ≡ c_string s ++ c_string t
c_string-append [] t = refl
c_string-append (c ∷ s) t = elim (Bool-cases (c == 0)) [
  | inl z ↦ rw (c_string, z) refl
  | inr n ↦ rw (c_string, n, n) (ap (λ u. c ∷ u) (c_string-append s t))
]

-- What the template gets.
callmktmp_lem :
    (prefix array : List ℕ)
    → length array ≡ mktmp_templatesz
    → length prefix < mktmp_templatesz - 6
    → callmktmp prefix array ≡ ok (c_string prefix ++ six_letters)
unfolding callmktmp
callmktmp_lem prefix array size h =
    let (left, n, copied) = copy_prefix_lem [] prefix array 0 refl (omega (arith, size, h)) in
    let short = length-c_string prefix in
    let (left', added) =
      copy_string_lem (c_string prefix) six_letters (0 ∷ left) (length (c_string prefix)) refl
        (omega (arith, n, size, h, short)) in
    let at : 0 + length (c_string prefix) ≡ length (c_string prefix) = omega arith in
    rw (callmktmp, copied, at, added) (ap ok (c_string-append prefix (six_letters ++ 0 ∷ left')))

-- A prefix of fewer than 250 bytes, and a mode that up to its first zero has any `~` and then letters
-- `f` and `o`, for whose values Lua has room, are accepted, and nothing else; no byte is written
-- outside of the template, which holds the prefix up to its first zero and six letters; the call does
-- not yield exactly if the mode starts with `~`; and it makes a file, and is given the mode and the
-- scheduler, exactly if the mode has a letter, whichever it is, and else a directory.
pub system_maketemp-asked :
    (checkstack : ℕ → Bool) (prefix mode array : List ℕ)
    → length array ≡ mktmp_templatesz
    → system_maketemp checkstack prefix mode array ≡ (
        if ltb (length prefix) (mktmp_templatesz - 6)
          && letters_only (without_prefix (c_string mode))
          && checkstack (length (without_prefix (c_string mode)) + 5)
        then ok (asked (c_string mode) (c_string prefix ++ six_letters))
        else error)
unfolding system_maketemp
system_maketemp-asked checkstack prefix mode array size =
    let letters = without_prefix (c_string mode) in
    let bits = if starts_with b'~' mode then mktmp_noyield else no_bits in
    let skipped = skip_noyield_lem no_bits mode in
    let added = add_mode_lem bits (without_prefix mode) in
    let ended = without_prefix-c_string mode in
    elim (Bool-cases (ltb (length prefix) (mktmp_templatesz - 6))) [
      | inr l ↦ rw (system_maketemp, l) refl
      | inl l ↦
          let copied = callmktmp_lem prefix array size (ground (arith, l)) in
          elim (Bool-cases (letters_only letters)) [
            | inr o ↦ rw (system_maketemp, skipped, added, ended, l, o) refl
            | inl o ↦ elim (Bool-cases (checkstack (length letters + 5))) [
              | inr r ↦ rw (system_maketemp, skipped, added, ended, l, o, skipped, ended, r) refl
              | inl r ↦
                  rw
                    (
                      system_maketemp,
                      skipped,
                      added,
                      ended,
                      l,
                      o,
                      skipped,
                      ended,
                      r,
                      copied,
                      starts_with-c_string mode,
                    )
                    (call_of-asked mode letters (c_string prefix ++ six_letters))
            ]
          ]
    ]
