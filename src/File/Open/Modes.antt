-- ===== src/File/Open/Modes.antt =====
-- What the letters of the mode of `system.openfile` ask for (src/lfilef.c).
use mathlib.Core.Path.{subst}
use coutil.Prelude.{
  ℕ, ◌≡◌, ◌∙◌, sym, ap, refl, Bool, true, false, ◌&&◌, ◌||◌, Option, none, some, List, [], ◌∷◌,
  ◌==◌, ==_iff, has, if◌then◌else◌, arith, Bool-cases, inl, inr,
}
use coutil.File.Open.{
  OpenMode, no_mode, open_letter, open_letters, Access, access, openfile_mode, letters_of,
  with_perm,
}

abbrev pub is_letter : ℕ → Bool
is_letter c = has c (b'r' ∷ b'w' ∷ b'a' ∷ b'f' ∷ b't' ∷ b'n' ∷ b'N' ∷ b'x' ∷ b'~' ∷ [])

abbrev pub are_letters : List ℕ → Bool
are_letters [] = true
are_letters (c ∷ cs) = is_letter c && are_letters cs

-- The letters of a mode over those that were read before.
abbrev over : OpenMode → List ℕ → OpenMode
over m s = record {
  reads = has b'r' s || m.reads;
  writes = (has b'w' s || (has b'a' s || (has b'f' s || has b't' s))) || m.writes;
  append = has b'a' s || m.append;
  sync = has b'f' s || m.sync;
  trunc = has b't' s || m.trunc;
  creat = (has b'n' s || has b'N' s) || m.creat;
  excl = has b'N' s || m.excl;
  cloexec = has b'x' s || m.cloexec;
  noyield = has b'~' s || m.noyield;
}

abbrev letters : List ℕ
letters = b'r' ∷ b'w' ∷ b'a' ∷ b'f' ∷ b't' ∷ b'n' ∷ b'N' ∷ b'x' ∷ b'~' ∷ []

abbrev AtEach : (ℕ → Type 0) → List ℕ → Type 0
AtEach P [] = Unit
AtEach P (l ∷ ls) = P l × AtEach P ls

-- What holds at each letter of a list and at all numbers outside of it holds everywhere.
by_letter : (P : ℕ → Type 0) (ls : List ℕ) (c : ℕ) → AtEach P ls → (has c ls ≡ false → P c) → P c
by_letter P [] c at_ outside = outside refl
by_letter P (l ∷ ls) c at_ outside = elim (Bool-cases (c == l)) [
  | inl e ↦ subst P (sym ((==_iff c l).0 e)) at_.0
  | inr e ↦ by_letter P ls c at_.1 (λ h. outside (rw e h))
]

Reads : OpenMode → ℕ → Type 0
Reads m c = open_letter c m ≡ (if is_letter c then some (over m (c ∷ [])) else none)

no_letter : (c : ℕ) (m : OpenMode) → is_letter c ≡ false → open_letter c m ≡ none
unfolding open_letter
no_letter c m h = ground arith

open_letter_lem : (c : ℕ) (m : OpenMode) → Reads m c
unfolding Reads open_letter
open_letter_lem c m =
    by_letter (Reads m) letters c
      (refl, (refl, (refl, (refl, (refl, (refl, (refl, (refl, (refl, tt)))))))))
      (λ h. simp (no_letter c m h, h) refl)

over-over : (m : OpenMode) (c : ℕ) (cs : List ℕ) → over (over m (c ∷ [])) cs ≡ over m (c ∷ cs)
over-over m c cs =
    let l = over (over m (c ∷ [])) cs in
    let r = over m (c ∷ cs) in
    let reads_ : l.reads ≡ r.reads = ground arith in
    let writes_ : l.writes ≡ r.writes = ground arith in
    let append_ : l.append ≡ r.append = ground arith in
    let sync_ : l.sync ≡ r.sync = ground arith in
    let trunc_ : l.trunc ≡ r.trunc = ground arith in
    let creat_ : l.creat ≡ r.creat = ground arith in
    let excl_ : l.excl ≡ r.excl = ground arith in
    let cloexec_ : l.cloexec ≡ r.cloexec = ground arith in
    let noyield_ : l.noyield ≡ r.noyield = ground arith in
    λ i. record {
      reads = reads_ i;
      writes = writes_ i;
      append = append_ i;
      sync = sync_ i;
      trunc = trunc_ i;
      creat = creat_ i;
      excl = excl_ i;
      cloexec = cloexec_ i;
      noyield = noyield_ i;
    }

open_letters_lem :
    (s : List ℕ) (m : OpenMode)
    → open_letters s m ≡ (if are_letters s then some (over m s) else none)
unfolding open_letters Reads
open_letters_lem [] m = refl
open_letters_lem (c ∷ cs) m = elim (Bool-cases (is_letter c)) [
  | inr n ↦ simp (open_letters, open_letter_lem c m, n) refl
  | inl y ↦
      simp (open_letters, open_letter_lem c m, y)
        (open_letters_lem cs (over m (c ∷ []))
          ∙ ap (λ o. if are_letters cs then some o else none) (over-over m c cs))
]

-- What a mode asks for.
abbrev pub wants : List ℕ → OpenMode
wants s = record {
  reads = has b'r' s;
  writes = has b'w' s || (has b'a' s || (has b'f' s || has b't' s));
  append = has b'a' s;
  sync = has b'f' s;
  trunc = has b't' s;
  creat = has b'n' s || has b'N' s;
  excl = has b'N' s;
  cloexec = has b'x' s;
  noyield = has b'~' s;
}

over-no_mode : (s : List ℕ) → over no_mode s ≡ wants s
over-no_mode s =
    let unit : (b : Bool) → (b || false) ≡ b = λ b. ground arith in
    let writes_ = unit (wants s).writes in
    let creat_ = unit (wants s).creat in
    λ i. record {
      reads = unit (has b'r' s) i;
      writes = writes_ i;
      append = unit (has b'a' s) i;
      sync = unit (has b'f' s) i;
      trunc = unit (has b't' s) i;
      creat = creat_ i;
      excl = unit (has b'N' s) i;
      cloexec = unit (has b'x' s) i;
      noyield = unit (has b'~' s) i;
    }

abbrev pub with_access : OpenMode → Option ℕ → Option (OpenMode × Option Access × ℕ)
with_access m none = none
with_access m (some perm) = some (m, access m, perm)

abbrev pub asked : OpenMode → Option ℕ → Option (OpenMode × Option Access × ℕ)
asked m checkperm = with_access m (if m.creat then checkperm else some 0)

with_perm-asked :
    (m : OpenMode) (checkperm : Option ℕ) → with_perm (some m) checkperm ≡ asked m checkperm
unfolding with_perm
with_perm-asked m none = ground arith
with_perm-asked m (some perm) = ground arith

-- A mode of the letters `rwaftnNx~` is accepted, whatever their order and number, and no other; one
-- that is missing is `r`. The file is opened for reading with an `r`, for writing with one of `waft`,
-- and appended to, synchronised, truncated, created, created anew or closed in child processes exactly
-- if the mode has its letter; and the permissions are those of the argument if the file may be
-- created, which fails with it, and else 0.
openfile_mode-asked :
    (mode : Option (List ℕ)) (checkperm : Option ℕ)
    → openfile_mode mode checkperm
      ≡ (if are_letters (letters_of mode) then asked (wants (letters_of mode)) checkperm else none)
unfolding openfile_mode with_perm
openfile_mode-asked mode checkperm =
    let s = letters_of mode in
    let read : open_letters s no_mode ≡ (if are_letters s then some (wants s) else none) =
      open_letters_lem s no_mode
      ∙ ap (λ m. if are_letters s then some m else none) (over-no_mode s) in
    ap (λ m. with_perm m checkperm) read ∙ elim (Bool-cases (are_letters s)) [
      | inl y ↦ simp y (with_perm-asked (wants s) checkperm)
      | inr n ↦ simp n refl
    ]
