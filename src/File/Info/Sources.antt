-- ===== src/File/Info/Sources.antt =====
-- The sources that `missinfosrc` and `getinfosrc` of src/lfilef.c choose, for all flags, and the
-- letters that each source pushes.
use mathlib.Core.Path.{subst}
use coutil.Prelude.{
  ℕ, ◌+◌, ◌/◌, ◌≡◌, ◌<◌, ◌∙◌, sym, refl, Bool, true, false, ◌&&◌, ◌||◌, not, Option, none, some,
  List, [], ◌∷◌, ◌==◌, ltb, if◌then◌else◌, arith, Option-cases, Bool-cases, inl, inr, ==_iff,
}
use coutil.Prelude.Bits.{all_below, all_below_sound}
use coutil.File.{pushfilestat}
use coutil.File.Info.{sets, toinfosrc, nextsource, missinfosrc, Answers, source_value, statfs_value}

abbrev pub is_source : ℕ → Bool
is_source s = (s == 1) || (s == 2) || (s == 4) || (s == 8)

abbrev pub one_if : Bool → ℕ
one_if true = 1
one_if false = 0

-- What holds for each source holds for a number that is one.
pub by_source : (P : ℕ → Type 0) → P 1 → P 2 → P 4 → P 8 → (s : ℕ) → is_source s ≡ true → P s
by_source P p1 p2 p4 p8 s h = elim (Bool-cases (s == 1)) [
  | inl e ↦ subst P (sym ((==_iff s 1).0 e)) p1
  | inr n1 ↦ elim (Bool-cases (s == 2)) [
    | inl e ↦ subst P (sym ((==_iff s 2).0 e)) p2
    | inr n2 ↦ elim (Bool-cases (s == 4)) [
      | inl e ↦ subst P (sym ((==_iff s 4).0 e)) p4
      | inr n4 ↦ let e : 8 ≡ s = ground arith in subst P e p8
    ]
  ]
]

-- How many sources are missing.
abbrev pub missing : ℕ → ℕ
missing b = one_if (sets b 1) + one_if (sets b 2) + one_if (sets b 4) + one_if (sets b 8)

abbrev same : Bool → Bool → Bool
same a b = if a then b else not b

abbrev pub all_true : List Bool → Bool
all_true [] = true
all_true (b ∷ bs) = b && all_true bs

abbrev pub Each : List Bool → Type 0
Each [] = Unit
Each (b ∷ bs) = (b ≡ true) × Each bs

pub all_true-Each : (bs : List Bool) → all_true bs ≡ true → Each bs
all_true-Each [] h = tt
all_true-Each (true ∷ bs) h = (refl, all_true-Each bs h)
all_true-Each (false ∷ bs) h = cc

-- The flags behind the choice of a source: that one is missing no more, the others and the option
-- stay.
abbrev chosen_tests : ℕ → ℕ → List Bool
chosen_tests b b' =
    let s = b' / 64 in
    ltb b' 1024
    ∷ is_source s
    ∷ sets b s
    ∷ ltb (missing b') (missing b)
    ∷ same (sets b' 16) (sets b 16)
    ∷ same (sets b' 1) (sets b 1 && not (1 == s))
    ∷ same (sets b' 2) (sets b 2 && not (2 == s))
    ∷ same (sets b' 4) (sets b 4 && not (4 == s))
    ∷ same (sets b' 8) (sets b 8 && not (8 == s))
    ∷ []

abbrev chosen : ℕ → ℕ → Bool
chosen b b' = all_true (chosen_tests b b')

abbrev chooses : ℕ → Bool
chooses b =
    if sets b 15
    then elim (nextsource b) [ none ↦ false | some b' ↦ chosen b b' ]
    else not (sets b 1 || sets b 2 || sets b 4 || sets b 8)

choices : all_below 1024 chooses ≡ true
unfolding all_below nextsource missinfosrc
choices = refl

pub record Choice (b b' : ℕ) : Type 0 where
  pub bound : b' < 1024
  pub source : is_source (b' / 64) ≡ true
  pub asked : sets b (b' / 64) ≡ true
  pub fewer : missing b' < missing b
  pub option : sets b' 16 ≡ sets b 16
  pub readlink : sets b' 1 ≡ (sets b 1 && not (1 == b' / 64))
  pub realpath : sets b' 2 ≡ (sets b 2 && not (2 == b' / 64))
  pub statfs : sets b' 4 ≡ (sets b 4 && not (4 == b' / 64))
  pub stat : sets b' 8 ≡ (sets b 8 && not (8 == b' / 64))

same-eq : (a b : Bool) → same a b ≡ true → a ≡ b
same-eq true b h = ground arith
same-eq false b h = ground arith

chosen-Choice : (b b' : ℕ) → chosen b b' ≡ true → Choice b b'
chosen-Choice b b' f =
    let s = b' / 64 in
    let t = all_true-Each (chosen_tests b b') f in
    let u = t.1.1.1.1 in
    record {
      bound = ground (arith, t.0);
      source = t.1.0;
      asked = t.1.1.0;
      fewer = ground (arith, t.1.1.1.0);
      option = same-eq (sets b' 16) (sets b 16) u.0;
      readlink = same-eq (sets b' 1) (sets b 1 && not (1 == s)) u.1.0;
      realpath = same-eq (sets b' 2) (sets b 2 && not (2 == s)) u.1.1.0;
      statfs = same-eq (sets b' 4) (sets b 4 && not (4 == s)) u.1.1.1.0;
      stat = same-eq (sets b' 8) (sets b 8 && not (8 == s)) u.1.1.1.1.0;
    }

pub nextsource-Choice :
    (b : ℕ) → b < 1024 → sets b 15 ≡ true → (b' : ℕ) × (nextsource b ≡ some b') × Choice b b'
nextsource-Choice b lt h =
    let row = all_below_sound 1024 chooses b choices lt in
    elim (Option-cases (nextsource b)) [
      | inl e ↦ let f : false ≡ true = rw (chooses, h, e) at row in cc
      | inr (b', e) ↦
          let f : chosen b b' ≡ true = rw (chooses, h, e) at row in (b', e, chosen-Choice b b' f)
    ]

kept-at :
    (b b' t u : ℕ)
    → sets b' u ≡ (sets b u && not (u == b' / 64))
    → (t == b' / 64) ≡ false
    → (t == u) ≡ true
    → sets b' t ≡ sets b t
kept-at b b' t u kept h e =
    let at : t ≡ u = (==_iff t u).0 e in
    let other : (u == b' / 64) ≡ false = rw at at h in rw at (kept ∙ ground arith)

pub Choice-kept :
    (b b' t : ℕ) → Choice b b' → is_source t ≡ true → (t == b' / 64) ≡ false → sets b' t ≡ sets b t
Choice-kept b b' t c h n = elim (Bool-cases (t == 1)) [
  | inl e ↦ kept-at b b' t 1 c.readlink n e
  | inr n1 ↦ elim (Bool-cases (t == 2)) [
    | inl e ↦ kept-at b b' t 2 c.realpath n e
    | inr n2 ↦ elim (Bool-cases (t == 4)) [
      | inl e ↦ kept-at b b' t 4 c.statfs n e
      | inr n4 ↦ kept-at b b' t 8 c.stat n (ground arith)
    ]
  ]
]

pub nothing_missing : (b : ℕ) → b < 1024 → sets b 15 ≡ false → missing b ≡ 0
nothing_missing b lt h =
    let row = all_below_sound 1024 chooses b choices lt in
    let f : not (sets b 1 || sets b 2 || sets b 4 || sets b 8) ≡ true = rw (chooses, h) at row in
    ground arith

-- The source of a letter.
abbrev pub source_of : ℕ → ℕ
source_of c = elim (toinfosrc c 31) [ none ↦ 0 | some s ↦ s ]

abbrev pub is_some {ℓ} : {A : Type ℓ} → Option A → Bool
is_some none = false
is_some (some _) = true

module _ (uv : Answers) (lstat : Bool) where
  -- A letter is pushed from its own source and from no other.
  abbrev pushed_from : ℕ → ℕ → Bool
  pushed_from s c = same (is_some (source_value uv lstat s c)) (source_of c == s)

  abbrev pushed_tests : ℕ → List Bool
  pushed_tests c = pushed_from 1 c ∷ pushed_from 2 c ∷ pushed_from 4 c ∷ pushed_from 8 c ∷ []

  abbrev pushed_once : ℕ → Bool
  pushed_once c = all_true (pushed_tests c)

  letters : all_below 256 pushed_once ≡ true
  unfolding all_below source_value statfs_value pushfilestat toinfosrc
  letters = refl

  pushed-from : (c s : ℕ) → is_source s ≡ true → Each (pushed_tests c) → pushed_from s c ≡ true
  pushed-from c s h t = by_source (λ k. pushed_from k c ≡ true) t.0 t.1.0 t.1.1.0 t.1.1.1.0 s h

  pub source_value-source_of :
      (c s : ℕ)
      → c < 256
      → is_source s ≡ true
      → is_some (source_value uv lstat s c) ≡ (source_of c == s)
  source_value-source_of c s lt h =
      same-eq (is_some (source_value uv lstat s c)) (source_of c == s) (
        pushed-from c s h
          (all_true-Each (pushed_tests c) (all_below_sound 256 pushed_once c letters lt)))
