-- ===== src/File/Info/Values.antt =====
-- What `system.fileinfo` returns (src/lfilef.c).
use mathlib.Core.Path.{subst}
use coutil.Prelude.{
  ℕ, zero, suc, ◌/◌, ◌≡◌, ◌<◌, ◌≤◌, ◌∙◌, sym, ap, refl, Bool, true, false, ◌&&◌, ◌||◌, not, Option,
  none, some, List, ◌==◌, ltb, length, if◌then◌else◌, arith, Option-cases, Bool-cases, inl, inr,
  ==_iff, map,
}
use coutil.File.{Value, nil, Statbuf, pushfilestat}
use coutil.File.Info.{
  sets, info_lstat, info_srcmask, Answers, statfs_value, source_value, pushfileinfo, fileinfo_loop,
}
use coutil.File.Info.Places.{
  get_elem?, pushfileinfo_pushed, pushfileinfo_kept, length-pushfileinfo, map_of_places,
}
use coutil.File.Info.Sources.{
  is_source, by_source, missing, Choice, Choice-kept, nextsource-Choice, nothing_missing, source_of,
  is_some, source_value-source_of,
}

abbrev pub or_nil : Option Value → Value
or_nil none = nil
or_nil (some v) = v

pushfilestat-lt :
    (tn : ℕ → List ℕ) (stat : Statbuf) (c : ℕ) (v : Value)
    → pushfilestat tn stat c ≡ some v
    → ltb c 256 ≡ true
unfolding pushfilestat
pushfilestat-lt tn stat c v h = ground arith

statfs_value-lt : (uv : Answers) (c : ℕ) (v : Value) → statfs_value uv c ≡ some v → ltb c 256 ≡ true
unfolding statfs_value
statfs_value-lt uv c v h = ground arith

source_value-lt :
    (uv : Answers) (lstat : Bool) (s c : ℕ) (v : Value)
    → source_value uv lstat s c ≡ some v
    → ltb c 256 ≡ true
unfolding source_value
source_value-lt uv lstat s c v h =
    ground (arith, pushfilestat-lt uv.type_name (uv.stat lstat) c v, statfs_value-lt uv c v)

abbrev pub is_letter : ℕ → Bool
is_letter c = ltb c 256 && is_source (source_of c)

module _ (uv : Answers) where
  -- The value of a letter, from its own source.
  abbrev pub letter_value : Bool → ℕ → Value
  letter_value lstat c = or_nil (source_value uv lstat (source_of c) c)

  -- A source that the flags ask for fails.
  abbrev pub any_fails : ℕ → Bool
  any_fails b =
      let lstat = sets b info_lstat in
      (sets b 1 && uv.fails 1 lstat)
      || (sets b 2 && uv.fails 2 lstat)
      || (sets b 4 && uv.fails 4 lstat)
      || (sets b 8 && uv.fails 8 lstat)

  -- The places of the letters whose source is missing no more have their values.
  abbrev pub Placed : ℕ → List ℕ → List Value → Type 0
  Placed b mode r =
      (k c : ℕ)
      → get_elem? mode k ≡ some c
      → sets b (source_of c) ≡ false
      → get_elem? r k ≡ some (letter_value (sets b info_lstat) c)

  pushes_own :
      (lstat : Bool) (s : ℕ)
      → is_source s ≡ true
      → (c : ℕ) (v : Value) → source_value uv lstat s c ≡ some v
      → letter_value lstat c ≡ v
  pushes_own lstat s h c v e =
      let lt : c < 256 = ground (arith, source_value-lt uv lstat s c v e) in
      let one : is_some (source_value uv lstat s c) ≡ (source_of c == s) =
        source_value-source_of uv lstat c s lt h in
      let one' : true ≡ (source_of c == s) = sym (ap is_some e) ∙ one in
      let own : source_of c ≡ s = (==_iff (source_of c) s).0 (sym one') in
      ap (λ t. or_nil (source_value uv lstat t c)) own ∙ ap or_nil e

  -- One round: the values of the source that is called are placed, and those before stay.
  round-Placed :
      (b b' : ℕ) (mode : List ℕ) (r : List Value)
      → Choice b b'
      → ((k c : ℕ) → get_elem? mode k ≡ some c → is_letter c ≡ true)
      → Placed b mode r
      → Placed b' mode (pushfileinfo (source_value uv (sets b' info_lstat) (b' / 64)) 0 mode r)
  round-Placed b b' mode r ch letters placed k c g gone =
      let s = b' / 64 in
      let lstat = sets b' info_lstat in
      let push = source_value uv lstat s in
      let val = letter_value lstat in
      let own = pushes_own lstat s ch.source in
      elim (Bool-cases (source_of c == s)) [
        | inl e ↦
            let lt : c < 256 = ground (arith, letters k c g) in
            let some_ : is_some (push c) ≡ true =
              source_value-source_of uv lstat c s lt ch.source ∙ e in
            elim (Option-cases (push c)) [
              | inl n ↦ let f : false ≡ true = sym (ap is_some n) ∙ some_ in cc
              | inr (v, p) ↦
                  ap (λ i. get_elem? (pushfileinfo push 0 mode r) i) (omega arith)
                  ∙ pushfileinfo_pushed push val own 0 mode r k c v g p
                  ∙ ap some (sym (own c v p))
            ]
        | inr e ↦
            let before : sets b (source_of c) ≡ false =
              let is : is_source (source_of c) ≡ true = ground (arith, letters k c g) in
              sym (Choice-kept b b' (source_of c) ch is e) ∙ gone in
            let was : get_elem? r k ≡ some (val c) =
              subst (λ o. get_elem? r k ≡ some (letter_value o c)) (sym ch.option)
                (placed k c g before) in
            pushfileinfo_kept push val own mode r k c g was
      ]

  source-cases :
      (s : ℕ) (fails : ℕ → Bool) (asked : ℕ → Bool)
      → is_source s ≡ true
      → asked s ≡ true
      → ((asked 1 && fails 1)
          || (asked 2 && fails 2)
          || (asked 4 && fails 4)
          || (asked 8 && fails 8))
        ≡ (fails s
            || (((asked 1 && not (1 == s)) && fails 1)
                || ((asked 2 && not (2 == s)) && fails 2)
                || ((asked 4 && not (4 == s)) && fails 4)
                || ((asked 8 && not (8 == s)) && fails 8)))
  source-cases s fails asked h =
      by_source
        (λ k.
          asked k ≡ true
          → ((asked 1 && fails 1)
              || (asked 2 && fails 2)
              || (asked 4 && fails 4)
              || (asked 8 && fails 8))
            ≡ (fails k
                || (((asked 1 && not (1 == k)) && fails 1)
                    || ((asked 2 && not (2 == k)) && fails 2)
                    || ((asked 4 && not (4 == k)) && fails 4)
                    || ((asked 8 && not (8 == k)) && fails 8))))
        (λ a. ground (arith, a)) (λ a. ground (arith, a)) (λ a. ground (arith, a))
        (λ a. ground (arith, a)) s h

  -- The failures of the sources that are asked for behind a round whose source does not fail.
  any_fails-Choice :
      (b b' : ℕ)
      → Choice b b'
      → any_fails b ≡ (uv.fails (b' / 64) (sets b' info_lstat) || any_fails b')
  any_fails-Choice b b' ch =
      let lstat = sets b info_lstat in
      rw (any_fails, ch.option, ch.readlink, ch.realpath, ch.statfs, ch.stat)
        (source-cases (b' / 64) (λ s. uv.fails s lstat) (λ s. sets b s) ch.source ch.asked)

  none_missing : (b t : ℕ) → missing b ≡ 0 → is_source t ≡ true → sets b t ≡ false
  none_missing b t z h =
      by_source (λ k. sets b k ≡ false) (ground (arith, z)) (ground (arith, z)) (ground (arith, z))
        (ground (arith, z)) t h

  none_fails : (b : ℕ) → missing b ≡ 0 → any_fails b ≡ false
  none_fails b z =
      rw
        (
          none_missing b 1 z refl,
          none_missing b 2 z refl,
          none_missing b 4 z refl,
          none_missing b 8 z refl,
        )
        refl

  -- Enough fuel: the values of all letters, each at its place, or an error if one of the sources that
  -- are asked for fails.
  pub fileinfo_loop_lem :
      (fuel b : ℕ) (mode : List ℕ) (r : List Value)
      → b < 1024
      → missing b < fuel
      → length r ≤ length mode
      → ((k c : ℕ) → get_elem? mode k ≡ some c → is_letter c ≡ true)
      → Placed b mode r
      → fileinfo_loop uv fuel b mode r
        ≡ some (if any_fails b then none else some (map (letter_value (sets b info_lstat)) mode))
  unfolding fileinfo_loop
  fileinfo_loop_lem zero b mode r lt m n letters placed = absurd (omega arith)
  fileinfo_loop_lem (suc fuel) b mode r lt m n letters placed =
      elim (Bool-cases (sets b info_srcmask)) [
        | inr none_ ↦
            let z : missing b ≡ 0 = nothing_missing b lt none_ in
            let all : r ≡ map (letter_value (sets b info_lstat)) mode =
              map_of_places (letter_value (sets b info_lstat)) mode r n (λ k c g.
                placed k c g (none_missing b (source_of c) z (ground (arith, letters k c g)))) in
            rw (none_, none_fails b z, sym all) refl
        | inl some_ ↦
            let (b', e, ch) = nextsource-Choice b lt some_ in
            let lstat = sets b' info_lstat in
            let s = b' / 64 in
            elim (Bool-cases (uv.fails s lstat)) [
              | inl f ↦ rw (some_, e, any_fails-Choice b b' ch, f) refl
              | inr f ↦
                  let push = source_value uv lstat s in
                  let val = letter_value lstat in
                  let own = pushes_own lstat s ch.source in
                  let rec =
                    fileinfo_loop_lem fuel b' mode (pushfileinfo push 0 mode r) ch.bound
                      (omega (arith, ch.fewer))
                      (length-pushfileinfo push val own 0 mode r (length mode) n (omega arith))
                      letters (round-Placed b b' mode r ch letters placed) in
                  rw (some_, e, f, any_fails-Choice b b' ch, f, sym ch.option) rec
            ]
      ]
