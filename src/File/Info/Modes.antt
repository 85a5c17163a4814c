-- ===== src/File/Info/Modes.antt =====
-- What `checkinfomode` of src/lfilef.c accepts: flags with the source of every letter of the mode.
use Prim.Native.Nat.{bit_or}
use coutil.Process.{c_string}
use coutil.Prelude.{
  length, ◌+◌, ℕ, zero, suc, ◌≡◌, ◌<◌, sym, refl, Bool, true, ◌&&◌, ◌||◌, none, some, List, [], ◌∷◌,
  ◌==◌, ltb, if◌then◌else◌, arith, Option-cases, Bool-cases, inl, inr, are_bytes,
}
use coutil.Prelude.Bits.{all_below, all_below_sound}
use coutil.File.Info.{sets, toinfosrc, addsources, checkprefixflags, checkinfomode}
use coutil.File.Info.Places.{get_elem?}
use coutil.File.Info.Sources.{is_source, by_source, source_of, all_true, all_true-Each}
use coutil.File.Info.Values.{is_letter}

-- A letter that the mask lets pass has a source.
abbrev passes : ℕ → Bool
passes c = elim (toinfosrc c 31) [
  | none ↦ true
  | some sel ↦ if sets 31 sel then is_source sel else true
]

letters_pass : all_below 256 passes ≡ true
unfolding all_below toinfosrc
letters_pass = refl

passing : (c s : ℕ) → c < 256 → toinfosrc c 31 ≡ some s → sets 31 s ≡ true → is_source s ≡ true
passing c s lt e h = rw (passes, e, h) at (all_below_sound 256 passes c letters_pass lt)

abbrev kept : ℕ → ℕ → ℕ → Bool
kept b b' t = if sets b t then sets b' t else true

-- A source is added to the flags, and the others stay.
abbrev added_tests : ℕ → ℕ → List Bool
added_tests s b =
    let b' = bit_or b s in
    ltb b' 64 ∷ sets b' s ∷ kept b b' 1 ∷ kept b b' 2 ∷ kept b b' 4 ∷ kept b b' 8 ∷ []

abbrev added : ℕ → ℕ → Bool
added s b = all_true (added_tests s b)

abbrev added_all : ℕ → Bool
added_all b = all_true (added 1 b ∷ added 2 b ∷ added 4 b ∷ added 8 b ∷ [])

additions : all_below 64 added_all ≡ true
unfolding all_below
additions = refl

adds : (b s : ℕ) → b < 64 → is_source s ≡ true → added s b ≡ true
adds b s lt h =
    let t =
      all_true-Each (added 1 b ∷ added 2 b ∷ added 4 b ∷ added 8 b ∷ [])
        (all_below_sound 64 added_all b additions lt) in
    by_source (λ k. added k b ≡ true) t.0 t.1.0 t.1.1.0 t.1.1.1.0 s h

-- The sources of the flags `b` are in `b'`.
abbrev Within : ℕ → ℕ → Type 0
Within b b' =
    (kept b b' 1 ≡ true) × (kept b b' 2 ≡ true) × (kept b b' 4 ≡ true) × (kept b b' 8 ≡ true)

adding :
    (b s : ℕ)
    → b < 64
    → is_source s ≡ true
    → (bit_or b s < 64) × (sets (bit_or b s) s ≡ true) × Within b (bit_or b s)
adding b s lt h =
    let t = all_true-Each (added_tests s b) (adds b s lt h) in
    let u = t.1.1 in (ground (arith, t.0), t.1.0, (u.0, u.1.0, u.1.1.0, u.1.1.1.0))

Within-trans : (a b c : ℕ) → Within a b → Within b c → Within a c
Within-trans a b c p q = (
  ground (arith, p.0, q.0),
  ground (arith, p.1, q.1),
  ground (arith, p.2, q.2),
  ground (arith, p.3, q.3),
)

Within-refl : (b : ℕ) → Within b b
Within-refl b = (ground arith, ground arith, ground arith, ground arith)

Within-sets : (b b' t : ℕ) → Within b b' → is_source t ≡ true → sets b t ≡ true → sets b' t ≡ true
Within-sets b b' t w h =
    by_source (λ k. sets b k ≡ true → sets b' k ≡ true) (λ k. ground (arith, k, w.0))
      (λ k. ground (arith, k, w.1)) (λ k. ground (arith, k, w.2)) (λ k. ground (arith, k, w.3)) t h

first_letter :
    (c : ℕ) (mode : List ℕ) (b' : ℕ)
    → is_letter c ≡ true
    → sets b' (source_of c) ≡ true
    → ((k d : ℕ)
        → get_elem? mode k ≡ some d
        → (is_letter d ≡ true) × (sets b' (source_of d) ≡ true))
    → (k d : ℕ) → get_elem? (c ∷ mode) k ≡ some d
    → (is_letter d ≡ true) × (sets b' (source_of d) ≡ true)
first_letter c mode b' h s letters zero d g = let e : c ≡ d = cc in rw (sym e) (h, s)
first_letter c mode b' h s letters (suc k) d g = letters k d g

-- The flags of a mode that is accepted have the source of every letter.
addsources_lem :
    (b : ℕ) (mode : List ℕ) (b' : ℕ)
    → b < 64
    → are_bytes mode ≡ true
    → addsources 31 b mode ≡ some b'
    → (b' < 64)
      × Within b b'
      × ((k c : ℕ)
          → get_elem? mode k ≡ some c
          → (is_letter c ≡ true) × (sets b' (source_of c) ≡ true))
unfolding addsources
addsources_lem b [] b' lt bytes e =
    let same : b ≡ b' = cc in rw (sym same) (lt, Within-refl b, λ k c g. cc)
addsources_lem b (c ∷ mode) b' lt bytes e = elim (Option-cases (toinfosrc c 31)) [
  | inl n ↦ let f : none ≡ some b' = rw (addsources, n) at e in cc
  | inr (s, g) ↦ elim (Bool-cases (sets 31 s)) [
    | inr lacks ↦ let f : none ≡ some b' = rw (addsources, g, lacks) at e in cc
    | inl has_it ↦
        let c_lt : c < 256 = ground arith in
        let is : is_source s ≡ true = passing c s c_lt g has_it in
        let (lt', has_s, w) = adding b s lt is in
        let rest : addsources 31 (bit_or b s) mode ≡ some b' = rw (addsources, g, has_it) at e in
        let (b'_lt, w', letters) = addsources_lem (bit_or b s) mode b' lt' (ground arith) rest in
        let own : source_of c ≡ s = rw (source_of, g) refl in
        (
          b'_lt,
          Within-trans b (bit_or b s) b' w w',
          first_letter c mode b' (rw own (ground (arith, is)))
              (rw own (Within-sets (bit_or b s) b' s w' is has_s)) letters,
        )
  ]
]

abbrev is_prefix : ℕ → Bool
is_prefix b = (b == 0) || (b == 16) || (b == 32) || (b == 48)

abbrev prefixes : ℕ → Bool
prefixes b = if is_prefix b then is_prefix (bit_or b 32) && is_prefix (bit_or b 16) else true

prefixes_hold : all_below 64 prefixes ≡ true
unfolding all_below
prefixes_hold = refl

prefixes_lem :
    (b : ℕ)
    → is_prefix b ≡ true
    → (is_prefix (bit_or b 32) ≡ true) × (is_prefix (bit_or b 16) ≡ true)
prefixes_lem b h =
    let t : (is_prefix (bit_or b 32) && is_prefix (bit_or b 16)) ≡ true =
      rw (prefixes, h) at (all_below_sound 64 prefixes b prefixes_hold (ground arith)) in
    (ground (arith, t), ground (arith, t))

checkprefixflags_lem :
    (b : ℕ) (mode : List ℕ)
    → is_prefix b ≡ true
    → are_bytes mode ≡ true
    → (is_prefix (checkprefixflags 31 b mode).0 ≡ true)
      × (are_bytes (checkprefixflags 31 b mode).1 ≡ true)
unfolding checkprefixflags
checkprefixflags_lem b [] h bytes = (h, bytes)
checkprefixflags_lem b (c ∷ mode) h bytes =
    let rest : are_bytes mode ≡ true = ground arith in
    let (p, q) = prefixes_lem b h in
    elim (Bool-cases (c == b'~')) [
      | inl e ↦ rw e (checkprefixflags_lem (bit_or b 32) mode p rest)
      | inr e ↦ elim (Bool-cases (c == b'l')) [
        | inl f ↦ rw (e, f) (checkprefixflags_lem (bit_or b 16) mode q rest)
        | inr f ↦ rw (e, f) (h, bytes)
      ]
    ]

are_bytes-c_string : (mode : List ℕ) → are_bytes mode ≡ true → are_bytes (c_string mode) ≡ true
are_bytes-c_string [] bytes = refl
are_bytes-c_string (c ∷ mode) bytes =
    let rest = are_bytes-c_string mode (ground arith) in
    elim (Bool-cases (c == 0)) [ inl z ↦ rw z refl | inr z ↦ rw z (ground (arith, rest)) ]

pub checkinfomode_lem :
    (checkstack : ℕ → Bool) (mode : List ℕ) (b : ℕ) (rest : List ℕ)
    → are_bytes mode ≡ true
    → checkinfomode checkstack 2 31 mode ≡ some (b, rest)
    → (b < 64)
      × ((k c : ℕ)
          → get_elem? rest k ≡ some c
          → (is_letter c ≡ true) × (sets b (source_of c) ≡ true))
unfolding checkinfomode
checkinfomode_lem checkstack mode b rest bytes e =
    let (bits, mode') = checkprefixflags 31 0 (c_string mode) in
    let (h, bytes') = checkprefixflags_lem 0 (c_string mode) refl (are_bytes-c_string mode bytes) in
    elim (Option-cases (addsources 31 bits mode')) [
      | inl n ↦ let f : none ≡ some (b, rest) = rw (checkinfomode, n) at e in cc
      | inr (b', g) ↦ elim (Bool-cases (checkstack (length mode' + 2 + 5))) [
        | inr r ↦ let f : none ≡ some (b, rest) = rw (checkinfomode, g, r) at e in cc
        | inl r ↦
            let f : some (b', mode') ≡ some (b, rest) = rw (checkinfomode, g, r) at e in
            let same : b' ≡ b = cc in
            let same' : mode' ≡ rest = cc in
            let (lt, w, letters) = addsources_lem bits mode' b' (ground arith) bytes' g in
            rw (sym same, sym same') (lt, letters)
      ]
    ]
