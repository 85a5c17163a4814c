-- ===== src/File/Info/Places.antt =====
-- Where `placeat` and `pushfileinfo` of src/lfilef.c put the values.
use mathlib.Core.Path.{subst}
use coutil.Prelude.{
  ==_iff, ℕ, zero, suc, ◌+◌, ◌-◌, ◌≡◌, ◌≤◌, ◌∙◌, sym, ap, refl, true, false, Option, none, some,
  List, [], ◌∷◌, ◌++◌, ◌==◌, ltb, length, arith, Option-cases, Bool-cases, inl, inr, length-append,
  map,
}
use coutil.File.{Value}
use coutil.File.Info.{nils, set, placeat, pushfileinfo}

abbrev pub get_elem? {ℓ} : {A : Type ℓ} → List A → ℕ → Option A
get_elem? [] i = none
get_elem? (x ∷ xs) zero = some x
get_elem? (x ∷ xs) (suc i) = get_elem? xs i

get_elem?-set_self :
    (r : List Value) (i : ℕ) (v : Value)
    → ltb i (length r) ≡ true
    → get_elem? (set r i v) i ≡ some v
get_elem?-set_self [] i v h = ground arith
get_elem?-set_self (w ∷ r) zero v h = refl
get_elem?-set_self (w ∷ r) (suc i) v h = get_elem?-set_self r i v (ground arith)

get_elem?-set_other :
    (r : List Value) (i j : ℕ) (v : Value)
    → (i == j) ≡ false
    → get_elem? (set r i v) j ≡ get_elem? r j
get_elem?-set_other [] i j v h = refl
get_elem?-set_other (w ∷ r) zero zero v h = ground arith
get_elem?-set_other (w ∷ r) zero (suc j) v h = refl
get_elem?-set_other (w ∷ r) (suc i) zero v h = refl
get_elem?-set_other (w ∷ r) (suc i) (suc j) v h = get_elem?-set_other r i j v (ground arith)

length-set : (r : List Value) (i : ℕ) (v : Value) → length (set r i v) ≡ length r
length-set [] i v = refl
length-set (w ∷ r) zero v = refl
length-set (w ∷ r) (suc i) v = omega (arith, length-set r i v)

-- The first list, and the first entry behind it.
get_elem?-append_left :
    (r s : List Value) (j : ℕ) (w : Value) → get_elem? r j ≡ some w → get_elem? (r ++ s) j ≡ some w
get_elem?-append_left [] s j w h = cc
get_elem?-append_left (x ∷ r) s zero w h = h
get_elem?-append_left (x ∷ r) s (suc j) w h = get_elem?-append_left r s j w h

get_elem?-append_right :
    (r s : List Value) (k : ℕ) → get_elem? (r ++ s) (length r + k) ≡ get_elem? s k
get_elem?-append_right [] s k = ap (get_elem? s) (omega arith)
get_elem?-append_right (x ∷ r) s k =
    let shift : suc (length r) + k ≡ suc (length r + k) = omega arith in
    rw shift (get_elem?-append_right r s k)

length-nils : (n : ℕ) → length (nils n) ≡ n
length-nils zero = refl
length-nils (suc n) = omega (arith, length-nils n)

get_elem?-nils_end : (n : ℕ) (v : Value) → get_elem? (nils n ++ v ∷ []) n ≡ some v
get_elem?-nils_end zero v = refl
get_elem?-nils_end (suc n) v = get_elem?-nils_end n v

-- The value of the temporary place is copied to its own, behind the gap.
get_elem?-padded :
    (i : ℕ) (v : Value) (r : List Value)
    → ltb (length r) i ≡ true
    → get_elem? ((r ++ v ∷ []) ++ (nils (i - (length r + 1)) ++ v ∷ [])) i ≡ some v
get_elem?-padded i v r h =
    let k = i - (length r + 1) in
    let at : length (r ++ v ∷ []) + k ≡ i = ground (arith, length-append r (v ∷ [])) in
    ap (get_elem? ((r ++ v ∷ []) ++ (nils k ++ v ∷ []))) (sym at)
    ∙ get_elem?-append_right (r ++ v ∷ []) (nils k ++ v ∷ []) k
    ∙ get_elem?-nils_end k v

pub get_elem?-placeat_self :
    (i : ℕ) (v : Value) (r : List Value) → get_elem? (placeat i v r) i ≡ some v
unfolding placeat
get_elem?-placeat_self i v r = elim (Bool-cases (ltb i (length r))) [
  | inl b ↦ rw b (get_elem?-set_self r i v b)
  | inr b ↦ elim (Bool-cases (i == length r)) [
    | inl e ↦
        let at : length r + 0 ≡ i = ground arith in
        rw (b, e) (ap (get_elem? (r ++ v ∷ [])) (sym at) ∙ get_elem?-append_right r (v ∷ []) 0)
    | inr e ↦ rw (b, e) (get_elem?-padded i v r (ground arith))
  ]
]

pub get_elem?-placeat_other :
    (i j : ℕ) (v w : Value) (r : List Value)
    → get_elem? r j ≡ some w
    → (i == j) ≡ false
    → get_elem? (placeat i v r) j ≡ some w
unfolding placeat
get_elem?-placeat_other i j v w r g h = elim (Bool-cases (ltb i (length r))) [
  | inl b ↦ rw b (get_elem?-set_other r i j v h ∙ g)
  | inr b ↦ elim (Bool-cases (i == length r)) [
    | inl e ↦ rw (b, e) (get_elem?-append_left r (v ∷ []) j w g)
    | inr e ↦
        rw (b, e)
          (get_elem?-append_left (r ++ v ∷ []) (nils (i - (length r + 1)) ++ v ∷ []) j w
            (get_elem?-append_left r (v ∷ []) j w g))
  ]
]

pub length-placeat :
    (i : ℕ) (v : Value) (r : List Value) (n : ℕ)
    → length r ≤ n
    → i + 1 ≤ n
    → length (placeat i v r) ≤ n
unfolding placeat
length-placeat i v r n h k = ground (
  arith,
  length-set r i v,
  length-append r (v ∷ []),
  length-append (r ++ v ∷ []) (nils (i - (length r + 1)) ++ v ∷ []),
  length-append (nils (i - (length r + 1))) (v ∷ []),
  length-nils (i - (length r + 1)),
)

-- The letters of a mode with the value of each: no letter at the place `j` has another one than `w`.
abbrev Agrees : (ℕ → Value) → ℕ → List ℕ → ℕ → Value → Type 0
Agrees val i [] j w = Unit
Agrees val i (c ∷ mode) j w = ((i == j) ≡ true → val c ≡ w) × Agrees val (i + 1) mode j w

Agrees-below :
    (val : ℕ → Value) (i : ℕ) (mode : List ℕ) (j : ℕ) (w : Value)
    → ltb j i ≡ true
    → Agrees val i mode j w
Agrees-below val i [] j w h = tt
Agrees-below val i (c ∷ mode) j w h = (
  λ e. let f : true ≡ false = ground arith in cc,
  Agrees-below val (i + 1) mode j w (ground arith),
)

Agrees-get_elem? :
    (val : ℕ → Value) (i : ℕ) (mode : List ℕ) (k c : ℕ)
    → get_elem? mode k ≡ some c
    → Agrees val i mode (i + k) (val c)
Agrees-get_elem? val i [] k c h = cc
Agrees-get_elem? val i (d ∷ mode) zero c h =
    let e : d ≡ c = cc in
    (λ _. ap val e, Agrees-below val (i + 1) mode (i + 0) (val c) (ground arith))
Agrees-get_elem? val i (d ∷ mode) (suc k) c h =
    let shift : i + 1 + k ≡ i + suc k = omega arith in
    (
      λ e. let f : true ≡ false = ground arith in cc,
      subst (λ j. Agrees val (i + 1) mode j (val c)) shift
          (Agrees-get_elem? val (i + 1) mode k c h),
    )

module _ (push : ℕ → Option Value) (val : ℕ → Value)
    (pushes : (c : ℕ) (v : Value) → push c ≡ some v → val c ≡ v) where
  pushfileinfo-Agrees :
      (i : ℕ) (mode : List ℕ) (r : List Value) (j : ℕ) (w : Value)
      → get_elem? r j ≡ some w
      → Agrees val i mode j w
      → get_elem? (pushfileinfo push i mode r) j ≡ some w
  unfolding pushfileinfo
  pushfileinfo-Agrees i [] r j w g a = g
  pushfileinfo-Agrees i (c ∷ mode) r j w g a = elim (Option-cases (push c)) [
    | inl e ↦ rw e (pushfileinfo-Agrees (i + 1) mode r j w g a.1)
    | inr (v, e) ↦
        let placed : get_elem? (placeat i v r) j ≡ some w = elim (Bool-cases (i == j)) [
          | inl same ↦
              let at : i ≡ j = (==_iff i j).0 same in
              let is_w : v ≡ w = sym (pushes c v e) ∙ a.0 same in
              rw (sym at, sym is_w) (get_elem?-placeat_self i v r)
          | inr differ ↦ get_elem?-placeat_other i j v w r g differ
        ] in
        rw e (pushfileinfo-Agrees (i + 1) mode (placeat i v r) j w placed a.1)
  ]

  -- A letter that is pushed gets its place.
  pub pushfileinfo_pushed :
      (i : ℕ) (mode : List ℕ) (r : List Value) (k c : ℕ) (v : Value)
      → get_elem? mode k ≡ some c
      → push c ≡ some v
      → get_elem? (pushfileinfo push i mode r) (i + k) ≡ some v
  unfolding pushfileinfo
  pushfileinfo_pushed i [] r k c v g e = cc
  pushfileinfo_pushed i (d ∷ mode) r zero c v g e =
      let first : push d ≡ some v = cc in
      let at : i + 0 ≡ i = omega arith in
      rw (first, at)
        (pushfileinfo-Agrees (i + 1) mode (placeat i v r) i v (get_elem?-placeat_self i v r)
          (Agrees-below val (i + 1) mode i v (ground arith)))
  pushfileinfo_pushed i (d ∷ mode) r (suc k) c v g e =
      let shift : i + suc k ≡ i + 1 + k = omega arith in
      rw shift (
        pushfileinfo_pushed (i + 1) mode (elim (push d) [ none ↦ r | some w ↦ placeat i w r ]) k c v
          g e)

  -- A place that has the value of its letter keeps it.
  pub pushfileinfo_kept :
      (mode : List ℕ) (r : List Value) (k c : ℕ)
      → get_elem? mode k ≡ some c
      → get_elem? r k ≡ some (val c)
      → get_elem? (pushfileinfo push 0 mode r) k ≡ some (val c)
  pushfileinfo_kept mode r k c g h =
      pushfileinfo-Agrees 0 mode r k (val c) h
        (subst (λ j. Agrees val 0 mode j (val c)) (omega arith) (Agrees-get_elem? val 0 mode k c g))

  pub length-pushfileinfo :
      (i : ℕ) (mode : List ℕ) (r : List Value) (n : ℕ)
      → length r ≤ n
      → i + length mode ≤ n
      → length (pushfileinfo push i mode r) ≤ n
  unfolding pushfileinfo
  length-pushfileinfo i [] r n h k = h
  length-pushfileinfo i (c ∷ mode) r n h k = elim (Option-cases (push c)) [
    | inl e ↦ rw e (length-pushfileinfo (i + 1) mode r n h (omega arith))
    | inr (v, e) ↦ rw e (
        length-pushfileinfo (i + 1) mode (placeat i v r) n (length-placeat i v r n h (omega arith))
          (omega arith))
  ]

-- A list that has the value of each letter at its place, and no more places, is that of the values.
pub map_of_places :
    (val : ℕ → Value) (mode : List ℕ) (r : List Value)
    → length r ≤ length mode
    → ((k c : ℕ) → get_elem? mode k ≡ some c → get_elem? r k ≡ some (val c))
    → r ≡ map val mode
map_of_places val [] [] h f = refl
map_of_places val [] (v ∷ r) h f = absurd (omega arith)
map_of_places val (c ∷ mode) [] h f = let e : none ≡ some (val c) = f 0 c refl in cc
map_of_places val (c ∷ mode) (v ∷ r) h f =
    let head : some v ≡ some (val c) = f 0 c refl in
    let rest : r ≡ map val mode = map_of_places val mode r (omega arith) (λ k d g. f (suc k) d g) in
    let first : v ≡ val c = cc in cc
