-- ===== src/Address/Hints/Letters.antt =====
-- The loop of `k_setupfindaddr` of src/lcommunf.c over the letters of its mode.
use mathlib.Core.Path.{subst}
use coutil.Prelude.{
  ℕ, ◌≡◌, sym, refl, ==_iff, Bool, true, false, ◌&&◌, ◌||◌, none, some, List, [], ◌∷◌, ◌==◌, has,
  if◌then◌else◌, arith, Bool-cases, inl, inr,
}
use coutil.Address.Hints.{
  AskedFamily, unspec, inet, inet6, AskedType, any, stream, dgram, Hints, add_letter, add_letters,
}

-- The letters of a mode that are in a text.
abbrev pub among : List ℕ → List ℕ → List ℕ
among text [] = []
among text (c ∷ mode) = if has c text then c ∷ among text mode else among text mode

-- One letter asks for its family or type; with more of them, also if it is the same again, any is
-- meant.
abbrev pub only_one : {A : Type 0} → A → (ℕ → A) → List ℕ → A
only_one dflt choice [] = dflt
only_one dflt choice (c ∷ []) = choice c
only_one dflt choice (c ∷ d ∷ cs) = dflt

abbrev pub is_empty : List ℕ → Bool
is_empty [] = true
is_empty (c ∷ cs) = false

abbrev pub family_of : ℕ → AskedFamily
family_of c = if c == b'4' then inet else inet6

abbrev pub socktype_of : ℕ → AskedType
socktype_of c = if c == b's' then stream else dgram

abbrev pub all_known : List ℕ → Bool
all_known [] = true
all_known (c ∷ mode) = has c (b'4' ∷ b'6' ∷ b's' ∷ b'd' ∷ b'm' ∷ b'n' ∷ []) && all_known mode

-- The fields of the hints behind the loop, from what they are before it.
abbrev pub family_by : AskedFamily → Bool → List ℕ → AskedFamily
family_by f a [] = f
family_by f a (c ∷ cs) = family_by (if a then family_of c else unspec) false cs

abbrev pub cleared : Bool → List ℕ → Bool
cleared a [] = a
cleared a (c ∷ cs) = cleared false cs

abbrev pub type_by : AskedType → Bool → List ℕ → AskedType
type_by t p [] = t
type_by t p (c ∷ cs) = type_by (if p then any else socktype_of c) true cs

abbrev pub marked : Bool → List ℕ → Bool
marked p [] = p
marked p (c ∷ cs) = marked true cs

abbrev pub seen : ℕ → Bool → List ℕ → Bool
seen l b [] = b
seen l b (c ∷ mode) = seen l (if l == c then true else b) mode

abbrev pub behind : Hints → List ℕ → Hints
behind hints mode =
    let families = among (b'4' ∷ b'6' ∷ []) mode in
    let types = among (b's' ∷ b'd' ∷ []) mode in
    record hints {
      ai_family = family_by hints.ai_family hints.addrconfig families;
      ai_socktype = type_by hints.ai_socktype hints.ai_protocol types;
      ai_protocol = marked hints.ai_protocol types;
      addrconfig = cleared hints.addrconfig families;
      v4mapped = seen b'm' hints.v4mapped mode;
      numerichost = seen b'n' hints.numerichost mode;
    }

-- An equation that is known for a letter `l` holds for a letter that is the same.
at_letter : (c l : ℕ) (P : ℕ → Type 0) → (c == l) ≡ true → P l → P c
at_letter c l P e p = subst P (sym ((==_iff c l).0 e)) p

pub loop_lem :
    (hints : Hints) (mode : List ℕ)
    → add_letters hints mode ≡ (if all_known mode then some (behind hints mode) else none)
unfolding add_letters
loop_lem hints [] = refl
loop_lem hints (c ∷ mode) =
    let P : ℕ → Type 0 = λ d.
      add_letters hints (d ∷ mode)
      ≡ (if all_known (d ∷ mode) then some (behind hints (d ∷ mode)) else none) in
    let family : AskedFamily → Hints = λ f. record hints {
      ai_family = if hints.addrconfig then f else unspec;
      addrconfig = false;
    } in
    let socktype : AskedType → Hints = λ t. record hints {
      ai_socktype = if hints.ai_protocol then any else t;
      ai_protocol = true;
    } in
    elim (Bool-cases (c == b'4')) [
      | inl e ↦ at_letter c b'4' P e (loop_lem (family inet) mode)
      | inr n1 ↦ elim (Bool-cases (c == b'6')) [
        | inl e ↦ at_letter c b'6' P e (loop_lem (family inet6) mode)
        | inr n2 ↦ elim (Bool-cases (c == b's')) [
          | inl e ↦ at_letter c b's' P e (loop_lem (socktype stream) mode)
          | inr n3 ↦ elim (Bool-cases (c == b'd')) [
            | inl e ↦ at_letter c b'd' P e (loop_lem (socktype dgram) mode)
            | inr n4 ↦ elim (Bool-cases (c == b'm')) [
              | inl e ↦ at_letter c b'm' P e (loop_lem (record hints { v4mapped = true }) mode)
              | inr n5 ↦ elim (Bool-cases (c == b'n')) [
                | inl e ↦ at_letter c b'n' P e (loop_lem (record hints { numerichost = true }) mode)
                | inr n6 ↦ rw (add_letters, add_letter, n1, n2, n3, n4, n5, n6) refl
              ]
            ]
          ]
        ]
      ]
    ]

unspec_by : (cs : List ℕ) → family_by unspec false cs ≡ unspec
unspec_by [] = refl
unspec_by (c ∷ cs) = unspec_by cs

pub family_by-only_one : (cs : List ℕ) → family_by unspec true cs ≡ only_one unspec family_of cs
family_by-only_one [] = refl
family_by-only_one (c ∷ []) = refl
family_by-only_one (c ∷ d ∷ cs) = unspec_by cs

uncleared : (cs : List ℕ) → cleared false cs ≡ false
uncleared [] = refl
uncleared (c ∷ cs) = uncleared cs

pub cleared-is_empty : (cs : List ℕ) → cleared true cs ≡ is_empty cs
cleared-is_empty [] = refl
cleared-is_empty (c ∷ cs) = uncleared cs

any_by : (cs : List ℕ) → type_by any true cs ≡ any
any_by [] = refl
any_by (c ∷ cs) = any_by cs

pub type_by-only_one : (cs : List ℕ) → type_by any false cs ≡ only_one any socktype_of cs
type_by-only_one [] = refl
type_by-only_one (c ∷ []) = refl
type_by-only_one (c ∷ d ∷ cs) = any_by cs

pub seen-has : (l : ℕ) (b : Bool) (mode : List ℕ) → seen l b mode ≡ (b || has l mode)
seen-has l b [] = ground arith
seen-has l b (c ∷ mode) = ground (arith, seen-has l (if l == c then true else b) mode)
