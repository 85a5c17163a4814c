-- ===== src/Address/Hints/Modes.antt =====
-- What the mode of `system.findaddr` asks for (src/lcommunf.c).
use coutil.Prelude.{
  ℕ, ◌≡◌, ◌∙◌, ap, refl, Bool, true, false, ◌&&◌, ◌||◌, not, Option, none, some, List, [], ◌∷◌, has,
  if◌then◌else◌, Bool-cases, inl, inr,
}
use coutil.Process.{c_string}
use coutil.Address.Hints.{
  unspec, inet6, any, Hints, add_letters, is_inet, is_unspec, map_v4, first_hints, is_star,
  has_name, setupfindaddr,
}
use coutil.Address.Hints.Letters.{
  among, only_one, is_empty, family_of, socktype_of, all_known, marked, behind, loop_lem,
  family_by-only_one, cleared-is_empty, type_by-only_one, seen-has,
}

-- What a mode asks for, by the letters that it has.
abbrev pub asked : (star numeric : Bool) → List ℕ → Hints
asked star numeric mode =
    let families = among (b'4' ∷ b'6' ∷ []) mode in
    let types = among (b's' ∷ b'd' ∷ []) mode in
    let family = only_one unspec family_of families in
    let mapped = has b'm' mode in
    record {
      ai_family = if mapped then inet6 else family;
      ai_socktype = only_one any socktype_of types;
      ai_protocol = false;
      addrconfig = is_empty families;
      passive = star;
      v4mapped = mapped;
      all = mapped && is_unspec family;
      numerichost = has b'n' mode;
      numericserv = numeric;
    }

-- A mode with an unknown letter, one that asks for mapped addresses of IPv4 only, and a search with
-- neither a name nor a service.
abbrev pub is_refused : Option (List ℕ) → (service : Bool) → List ℕ → Bool
is_refused name service mode =
    (not (has_name name && not (is_star name)) && not service)
    || not (all_known mode)
    || (has b'm' mode && is_inet (only_one unspec family_of (among (b'4' ∷ b'6' ∷ []) mode)))

-- The hints behind the loop.
abbrev read_hints : Bool → List ℕ → Hints
read_hints star mode = record {
  ai_family = only_one unspec family_of (among (b'4' ∷ b'6' ∷ []) mode);
  ai_socktype = only_one any socktype_of (among (b's' ∷ b'd' ∷ []) mode);
  ai_protocol = marked false (among (b's' ∷ b'd' ∷ []) mode);
  addrconfig = is_empty (among (b'4' ∷ b'6' ∷ []) mode);
  passive = star;
  v4mapped = has b'm' mode;
  all = false;
  numerichost = has b'n' mode;
  numericserv = false;
}

behind_first : (star : Bool) (mode : List ℕ) → behind (first_hints star) mode ≡ read_hints star mode
behind_first star mode =
    rw
      (
        family_by-only_one (among (b'4' ∷ b'6' ∷ []) mode),
        cleared-is_empty (among (b'4' ∷ b'6' ∷ []) mode),
        type_by-only_one (among (b's' ∷ b'd' ∷ []) mode),
        seen-has b'm' false mode,
        seen-has b'n' false mode,
      )
      refl

read_lem :
    (star : Bool) (mode : List ℕ)
    → all_known mode ≡ true
    → add_letters (first_hints star) mode ≡ some (read_hints star mode)
read_lem star mode k = loop_lem (first_hints star) mode ∙ rw k (ap some (behind_first star mode))

mapped_lem :
    (named star numeric : Bool) (mode : List ℕ)
    → elim (map_v4 (read_hints star mode)) as (λ o. Option (Bool × Hints)) [
      | none ↦ none
      | some hints ↦ some (named, record hints { ai_protocol = false; numericserv = numeric })
    ]
      ≡ (if has b'm' mode && is_inet (only_one unspec family_of (among (b'4' ∷ b'6' ∷ []) mode))
          then none
          else some (named, asked star numeric mode))
unfolding map_v4
mapped_lem named star numeric mode =
    let family = only_one unspec family_of (among (b'4' ∷ b'6' ∷ []) mode) in
    elim (Bool-cases (has b'm' mode)) [
      | inr m ↦ rw m refl
      | inl m ↦ elim (Bool-cases (is_inet family)) [
        | inl i ↦ rw (m, i) refl
        | inr i ↦ elim (Bool-cases (is_unspec family)) [
          | inl u ↦ rw (m, i, u) refl
          | inr u ↦ rw (m, i, u) refl
        ]
      ]
    ]

-- For the mode up to its first zero: the search is refused for the stated reasons only. Otherwise the family and the type are those of
-- the only letter for one, or any; the addresses of the host are asked for exactly if no family is
-- given; and mapped addresses are all of the family IPv6, besides those of IPv6 if any family is
-- meant.
pub setupfindaddr-asked :
    (name : Option (List ℕ)) (service numeric : Bool) (mode : List ℕ)
    → setupfindaddr name service numeric mode ≡ (
        if is_refused name service (c_string mode)
        then none
        else some
            (has_name name && not (is_star name), asked (is_star name) numeric (c_string mode)))
unfolding setupfindaddr
setupfindaddr-asked name service numeric mode =
    elim (Bool-cases (not (has_name name && not (is_star name)) && not service)) [
      | inl r ↦ rw (setupfindaddr, r) refl
      | inr r ↦ elim (Bool-cases (all_known (c_string mode))) [
        | inr k ↦
            rw (setupfindaddr, r, loop_lem (first_hints (is_star name)) (c_string mode), k) refl
        | inl k ↦
            rw (setupfindaddr, r, k, read_lem (is_star name) (c_string mode) k)
              (mapped_lem (has_name name && not (is_star name)) (is_star name) numeric
                (c_string mode))
      ]
    ]
