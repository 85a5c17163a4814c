-- ===== src/Address/Hints.antt =====
-- The mode of `system.findaddr` (`k_setupfindaddr` of src/lcommunf.c): what is asked of
-- `uv_getaddrinfo`.
pub mod Letters
pub mod Modes
use mathlib.Core.Path.{subst}
use coutil.Prelude.{
  ℕ, ◌≡◌, ◌∙◌, sym, ap, refl, ==_iff, Bool, true, false, ◌&&◌, ◌||◌, not, Option, none, some, List,
  [], ◌∷◌, ◌++◌, ◌==◌, has, has-append, if◌then◌else◌, arith, Bool-cases, inl, inr,
}
use coutil.Process.{c_string}

pub data AskedFamily : Type 0 where
  unspec : AskedFamily
  inet : AskedFamily
  inet6 : AskedFamily

pub data AskedType : Type 0 where
  any : AskedType
  stream : AskedType
  dgram : AskedType

-- `struct addrinfo`: its fields that are set, with each flag on its own.
pub record Hints : Type 0 where
  pub ai_family : AskedFamily
  pub ai_socktype : AskedType
  pub ai_protocol : Bool  -- 1, not 0
  pub addrconfig : Bool
  pub passive : Bool
  pub v4mapped : Bool
  pub all : Bool
  pub numerichost : Bool
  pub numericserv : Bool

-- The `switch` of the loop; `none` is the error for an unknown letter. `AI_ADDRCONFIG` and the
-- protocol mark that a family and a type were given already.
unfoldable pub add_letter : Hints → ℕ → Option Hints
add_letter hints c =
    let family : AskedFamily → Hints = λ f. record hints {
      ai_family = if hints.addrconfig then f else unspec;
      addrconfig = false;
    } in
    let socktype : AskedType → Hints = λ t. record hints {
      ai_socktype = if hints.ai_protocol then any else t;
      ai_protocol = true;
    } in
    if c == b'4'
    then some (family inet)
    else if c == b'6'
    then some (family inet6)
    else if c == b's'
    then some (socktype stream)
    else if c == b'd'
    then some (socktype dgram)
    else if c == b'm'
    then some (record hints { v4mapped = true })
    else if c == b'n'
    then some (record hints { numerichost = true })
    else none

-- The loop, over a mode up to its first zero.
unfoldable pub add_letters : Hints → List ℕ → Option Hints
unfolding add_letter
add_letters hints [] = some hints
add_letters hints (c ∷ mode) = elim (add_letter hints c) [
  | none ↦ none
  | some hints' ↦ add_letters hints' mode
]

abbrev pub is_inet : AskedFamily → Bool
is_inet unspec = false
is_inet inet = true
is_inet inet6 = false

abbrev pub is_unspec : AskedFamily → Bool
is_unspec unspec = true
is_unspec inet = false
is_unspec inet6 = false

-- What follows the loop.
unfoldable pub map_v4 : Hints → Option Hints
map_v4 hints =
    if hints.v4mapped
    then (if is_inet hints.ai_family
        then none
        else some (record hints {
          ai_family = inet6;
          all = if is_unspec hints.ai_family then true else hints.all;
        }))
    else some hints

abbrev pub is_star : Option (List ℕ) → Bool
is_star none = false
is_star (some []) = false
is_star (some (c ∷ [])) = c == b'*'
is_star (some (c ∷ d ∷ name)) = false

abbrev pub has_name : Option (List ℕ) → Bool
has_name none = false
has_name (some name) = true

-- The hints before the loop, with `AI_PASSIVE` for `*`.
abbrev pub first_hints : (star : Bool) → Hints
first_hints star = record {
  ai_family = unspec;
  ai_socktype = any;
  ai_protocol = false;
  addrconfig = true;
  passive = star;
  v4mapped = false;
  all = false;
  numerichost = false;
  numericserv = false;
}

-- `k_setupfindaddr` up to the call of `uv_getaddrinfo`, which gets no name for `*`; `service` is
-- whether there is one, and `numeric` whether it is a number. The name is given up to its first zero.
unfoldable pub setupfindaddr :
    (name : Option (List ℕ)) → (service numeric : Bool) → (mode : List ℕ) → Option (Bool × Hints)
setupfindaddr name service numeric mode =
    let star = is_star name in
    let named = has_name name && not star in
    let hints = first_hints star in
    if not named && not service then none else elim (add_letters hints (c_string mode)) [
      | none ↦ none
      | some hints1 ↦ elim (map_v4 hints1) [
        | none ↦ none
        | some hints2 ↦ some (named, record hints2 { ai_protocol = false; numericserv = numeric })
      ]
    ]
