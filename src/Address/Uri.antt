-- ===== src/Address/Uri.antt =====
-- The creation of an address from Lua, and its text (`system_address` and `addr_tostring` of
-- src/lcommunf.c). Each access outside of the memory that the code may use is `undefined`.
use coutil.Prelude.{
  ℕ, ◌+◌, ◌-◌, ◌^◌, ◌%◌, Bool, false, ◌&&◌, none, some, List, [], ◌∷◌, ◌++◌, ltb, leb, ◌==◌, length,
  take, drop, zero, suc, if◌then◌else◌,
}
use coutil.Prelude.Int.{ℤ}
use coutil.Address.{
  Family, inet, inet6, other, Result, ok, argerror, uverror, undefined, ◌>>=◌, Net, Address,
  addrmaxliteral, addrbinsz, int2port, setaddrport, getaddrport, setaddrliteral, getaddrliteral,
  setaddrbytes, eafnosupport,
}
use coutil.Address.Port.{mem2port}

-- What `luamem_checkarray` gives: a Lua string, behind which stands a zero, or a memory.
pub record Array : Type 0 where
  pub bytes : List ℕ
  pub is_string : Bool

abbrev pub accessible : Array → List ℕ
accessible a = if a.is_string then a.bytes ++ 0 ∷ [] else a.bytes

-- What stands before and from a byte on, or that it was not found.
pub data Search : Type 0 where
  found : (before from : List ℕ) → Search
  absent : Search

-- `memchr` of the C library: it reads byte after byte until it finds `x`, `n` bytes at most.
unfoldable pub memchr : List ℕ → ℕ → ℕ → Result Search
memchr [] x n = if n == 0 then ok absent else undefined
memchr (b ∷ bs) x n =
    let rest = memchr bs x (n - 1) in
    if n == 0
    then ok absent
    else if b == x
    then ok (found [] (b ∷ bs))
    else (rest >>= λ r. elim r [
      | absent ↦ ok absent
      | found before from ↦ ok (found (b ∷ before) from)
    ])

-- a - b on `size_t`.
abbrev pub sub_size : ℕ → ℕ → ℕ
sub_size a b = (a + 2 ^ 64 - b) % 2 ^ 64

-- The C string that starts here.
unfoldable pub c_string : List ℕ → Result (List ℕ)
c_string [] = undefined
c_string (b ∷ bs) = let rest = c_string bs in if b == 0 then ok [] else rest >>= λ r. ok (b ∷ r)

-- The arguments of `system_address` behind the type: their number selects the branch.
pub data Arguments : Type 0 where
  no_data : Arguments
  uri : Array → Arguments
  parts : Array → (port : ℤ) → (mode : List ℕ) → Arguments

abbrev pub zeros : ℕ → List ℕ
zeros zero = []
zeros (suc n) = 0 ∷ zeros n

module _ (net : Net) where
  -- From the checks behind the `switch` to the end of the URI branch: the bytes of the literal, and
  -- those of the port. The buffer has room for `addrmaxliteral` bytes, the closing zero included.
  unfoldable pub set_from_uri : Address → (literal port : List ℕ) → Result Address
  unfolding c_string setaddrliteral setaddrport
  set_from_uri na literal [] = undefined
  set_from_uri na literal (c ∷ rest) =
      if leb (length literal) addrmaxliteral
      then elim (mem2port 0 c rest) [
        | none ↦ argerror 2
        | some port ↦
            if ltb (length literal) addrmaxliteral
            then (c_string (literal ++ 0 ∷ []) >>= λ text.
                setaddrliteral net na text >>= λ na'. ok (setaddrport net na' port))
            else undefined
      ]
      else argerror 2

  -- The part of the URI branch that cuts the array: the literal, and the port up to `e`.
  unfoldable pub from_inet_uri : Address → Array → Result Address
  unfolding memchr set_from_uri
  from_inet_uri na data_ =
      let sz = length data_.bytes in
      (memchr (accessible data_) 58 (sub_size sz 1) >>= λ r. elim r [
        | absent ↦ argerror 2
        | found before from ↦ set_from_uri na before (take (sz - (length before + 1)) (drop 1 from))
      ])

  -- c[1] is the byte behind the one that was found.
  unfoldable pub from_bracket : Address → ℕ → List ℕ → List ℕ → Result Address
  unfolding set_from_uri
  from_bracket na sz before [] = undefined
  from_bracket na sz before (c ∷ []) = undefined
  from_bracket na sz before (c ∷ c1 ∷ rest) =
      if c1 == 58
      then set_from_uri na before (take (sz - (1 + length before + 2)) rest)
      else argerror 2

  unfoldable pub from_inet6_uri : Address → Array → Result Address
  unfolding memchr from_bracket
  from_inet6_uri na data_ =
      let sz = length data_.bytes in
      (memchr (drop 1 (accessible data_)) 93 (sub_size sz 3) >>= λ r. elim r [
        | absent ↦ argerror 2
        | found before from ↦ from_bracket na sz before from
      ])

  unfoldable pub from_uri : Address → Array → Result Address
  unfolding from_inet_uri from_inet6_uri
  from_uri na data_ = elim na.family [
    | inet ↦ from_inet_uri na data_
    | inet6 ↦ from_inet6_uri na data_
    | other ↦ uverror eafnosupport
  ]

  -- A mode of one letter: the C string is that letter.
  abbrev pub is_mode : ℕ → List ℕ → Bool
  is_mode x [] = false
  is_mode x (b ∷ []) = b == x
  is_mode x (b ∷ c ∷ rest) = (b == x) && (c == 0)

  -- The other branch: binary format or literal format, with the port as an integer.
  unfoldable pub from_parts : Address → Array → ℤ → List ℕ → Result Address
  unfolding int2port setaddrbytes c_string setaddrliteral setaddrport
  from_parts na data_ n mode =
      (int2port n 3 >>= λ port.
      (if is_mode 98 mode
        then (if length data_.bytes == addrbinsz na.family
            then ok (setaddrbytes na data_.bytes)
            else argerror 2)
        else if is_mode 116 mode
        then (c_string (accessible data_) >>= λ text. setaddrliteral net na text)
        else argerror 4)
      >>= λ na'. ok (setaddrport net na' port))

  -- An error that is about no argument has the number 0.
  unfoldable pub newaddress : Family → Result Address
  newaddress inet = ok (record { family = inet; port = 0; bytes = zeros 4 })
  newaddress inet6 = ok (record { family = inet6; port = 0; bytes = zeros 16 })
  newaddress other = argerror 0

  -- `system_address`, by the arguments behind the type; an absent mode is "t".
  unfoldable pub system_address : Family → Arguments → Result Address
  unfolding newaddress from_uri from_parts
  system_address type no_data = newaddress type
  system_address type (uri data_) = newaddress type >>= λ na. from_uri na data_
  system_address type (parts data_ n mode) = newaddress type >>= λ na. from_parts na data_ n mode

  -- `addr_tostring`, where `inet_ntop` gives a text.
  unfoldable pub addr_tostring : Address → Result (List ℕ)
  unfolding getaddrliteral getaddrport
  addr_tostring na =
      (getaddrliteral net na >>= λ s.
      let p = net.decimal (getaddrport net na) in
      ok (elim na.family [ inet6 ↦ 91 ∷ s ++ 93 ∷ 58 ∷ p | _ ↦ s ++ 58 ∷ p ]))
