-- ===== src/Address/Fields/Set.antt =====
-- What an assignment to a field of an address does (`addr_newindex` of src/lcommunf.c).
use coutil.Prelude.{
  ℕ, ◌≡◌, refl, true, false, none, some, List, [], ◌∷◌, ◌++◌, ◌==◌, ltb, length, Bool-cases,
  Option-cases, inl, inr,
}
use coutil.Prelude.Int.{pos, negsuc}
use coutil.Address.{
  Family, inet, inet6, other, Result, ok, argerror, uverror, Net, Address, addrmaxport, addrbinsz,
  einval, fits, address_of, setaddrport, setaddrbytes, setaddrliteral, getaddrport, getaddrbytes,
  int2port,
}
use coutil.Address.Uri.{Array, c_string}
use coutil.Address.Roundtrip.{IsNet}
use coutil.Address.Fields.{
  integer, text, port, binary, Assignment, port_is, binary_is, literal_is, addr_index,
  addr_newindex,
}

-- What an assignment to `a` gives: the field that it is about is set, the other ones are kept, or
-- there is an error, and only for the reason that is stated.
abbrev pub Assigned : Net → Assignment → Address → Result Address → Type 0
Assigned net (port_is (pos v)) a (ok b) =
    (addr_index net b port ≡ ok (integer v))
    × (addr_index net b binary ≡ addr_index net a binary)
    × (b.family ≡ a.family)
Assigned net (port_is (pos v)) a (argerror i) = (i ≡ 3) × (ltb addrmaxport v ≡ true)
Assigned net (port_is (negsuc v)) a (argerror i) = i ≡ 3
Assigned net (binary_is data_) a (ok b) =
    (addr_index net b binary ≡ ok (text data_.bytes))
    × (addr_index net b port ≡ addr_index net a port)
    × (b.family ≡ a.family)
Assigned net (binary_is data_) a (argerror i) =
    (i ≡ 3) × ((length data_.bytes == addrbinsz a.family) ≡ false)
Assigned net (literal_is s) a (ok b) =
    (t : List ℕ) × (c_string (s ++ 0 ∷ []) ≡ ok t)
    × (net.inet_pton a.family t ≡ some b.bytes)
    × (addr_index net b port ≡ addr_index net a port)
    × (b.family ≡ a.family)
Assigned net (literal_is s) a (uverror e) =
    (e ≡ einval)
    × (t : List ℕ) × (c_string (s ++ 0 ∷ []) ≡ ok t)
    × (net.inet_pton a.family t ≡ none)
Assigned net _ a _ = ⊥

c_string-total : (s : List ℕ) → (t : List ℕ) × (c_string (s ++ 0 ∷ []) ≡ ok t)
unfolding c_string
c_string-total [] = ([], refl)
c_string-total (b ∷ s) = elim (Bool-cases (b == 0)) [
  | inl z ↦ ([], rw z refl)
  | inr m ↦ let r = c_string-total s in (b ∷ r.0, rw (m, r.1) refl)
]

module _ (net : Net) (n : IsNet net) where
  port-Assigned :
      (f : Family) (p v : ℕ) (bytes : List ℕ)
      → fits f bytes ≡ true
      → Assigned net
          (port_is (pos v))
          (address_of net f p bytes)
          (addr_newindex net (address_of net f p bytes) (port_is (pos v)))
  unfolding addr_newindex int2port setaddrport addr_index getaddrport getaddrbytes
  port-Assigned inet p v bytes k = elim (Bool-cases (ltb addrmaxport v)) [
    | inl o ↦ rw (addr_newindex, int2port, o) (refl, o)
    | inr o ↦ rw (addr_newindex, int2port, o) (rw (n.ports v o) refl, refl, refl)
  ]
  port-Assigned inet6 p v bytes k = elim (Bool-cases (ltb addrmaxport v)) [
    | inl o ↦ rw (addr_newindex, int2port, o) (refl, o)
    | inr o ↦ rw (addr_newindex, int2port, o) (rw (n.ports v o) refl, refl, refl)
  ]
  port-Assigned other p v bytes k = cc

  binary-Assigned :
      (f : Family) (p : ℕ) (bytes : List ℕ) (data_ : Array)
      → fits f bytes ≡ true
      → Assigned net
          (binary_is data_)
          (address_of net f p bytes)
          (addr_newindex net (address_of net f p bytes) (binary_is data_))
  unfolding addr_newindex setaddrbytes addr_index getaddrport getaddrbytes
  binary-Assigned inet p bytes data_ k = elim (Bool-cases (length data_.bytes == 4)) [
    | inl o ↦ rw (addr_newindex, o) (refl, refl, refl)
    | inr o ↦ rw (addr_newindex, o) (refl, o)
  ]
  binary-Assigned inet6 p bytes data_ k = elim (Bool-cases (length data_.bytes == 16)) [
    | inl o ↦ rw (addr_newindex, o) (refl, refl, refl)
    | inr o ↦ rw (addr_newindex, o) (refl, o)
  ]
  binary-Assigned other p bytes data_ k = cc

  literal-Assigned :
      (f : Family) (p : ℕ) (bytes s : List ℕ)
      → fits f bytes ≡ true
      → Assigned net
          (literal_is s)
          (address_of net f p bytes)
          (addr_newindex net (address_of net f p bytes) (literal_is s))
  unfolding addr_newindex setaddrliteral addr_index getaddrport
  literal-Assigned inet p bytes s k =
      let (t, c) = c_string-total s in
      elim (Option-cases (net.inet_pton inet t)) [
        | inl e ↦ rw (addr_newindex, c, setaddrliteral, e) (refl, t, c, e)
        | inr (cs, e) ↦ rw (addr_newindex, c, setaddrliteral, e) (t, c, e, refl, refl)
      ]
  literal-Assigned inet6 p bytes s k =
      let (t, c) = c_string-total s in
      elim (Option-cases (net.inet_pton inet6 t)) [
        | inl e ↦ rw (addr_newindex, c, setaddrliteral, e) (refl, t, c, e)
        | inr (cs, e) ↦ rw (addr_newindex, c, setaddrliteral, e) (t, c, e, refl, refl)
      ]
  literal-Assigned other p bytes s k = cc

  -- An assignment to a field of an IPv4 or IPv6 address sets this field to the value and keeps the
  -- other ones (a literal sets the bytes that `inet_pton` reads from it, up to its first zero), or it
  -- fails: for a port out of range, bytes of another number than the family needs, or a literal that
  -- `inet_pton` refuses, and for nothing else.
  pub addr_newindex-Assigned :
      (f : Family) (p : ℕ) (bytes : List ℕ) (v : Assignment)
      → fits f bytes ≡ true
      → Assigned net v (address_of net f p bytes) (addr_newindex net (address_of net f p bytes) v)
  unfolding addr_newindex int2port
  addr_newindex-Assigned f p bytes (port_is (pos v)) k = port-Assigned f p v bytes k
  addr_newindex-Assigned f p bytes (port_is (negsuc v)) k = refl
  addr_newindex-Assigned f p bytes (binary_is data_) k = binary-Assigned f p bytes data_ k
  addr_newindex-Assigned f p bytes (literal_is s) k = literal-Assigned f p bytes s k
