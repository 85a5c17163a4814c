-- ===== src/Address/Roundtrip.antt =====
-- The text of an address gives the address again (src/lcommunf.c).
pub mod Cuts
pub mod Overflow
use coutil.Prelude.{
  append_assoc, ℕ, ◌+◌, ◌-◌, ◌≡◌, ◌∙◌, sym, ap, refl, Bool, true, false, Option, some, List, [],
  ◌∷◌, ◌++◌, ltb, leb, ◌==◌, length, has, take, drop, suc, if◌then◌else◌, arith, length-append,
}
use coutil.Address.{
  Family, inet, inet6, other, Result, ok, ◌>>=◌, Net, Address, addrmaxport, addrmaxliteral,
  addrbinsz, setaddrport, getaddrport, setaddrliteral, getaddrliteral, fits, address_of,
}
use coutil.Address.Port.{mem2port, value, mem2port-value}
use coutil.Address.Uri.{
  Array, accessible, uri, memchr, sub_size, set_from_uri, from_inet_uri, from_bracket,
  from_inet6_uri, from_uri, newaddress, system_address, addr_tostring, found, zeros,
}
use coutil.Address.Roundtrip.Cuts.{
  memchr-append, c_string-append, take-append, set_from_uri_lem, tail, accessible-tail,
}

-- What the code relies on of the C library, of libuv and of Lua: `htons` and `ntohs` on ports, the
-- texts of addresses (they read back, they fit the buffer that their size is documented for, and have
-- no byte of the URI's syntax), and the digits of numbers.
pub record IsNet (net : Net) : Type 0 where
  pub ports : (p : ℕ) → ltb addrmaxport p ≡ false → net.ntohs (net.htons p) ≡ p
  pub parses :
      (f : Family) (bytes : List ℕ)
      → fits f bytes ≡ true
      → net.inet_pton f (net.inet_ntop f bytes) ≡ some bytes
  pub short :
      (f : Family) (bytes : List ℕ)
      → fits f bytes ≡ true
      → ltb (length (net.inet_ntop f bytes)) addrmaxliteral ≡ true
  pub no_zero :
      (f : Family) (bytes : List ℕ) → fits f bytes ≡ true → has 0 (net.inet_ntop f bytes) ≡ false
  pub no_colon :
      (bytes : List ℕ) → fits inet bytes ≡ true → has 58 (net.inet_ntop inet bytes) ≡ false
  pub no_bracket :
      (bytes : List ℕ) → fits inet6 bytes ≡ true → has 93 (net.inet_ntop inet6 bytes) ≡ false
  pub digits : (p : ℕ) → ltb addrmaxport p ≡ false → value 0 (net.decimal p) ≡ some p
  pub some_digits : (p : ℕ) → (length (net.decimal p) == 0) ≡ false
  pub few_digits : (p : ℕ) → ltb addrmaxport p ≡ false → ltb (length (net.decimal p)) 6 ≡ true

weaken : (a b : ℕ) → ltb a b ≡ true → leb a b ≡ true
weaken a b h = ground arith

module _ (net : Net) (na : Address) (literal digits : List ℕ) (s : Bool)
    (short : leb (length literal) addrmaxliteral ≡ true) (few : ltb (length digits) 6 ≡ true)
    (some_ : (length digits == 0) ≡ false) where
  pub from_inet_uri_lem :
      has 58 literal ≡ false
      → from_inet_uri net na (record { bytes = literal ++ 58 ∷ digits; is_string = s })
        ≡ set_from_uri net na literal digits
  unfolding from_inet_uri
  from_inet_uri_lem h =
      let sz = length (literal ++ 58 ∷ digits) in
      let size = length-append literal (58 ∷ digits) in
      let cut : memchr (accessible (record { bytes = literal ++ 58 ∷ digits; is_string = s })) 58
            (sub_size sz 1)
          ≡ ok (found literal (58 ∷ (digits ++ tail s))) =
        ap (λ xs. memchr xs 58 (sub_size sz 1))
          (accessible-tail (literal ++ 58 ∷ digits) s ∙ append_assoc literal (58 ∷ digits) (tail s))
        ∙ memchr-append literal 58 (digits ++ tail s) (sub_size sz 1) h (ground (arith, size)) in
      let left : sz - (length literal + 1) ≡ length digits = omega (arith, size) in
      rw (cut, left, take-append digits (tail s)) refl

  from_inet6_uri_lem :
      has 93 literal ≡ false
      → from_inet6_uri net na (record { bytes = 91 ∷ literal ++ 93 ∷ 58 ∷ digits; is_string = s })
        ≡ set_from_uri net na literal digits
  unfolding from_inet6_uri from_bracket
  from_inet6_uri_lem h =
      let all = literal ++ 93 ∷ 58 ∷ digits in
      let sz = suc (length all) in
      let size = length-append literal (93 ∷ 58 ∷ digits) in
      let cut : memchr (drop 1 (accessible (record { bytes = 91 ∷ all; is_string = s }))) 93
            (sub_size sz 3)
          ≡ ok (found literal (93 ∷ 58 ∷ (digits ++ tail s))) =
        ap (λ xs. memchr (drop 1 xs) 93 (sub_size sz 3))
          (accessible-tail (91 ∷ all) s ∙ append_assoc (91 ∷ literal) (93 ∷ 58 ∷ digits) (tail s))
        ∙ memchr-append literal 93 (58 ∷ (digits ++ tail s)) (sub_size sz 3) h
            (ground (arith, size)) in
      let left : sz - (1 + length literal + 2) ≡ length digits = omega (arith, size) in
      rw (cut, left, take-append digits (tail s)) refl

-- The text of an address is the URI that `system.address` reads back as the same address, be it given
-- as a string or as a memory: for both families, every port, and all bytes of the size of the family.
-- The texts and numbers of the C library, libuv and Lua are as `IsNet` says.
pub system_address-addr_tostring :
    (net : Net)
    → IsNet net
    → (f : Family) (p : ℕ) (bytes : List ℕ) (s : Bool) → fits f bytes ≡ true
    → ltb addrmaxport p ≡ false
    → (text : List ℕ) × (addr_tostring net (address_of net f p bytes) ≡ ok text)
      × (system_address net f (uri (record { bytes = text; is_string = s }))
          ≡ ok (address_of net f p bytes))
unfolding addr_tostring getaddrliteral getaddrport system_address newaddress from_uri setaddrliteral
    setaddrport
system_address-addr_tostring net n inet p bytes s l h =
    let literal = net.inet_ntop inet bytes in
    let na : Address = record { family = inet; port = 0; bytes = zeros 4 } in
    let read =
      from_inet_uri_lem net na literal (net.decimal p) s (weaken _ _ (n.short inet bytes l))
        (n.few_digits p h) (n.some_digits p) (n.no_colon bytes l)
      ∙ set_from_uri_lem net na literal (net.decimal p) p (n.short inet bytes l)
          (n.no_zero inet bytes l) (n.some_digits p) (n.digits p h) h in
    (literal ++ 58 ∷ net.decimal p, rw (n.ports p h) refl, read ∙ rw (n.parses inet bytes l) refl)
system_address-addr_tostring net n inet6 p bytes s l h =
    let literal = net.inet_ntop inet6 bytes in
    let na : Address = record { family = inet6; port = 0; bytes = zeros 16 } in
    let read =
      from_inet6_uri_lem net na literal (net.decimal p) s (weaken _ _ (n.short inet6 bytes l))
        (n.few_digits p h) (n.some_digits p) (n.no_bracket bytes l)
      ∙ set_from_uri_lem net na literal (net.decimal p) p (n.short inet6 bytes l)
          (n.no_zero inet6 bytes l) (n.some_digits p) (n.digits p h) h in
    (
      91 ∷ literal ++ 93 ∷ 58 ∷ net.decimal p,
      rw (n.ports p h) refl,
      read ∙ rw (n.parses inet6 bytes l) refl,
    )
system_address-addr_tostring net n other p bytes s l h = cc
