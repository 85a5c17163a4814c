-- ===== src/Address/Roundtrip/Overflow.antt =====
-- A URI whose literal has the size of the buffer (`system_address` of src/lcommunf.c).
use coutil.Prelude.{
  ℕ, ◌≡◌, ◌∙◌, refl, Bool, true, false, some, List, [], ◌∷◌, ◌++◌, ltb, leb, ◌==◌, length, has,
  arith,
}
use coutil.Address.{inet, undefined, Net, Address, addrmaxport, addrmaxliteral}
use coutil.Address.Port.{mem2port, value, mem2port-value}
use coutil.Address.Uri.{set_from_uri, from_uri, newaddress, uri, system_address, zeros}
use coutil.Address.Roundtrip.{from_inet_uri_lem}

set_from_uri-undefined :
    (net : Net) (na : Address) (literal digits : List ℕ) (port : ℕ)
    → length literal ≡ addrmaxliteral
    → (length digits == 0) ≡ false
    → value 0 digits ≡ some port
    → ltb addrmaxport port ≡ false
    → set_from_uri net na literal digits ≡ undefined
unfolding set_from_uri
set_from_uri-undefined net na literal [] port l n v p = ground arith
set_from_uri-undefined net na literal (c ∷ rest) port l n v p =
    let fits : leb (length literal) addrmaxliteral ≡ true = ground arith in
    let full : ltb (length literal) addrmaxliteral ≡ false = ground arith in
    let read : mem2port 0 c rest ≡ some port = mem2port-value 0 c rest refl ∙ rw v (ground arith) in
    rw (fits, read, full) refl

-- An IPv4 URI with a valid port of at most five digits behind a literal of exactly
-- LCU_ADDRMAXLITERAL bytes passes the checks of `system_address`, which then writes the closing zero
-- of the literal behind its buffer.
pub system_address-undefined :
    (net : Net) (literal digits : List ℕ) (port : ℕ) (s : Bool)
    → length literal ≡ addrmaxliteral
    → has 58 literal ≡ false
    → (length digits == 0) ≡ false
    → ltb (length digits) 6 ≡ true
    → value 0 digits ≡ some port
    → ltb addrmaxport port ≡ false
    → system_address net inet (uri (record { bytes = literal ++ 58 ∷ digits; is_string = s }))
      ≡ undefined
unfolding system_address newaddress from_uri
system_address-undefined net literal digits port s l h n few v p =
    let na : Address = record { family = inet; port = 0; bytes = zeros 4 } in
    from_inet_uri_lem net na literal digits s (ground arith) few n h
    ∙ set_from_uri-undefined net na literal digits port l n v p
