-- ===== src/Address/Roundtrip/Cuts.antt =====
-- How the URI of an address is cut (src/lcommunf.c): what the C library's functions find in a text
-- of known parts.
use coutil.Prelude.{
  ℕ, ◌-◌, ◌≡◌, ◌∙◌, ap, refl, Bool, true, false, some, List, [], ◌∷◌, ◌++◌, ltb, leb, ◌==◌, length,
  has, take, arith,
}
use coutil.Address.{
  ok, ◌>>=◌, Net, Address, addrmaxport, addrmaxliteral, setaddrport, setaddrliteral,
}
use coutil.Address.Port.{mem2port, value, mem2port-value}
use coutil.Address.Uri.{accessible, memchr, found, c_string, set_from_uri}

pub memchr-append :
    (xs : List ℕ) (x : ℕ) (ys : List ℕ) (n : ℕ)
    → has x xs ≡ false
    → ltb (length xs) n ≡ true
    → memchr (xs ++ x ∷ ys) x n ≡ ok (found xs (x ∷ ys))
unfolding memchr
memchr-append [] x ys n h l = ground arith
memchr-append (y ∷ xs) x ys n h l =
    let rest = memchr-append xs x ys (n - 1) (ground arith) (ground arith) in
    let other : (y == x) ≡ false = ground arith in
    let more : (n == 0) ≡ false = ground arith in rw (more, other, rest) refl

pub c_string-append : (xs ys : List ℕ) → has 0 xs ≡ false → c_string (xs ++ 0 ∷ ys) ≡ ok xs
unfolding c_string
c_string-append [] ys h = refl
c_string-append (x ∷ xs) ys h =
    let rest = c_string-append xs ys (ground arith) in
    let other : (x == 0) ≡ false = ground arith in rw (other, rest) refl

pub take-append : (xs ys : List ℕ) → take (length xs) (xs ++ ys) ≡ xs
take-append [] ys = refl
take-append (x ∷ xs) ys = ap (λ (r : List ℕ). x ∷ r) (take-append xs ys)

append_nil : (xs : List ℕ) → xs ≡ xs ++ []
append_nil [] = refl
append_nil (x ∷ xs) = ap (λ (r : List ℕ). x ∷ r) (append_nil xs)

-- What can be read behind an array.
abbrev pub tail : Bool → List ℕ
tail true = 0 ∷ []
tail false = []

pub accessible-tail :
    (bytes : List ℕ) (s : Bool)
    → accessible (record { bytes = bytes; is_string = s }) ≡ bytes ++ tail s
accessible-tail bytes true = refl
accessible-tail bytes false = append_nil bytes

-- A literal that fits, and the digits of a port.
pub set_from_uri_lem :
    (net : Net) (na : Address) (literal digits : List ℕ) (port : ℕ)
    → ltb (length literal) addrmaxliteral ≡ true
    → has 0 literal ≡ false
    → (length digits == 0) ≡ false
    → value 0 digits ≡ some port
    → ltb addrmaxport port ≡ false
    → set_from_uri net na literal digits
      ≡ (setaddrliteral net na literal >>= λ na'. ok (setaddrport net na' port))
unfolding set_from_uri
set_from_uri_lem net na literal [] port l z n v p = ground arith
set_from_uri_lem net na literal (c ∷ rest) port l z n v p =
    let fits : leb (length literal) addrmaxliteral ≡ true = ground arith in
    let text = c_string-append literal [] z in
    let read : mem2port 0 c rest ≡ some port = mem2port-value 0 c rest refl ∙ rw v (ground arith) in
    rw (fits, read, l, text) refl
