-- ===== src/Examples/Addresses.antt =====
-- The addresses of src/lcommunf.c with concrete functions of the C library: each byte of an address
-- is written as two letters, and each port as five digits.
use coutil.Prelude.Int.{pos, negsuc}
use coutil.Buffer.{setupbuf}
use coutil.Buffer.Bounds.{covers, at_or_after, at_or_before, setupbuf-covers}
use coutil.Address.Fields.{port_is, addr_newindex}
use coutil.Address.Fields.Set.{Assigned, addr_newindex-Assigned}
use coutil.Prelude.{
  ℕ, ◌+◌, ◌-◌, ◌*◌, ◌/◌, ◌%◌, ◌≡◌, ◌↔◌, refl, Bool, true, false, ◌&&◌, ◌||◌, Option, none, some,
  List, [], ◌∷◌, ◌++◌, ltb, leb, ◌==◌, length, has, arith, ap, ◌∙◌, if◌then◌else◌, suc,
}
use coutil.Address.{
  Family, inet, inet6, Result, ok, undefined, Net, Address, addrmaxport, addrmaxliteral, fits,
  address_of,
}
use coutil.Address.Port.{mem2port, value, at_most, mem2port-value}
use coutil.Address.Uri.{uri, system_address, addr_tostring}
use coutil.Address.Roundtrip.{IsNet, system_address-addr_tostring}
use coutil.Address.Roundtrip.Overflow.{system_address-undefined}

abbrev letters : List ℕ → List ℕ
letters [] = []
letters (b ∷ bs) = (97 + b / 16) ∷ (97 + b % 16) ∷ letters bs

abbrev read_letters : List ℕ → List ℕ
read_letters [] = []
read_letters (h ∷ []) = []
read_letters (h ∷ l ∷ rest) = ((h - 97) * 16 + (l - 97)) ∷ read_letters rest

abbrev five_digits : ℕ → List ℕ
five_digits n =
    (48 + n / 10 / 10 / 10 / 10)
    ∷ (48 + n / 10 / 10 / 10 % 10)
    ∷ (48 + n / 10 / 10 % 10)
    ∷ (48 + n / 10 % 10)
    ∷ (48 + n % 10)
    ∷ []

abbrev swap : ℕ → ℕ
swap p = p % 256 * 256 + p / 256

abbrev net : Net
net = record {
  htons = swap;
  ntohs = swap;
  inet_pton = λ f s. some (read_letters s);
  inet_ntop = λ f bytes. letters bytes;
  decimal = five_digits;
}

letters_lem : (bytes : List ℕ) → read_letters (letters bytes) ≡ bytes
letters_lem [] = refl
letters_lem (b ∷ bs) =
    let first : (97 + b / 16 - 97) * 16 + (97 + b % 16 - 97) ≡ b = omega arith in
    rw (first, letters_lem bs) refl

length-letters : (bytes : List ℕ) → length (letters bytes) ≡ length bytes * 2
length-letters [] = refl
length-letters (b ∷ bs) = omega (arith, length-letters bs)

has-letters : (x : ℕ) (bytes : List ℕ) → ltb x 97 ≡ true → has x (letters bytes) ≡ false
has-letters x [] h = refl
has-letters x (b ∷ bs) h = ground (arith, has-letters x bs h)

fits-length : (f : Family) (bytes : List ℕ) → fits f bytes ≡ true → ltb (length bytes) 17 ≡ true
fits-length f bytes h =
    elim f as (λ g. fits g bytes ≡ true → ltb (length bytes) 17 ≡ true) [
      | inet ↦ λ e. ground arith
      | inet6 ↦ λ e. ground arith
      | coutil.Address.other ↦ λ e. ground arith
    ]
      h

value-digit :
    (n d : ℕ) (rest : List ℕ)
    → ltb d 10 ≡ true
    → value n ((48 + d) ∷ rest) ≡ value (n * 10 + d) rest
value-digit n d rest h =
    let digit : (ltb (48 + d) 48 || ltb 57 (48 + d)) ≡ false = ground arith in
    let same : 48 + d - 48 ≡ d = omega arith in rw (digit, same) refl

ltb_of_rest : (n : ℕ) → ltb (n % 10) 10 ≡ true
ltb_of_rest n = ground arith

five_digits-value : (p : ℕ) → ltb addrmaxport p ≡ false → value 0 (five_digits p) ≡ some p
five_digits-value p h =
    let a = p / 10 in
    let b = a / 10 in
    let c = b / 10 in
    let e = c / 10 in
    let sum : ((((0 * 10 + e) * 10 + c % 10) * 10 + b % 10) * 10 + a % 10) * 10 + p % 10 ≡ p =
      omega arith in
    let d1 = 48 + p % 10 in
    let d2 = 48 + a % 10 in
    let d3 = 48 + b % 10 in
    value-digit 0 e ((48 + c % 10) ∷ d3 ∷ d2 ∷ d1 ∷ []) (ground arith)
    ∙ value-digit (0 * 10 + e) (c % 10) (d3 ∷ d2 ∷ d1 ∷ []) (ltb_of_rest c)
    ∙ value-digit ((0 * 10 + e) * 10 + c % 10) (b % 10) (d2 ∷ d1 ∷ []) (ltb_of_rest b)
    ∙ value-digit (((0 * 10 + e) * 10 + c % 10) * 10 + b % 10) (a % 10) (d1 ∷ []) (ltb_of_rest a)
    ∙ value-digit ((((0 * 10 + e) * 10 + c % 10) * 10 + b % 10) * 10 + a % 10) (p % 10) []
        (ltb_of_rest p)
    ∙ ap some sum

net-IsNet : IsNet net
net-IsNet = record {
  ports = λ p h. ground arith;
  parses = λ f bytes h. ap some (letters_lem bytes);
  short = λ f bytes h. ground (arith, fits-length f bytes h, length-letters bytes);
  no_zero = λ f bytes h. has-letters 0 bytes refl;
  no_colon = λ bytes h. has-letters 58 bytes refl;
  no_bracket = λ bytes h. has-letters 93 bytes refl;
  digits = five_digits-value;
  some_digits = λ p. refl;
  few_digits = λ p h. refl;
}

-- 127.0.0.1:8080
system_address-addr_tostring_example :
    (text : List ℕ) × (addr_tostring net (address_of net inet 8080 (127 ∷ 0 ∷ 0 ∷ 1 ∷ []))
      ≡ ok text)
    × (system_address net inet (uri (record { bytes = text; is_string = true }))
        ≡ ok (address_of net inet 8080 (127 ∷ 0 ∷ 0 ∷ 1 ∷ [])))
system_address-addr_tostring_example =
    system_address-addr_tostring net net-IsNet inet 8080 (127 ∷ 0 ∷ 0 ∷ 1 ∷ []) true refl refl

abbrev ones : ℕ → List ℕ
ones coutil.Prelude.zero = []
ones (suc n) = 49 ∷ ones n

-- 47 ones and the port 80
system_address-undefined_example :
    system_address net inet
      (uri (record { bytes = ones 47 ++ 58 ∷ 56 ∷ 48 ∷ []; is_string = true }))
    ≡ undefined
system_address-undefined_example =
    system_address-undefined net (ones 47) (56 ∷ 48 ∷ []) 80 true refl refl refl refl refl refl

mem2port-value_example : mem2port 0 56 (48 ∷ []) ≡ at_most addrmaxport (value 0 (56 ∷ 48 ∷ []))
mem2port-value_example = mem2port-value 0 56 (48 ∷ []) refl

abbrev digits4 : List ℕ
digits4 = 1 ∷ 2 ∷ 3 ∷ 4 ∷ []

abbrev http : ℕ
http = 80

addr_newindex-Assigned_example :
    Assigned net
      (port_is (pos 443))
      (address_of net inet http digits4)
      (addr_newindex net (address_of net inet http digits4) (port_is (pos 443)))
addr_newindex-Assigned_example =
    addr_newindex-Assigned net net-IsNet inet http digits4 (port_is (pos 443)) refl

-- The bytes from the second to the last but one of an array of five: the one at 3 is among them.
setupbuf-covers_example :
    covers (setupbuf (some (pos 2)) (some (negsuc 1)) 5) 3
    ≡ (ltb 3 5 && at_or_after (pos 2) 5 3 && at_or_before (negsuc 1) 5 3)
setupbuf-covers_example = setupbuf-covers (some (pos 2)) (some (negsuc 1)) 5 3 refl refl refl

holds_three : covers (setupbuf (some (pos 2)) (some (negsuc 1)) 5) 3 ≡ true
unfolding setupbuf
holds_three = refl
