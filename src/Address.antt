-- ===== src/Address.antt =====
-- Network addresses of src/lcommunf.c: `struct sockaddr` as a family, the port as it is stored, and
-- the bytes of the address. The functions of the C library and of libuv are parameters (`Net`).
pub mod Netmask
pub mod Found
pub mod Hints
pub mod Port
pub mod Uri
pub mod Fields
pub mod Roundtrip
use coutil.Prelude.{
  are_bytes, ℕ, ◌≡◌, ◌<◌, ◌≤◌, Bool, true, false, ◌&&◌, not, Option, none, some, List, [], ◌∷◌, ltb,
  ◌==◌, length, has, if◌then◌else◌,
}
use coutil.Prelude.Int.{ℤ, pos, negsuc}

pub data Family : Type 0 where
  inet inet6 other : Family

abbrev pub same_family : Family → Family → Bool
same_family inet inet = true
same_family inet6 inet6 = true
same_family other other = true
same_family _ _ = false

-- What a function gives: a value, a Lua error about an argument, an error of libuv (its code less
-- the sign), or an access outside of the memory that it has.
pub data Result {ℓ} (A : Type ℓ) : Type ℓ where
  ok : A → Result A
  argerror : ℕ → Result A
  uverror : ℕ → Result A
  undefined : Result A

infixl 20 ◌>>=◌
abbrev pub ◌>>=◌ {ℓ} : {A B : Type ℓ} → Result A → (A → Result B) → Result B
ok a >>= f = f a
argerror i >>= f = argerror i
uverror e >>= f = uverror e
undefined >>= f = undefined

abbrev pub addrmaxport : ℕ
addrmaxport = 65535

abbrev pub addrmaxliteral : ℕ
addrmaxliteral = 47

abbrev pub addrbinsz : Family → ℕ
addrbinsz inet = 4
addrbinsz inet6 = 16
addrbinsz other = 16

-- The functions of others. Texts are lists of bytes; `none` is the error code EINVAL.
pub record Net : Type 0 where
  pub htons : ℕ → ℕ
  pub ntohs : ℕ → ℕ
  pub inet_pton : Family → List ℕ → Option (List ℕ)
  pub inet_ntop : Family → List ℕ → List ℕ
  pub decimal : ℕ → List ℕ  -- `%d` of `lua_pushfstring`

pub record Address : Type 0 where
  pub family : Family
  pub port : ℕ
  pub bytes : List ℕ

abbrev pub einval : ℕ
einval = 22

abbrev pub eafnosupport : ℕ
eafnosupport = 97

abbrev pub eai_addrfamily : ℕ
eai_addrfamily = 3000

unfoldable pub int2port : ℤ → ℕ → Result ℕ
int2port (pos n) idx = if ltb addrmaxport n then argerror idx else ok n
int2port (negsuc n) idx = argerror idx

module _ (net : Net) where
  unfoldable pub setaddrport : Address → ℕ → Address
  setaddrport address port = elim address.family [
    | inet ↦ record address { port = net.htons port }
    | inet6 ↦ record address { port = net.htons port }
    | other ↦ address
  ]

  unfoldable pub getaddrport : Address → ℕ
  getaddrport address = elim address.family [
    | inet ↦ net.ntohs address.port
    | inet6 ↦ net.ntohs address.port
    | other ↦ 0
  ]

  abbrev pub parsed : Address → Option (List ℕ) → Result Address
  parsed address none = uverror einval
  parsed address (some bytes) = ok (record address { bytes = bytes })

  unfoldable pub setaddrliteral : Address → List ℕ → Result Address
  setaddrliteral address literal = elim address.family [
    | inet ↦ parsed address (net.inet_pton inet literal)
    | inet6 ↦ parsed address (net.inet_pton inet6 literal)
    | other ↦ uverror eafnosupport
  ]

  unfoldable pub getaddrliteral : Address → Result (List ℕ)
  getaddrliteral address = elim address.family [
    | inet ↦ ok (net.inet_ntop inet address.bytes)
    | inet6 ↦ ok (net.inet_ntop inet6 address.bytes)
    | other ↦ uverror eai_addrfamily
  ]

unfoldable pub setaddrbytes : Address → List ℕ → Address
setaddrbytes address data_ = elim address.family [
  | inet ↦ record address { bytes = data_ }
  | inet6 ↦ record address { bytes = data_ }
  | other ↦ address
]

unfoldable pub getaddrbytes : Address → List ℕ
getaddrbytes address = elim address.family [
  | inet ↦ address.bytes
  | inet6 ↦ address.bytes
  | other ↦ []
]

-- The bytes of an address of one of the two families of `system.address`.
abbrev pub fits : Family → List ℕ → Bool
fits inet bytes = (length bytes == 4) && are_bytes bytes
fits inet6 bytes = (length bytes == 16) && are_bytes bytes
fits other bytes = false

-- The address with a family, a port and the bytes of it.
abbrev pub address_of : Net → Family → ℕ → List ℕ → Address
address_of net f p bytes = record { family = f; port = net.htons p; bytes = bytes }
