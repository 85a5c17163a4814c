-- ===== src/Address/Fields.antt =====
-- The fields and the equality of addresses (`addr_eq`, `addr_index` and `addr_newindex` of
-- src/lcommunf.c).
pub mod Laws
pub mod Set
use coutil.Prelude.{
  ℕ, Bool, true, false, ◌&&◌, Option, none, some, List, [], ◌∷◌, ◌++◌, ◌==◌, length, if◌then◌else◌,
}
use coutil.Prelude.Int.{ℤ}
use coutil.Address.{
  Family, same_family, Result, ok, argerror, uverror, undefined, ◌>>=◌, Net, Address, addrbinsz,
  int2port, setaddrport, getaddrport, setaddrliteral, getaddrliteral, setaddrbytes, getaddrbytes,
}
use coutil.Address.Uri.{Array, c_string}

-- `memcmp` is zero.
unfoldable pub same_bytes : List ℕ → List ℕ → Bool
same_bytes [] [] = true
same_bytes (b ∷ bs) (c ∷ cs) = (b == c) && same_bytes bs cs
same_bytes _ _ = false

pub data Value : Type 0 where
  integer : ℕ → Value
  text : List ℕ → Value
  type_name : Family → Value

pub data Field : Type 0 where
  port binary literal type : Field

pub data Assignment : Type 0 where
  port_is : ℤ → Assignment
  binary_is : Array → Assignment
  literal_is : List ℕ → Assignment  -- a Lua string

module _ (net : Net) where
  -- An argument that is no address is `none`.
  unfoldable pub addr_eq : Option Address → Option Address → Bool
  unfolding getaddrport getaddrbytes same_bytes
  addr_eq none a2 = false
  addr_eq (some a1) none = false
  addr_eq (some a1) (some a2) =
      if same_family a1.family a2.family && (getaddrport net a1 == getaddrport net a2)
      then same_bytes (getaddrbytes a1) (getaddrbytes a2)
      else false

  -- A literal that `inet_ntop` has not written is read all the same.
  abbrev pub written : Result (List ℕ) → Result Value
  written (ok s) = ok (text s)
  written (argerror _) = undefined
  written (uverror _) = undefined
  written undefined = undefined

  unfoldable pub addr_index : Address → Field → Result Value
  unfolding getaddrport getaddrbytes getaddrliteral
  addr_index na port = ok (integer (getaddrport net na))
  addr_index na binary = ok (text (getaddrbytes na))
  addr_index na literal = written (getaddrliteral net na)
  addr_index na type = ok (type_name na.family)

  unfoldable pub addr_newindex : Address → Assignment → Result Address
  unfolding int2port setaddrport setaddrbytes setaddrliteral c_string
  addr_newindex na (port_is n) = int2port n 3 >>= λ p. ok (setaddrport net na p)
  addr_newindex na (binary_is data_) =
      if length data_.bytes == addrbinsz na.family
      then ok (setaddrbytes na data_.bytes)
      else argerror 3
  addr_newindex na (literal_is s) = c_string (s ++ 0 ∷ []) >>= λ t. setaddrliteral net na t
