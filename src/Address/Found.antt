-- ===== src/Address/Found.antt =====
-- The list of addresses that `system.findaddr` finds (src/lcommunf.c). A pointer into the list that
-- libuv gives is the rest of the list from there on; `[]` is the null pointer.
pub mod Cursor
use coutil.Prelude.{
  ℕ, zero, suc, ◌++◌, drop, length, ◌==◌, ◌||◌, Bool, true, false, Option, none, some, List, [],
  ◌∷◌, if◌then◌else◌,
}

-- The socket types of the system; the others are neither.
pub data SockType : Type 0 where
  stream : SockType
  datagram : SockType
  other : ℕ → SockType

pub record AddrInfo : Type 0 where
  pub ai_family : ℕ
  pub ai_socktype : SockType
  pub ai_passive : Bool  -- AI_PASSIVE in `ai_flags`
  pub ai_addr : List ℕ  -- its bytes, `ai_addrlen` of them

abbrev pub is_valid : AddrInfo → Bool
is_valid addr = elim addr.ai_socktype [ stream ↦ true | datagram ↦ true | other t ↦ false ]

unfoldable pub findvalidaddr : List AddrInfo → List AddrInfo
findvalidaddr [] = []
findvalidaddr (addr ∷ rest) =
    let next = findvalidaddr rest in if is_valid addr then addr ∷ rest else next

pub record AddressList : Type 0 where
  pub start : List AddrInfo
  pub current : List AddrInfo

-- A call on a list: its result and the list behind it, an error of the arguments, or the use of a
-- null pointer or a failed assertion.
pub data Called {ℓ} (A : Type ℓ) : Type ℓ where
  returns : A → AddressList → Called A
  error : Called A
  undefined : Called A

-- `returnfound` for results of libuv: none if no entry can be used.
unfoldable pub returnfound : List AddrInfo → Option AddressList
unfolding findvalidaddr
returnfound results = elim (findvalidaddr results) [
  | [] ↦ none
  | addr ∷ rest ↦ some (record { start = results; current = addr ∷ rest })
]

-- `openedaddrlist` before a call.
abbrev pub opened {ℓ} : {A : Type ℓ} → AddressList → Called A → Called A
opened list call = elim list.start [ [] ↦ error | addr ∷ rest ↦ call ]

unfoldable pub closeaddrlist : AddressList → AddressList
closeaddrlist list = elim list.start [
  | [] ↦ list
  | addr ∷ rest ↦ record { start = []; current = [] }
]

unfoldable pub found_gc : AddressList → AddressList
unfolding closeaddrlist
found_gc list = closeaddrlist list

unfoldable pub found_close : AddressList → Called Bool
unfolding closeaddrlist
found_close list = opened list (returns true (closeaddrlist list))

unfoldable pub found_next : AddressList → Called Bool
unfolding findvalidaddr
found_next list = opened list (elim list.current [
  | [] ↦ undefined
  | addr ∷ rest ↦ elim (findvalidaddr rest) [
    | [] ↦ returns false list
    | found ∷ rest' ↦ returns true (record list { current = found ∷ rest' })
  ]
])

pub data NoResult : Type 0 where
  no_result : NoResult

unfoldable pub found_reset : AddressList → Called NoResult
unfolding findvalidaddr
found_reset list = opened list (elim (findvalidaddr list.start) [
  | [] ↦ undefined
  | addr ∷ rest ↦ returns no_result (record list { current = addr ∷ rest })
])

-- An address of Lua: its family and all its bytes.
pub record SockAddr : Type 0 where
  pub sa_family : ℕ
  pub sa_bytes : List ℕ

abbrev pub zeros : ℕ → List ℕ
zeros zero = []
zeros (suc n) = 0 ∷ zeros n

-- `newaddress` with the families AF_INET and AF_INET6, and the sizes of their addresses; `none` is its
-- error.
unfoldable pub newaddress : ℕ → Option SockAddr
newaddress family =
    if family == 2
    then some (record { sa_family = family; sa_bytes = zeros 16 })
    else if family == 10
    then some (record { sa_family = family; sa_bytes = zeros 28 })
    else none

-- `memcpy` to an address. libuv's entry holds the family with its bytes, and they are no more than those
-- of an address of this family.
abbrev pub copy_addr : AddrInfo → SockAddr → SockAddr
copy_addr found addr = record {
  sa_family = found.ai_family;
  sa_bytes = found.ai_addr ++ drop (length found.ai_addr) addr.sa_bytes;
}

-- `found_getaddress` with the address of the argument, if any.
unfoldable pub found_getaddress : Option SockAddr → AddressList → Called SockAddr
unfolding newaddress
found_getaddress given list = opened list (elim list.current [
  | [] ↦ undefined
  | found ∷ rest ↦ elim given [
    | some addr ↦
        if addr.sa_family == found.ai_family then returns (copy_addr found addr) list else error
    | none ↦ elim (newaddress found.ai_family) [
      | none ↦ error
      | some addr ↦ returns (copy_addr found addr) list
    ]
  ]
])

-- The family, for which `found_getdomain` pushes its name.
unfoldable pub found_getdomain : AddressList → Called ℕ
found_getdomain list =
    opened list (elim list.current [ [] ↦ undefined | addr ∷ rest ↦ returns addr.ai_family list ])

pub data TypeName : Type 0 where
  datagram_name : TypeName
  passive_name : TypeName
  stream_name : TypeName
  nil_name : TypeName

unfoldable pub found_getsocktype : AddressList → Called TypeName
found_getsocktype list = opened list (elim list.current [
  | [] ↦ undefined
  | addr ∷ rest ↦
      returns
        (elim addr.ai_socktype [
          | datagram ↦ datagram_name
          | stream ↦ if addr.ai_passive then passive_name else stream_name
          | other t ↦ nil_name
        ])
        list
])
