-- ===== src/Address/Found/Cursor.antt =====
-- The list of found addresses (src/lcommunf.c) is a cursor on those of its entries that can be used.
use coutil.Prelude.{
  drop, length, ◌==◌, append_assoc, ℕ, ◌≡◌, ◌∙◌, sym, ap, refl, Bool, true, false, Option, none,
  some, List, [], ◌∷◌, ◌++◌, ◌⊎◌, ◌≢◌, if◌then◌else◌, Bool-cases, inl, inr,
}
use coutil.Address.Found.{
  SockAddr, zeros, newaddress, AddrInfo, is_valid, findvalidaddr, AddressList, Called, returns,
  error, returnfound, opened, closeaddrlist, found_close, found_next, found_reset, found_getaddress,
  NoResult, no_result, SockType, stream, datagram, other, TypeName, datagram_name, passive_name,
  stream_name, nil_name, found_gc, found_getdomain, found_getsocktype,
}

-- The entries that can be used.
abbrev pub valid : List AddrInfo → List AddrInfo
valid [] = []
valid (addr ∷ rest) = if is_valid addr then addr ∷ valid rest else valid rest

-- What a list stands for: closed, or the entries before the current one, it, and those behind it.
pub data Cursor : Type 0 where
  closed : Cursor
  at : (before : List AddrInfo) → (current : AddrInfo) → (behind : List AddrInfo) → Cursor

-- A step of the cursor.
abbrev pub step : Cursor → Option (Bool × Cursor)
step closed = none
step (at before current []) = some (false, at before current [])
step (at before current (next ∷ behind)) = some (true, at (before ++ current ∷ []) next behind)

abbrev pub first_of : List AddrInfo → Cursor
first_of [] = closed
first_of (addr ∷ rest) = at [] addr rest

abbrev pub rewind : Cursor → Option (NoResult × Cursor)
rewind closed = none
rewind (at before current behind) = some (no_result, first_of (before ++ current ∷ behind))

abbrev pub shut : Cursor → Option (Bool × Cursor)
shut closed = none
shut (at before current behind) = some (true, closed)

-- The size of the addresses of a family, where the program has such addresses.
abbrev pub size_of : (family : ℕ) → Option ℕ
size_of family = if family == 2 then some 16 else if family == 10 then some 28 else none

-- The address of an entry: its bytes and, behind them, what the address to fill has there.
abbrev pub filled : AddrInfo → (old : List ℕ) → SockAddr
filled addr old = record {
  sa_family = addr.ai_family;
  sa_bytes = addr.ai_addr ++ drop (length addr.ai_addr) old;
}

-- A given address is filled if it is of the family of the entry; a new one is made if there are
-- addresses of this family. Else there is no address.
abbrev pub address_of : Option SockAddr → AddrInfo → Option SockAddr
address_of (some given) addr =
    if given.sa_family == addr.ai_family then some (filled addr given.sa_bytes) else none
address_of none addr = elim (size_of addr.ai_family) [
  | none ↦ none
  | some size ↦ some (filled addr (zeros size))
]

abbrev pub address_at : Option SockAddr → Cursor → Option (SockAddr × Cursor)
address_at given closed = none
address_at given (at before current behind) = elim (address_of given current) [
  | none ↦ none
  | some address ↦ some (address, at before current behind)
]

abbrev pub domain_at : Cursor → Option (ℕ × Cursor)
domain_at closed = none
domain_at (at before current behind) = some (current.ai_family, at before current behind)

-- The type of an entry that can be used.
abbrev pub type_name : SockType → Bool → TypeName
type_name datagram passive = datagram_name
type_name stream passive = if passive then passive_name else stream_name
type_name (other t) passive = stream_name

abbrev pub type_at : Cursor → Option (TypeName × Cursor)
type_at closed = none
type_at (at before current behind) =
    some (type_name current.ai_socktype current.ai_passive, at before current behind)

-- The list stands for a cursor.
abbrev pub IsAt : AddressList → Cursor → Type 0
IsAt list closed = list.start ≡ []
IsAt list (at before addr behind) =
    (rest : List AddrInfo) × (list.current ≡ addr ∷ rest)
    × (is_valid addr ≡ true)
    × (valid rest ≡ behind)
    × (valid list.start ≡ before ++ addr ∷ behind)

-- A call does what the cursor does.
abbrev pub Matches : {A : Type 0} → Called A → Option (A × Cursor) → Type 0
Matches called none = called ≡ error
Matches called (some (result, c)) =
    (list : AddressList) × (called ≡ returns result list) × IsAt list c

found-cases :
    (list : List AddrInfo)
    → ((findvalidaddr list ≡ []) × (valid list ≡ []))
      ⊎ ((addr : AddrInfo) × (rest : List AddrInfo) × (findvalidaddr list ≡ addr ∷ rest)
          × (is_valid addr ≡ true)
          × (valid list ≡ addr ∷ valid rest))
unfolding findvalidaddr
found-cases [] = inl (refl, refl)
found-cases (addr ∷ rest) = elim (Bool-cases (is_valid addr)) [
  | inl e ↦ inr (addr, rest, rw (findvalidaddr, e) refl, e, rw (valid, e) refl)
  | inr e ↦ rw (findvalidaddr, valid, e) (found-cases rest)
]

append_nonempty : (before behind : List AddrInfo) (addr : AddrInfo) → [] ≢ before ++ addr ∷ behind
append_nonempty [] behind addr h = cc
append_nonempty (b ∷ before) behind addr h = cc

-- A list with a current entry is open.
start_open :
    (start before behind : List AddrInfo) (addr : AddrInfo)
    → valid start ≡ before ++ addr ∷ behind
    → (a : AddrInfo) × (rest : List AddrInfo) × (start ≡ a ∷ rest)
start_open [] before behind addr e = absurd (append_nonempty before behind addr e)
start_open (a ∷ start) before behind addr e = (a, start, refl)

opened_lem :
    {A : Type 0} (list : AddressList) (before behind : List AddrInfo) (addr : AddrInfo)
    (call : Called A)
    → valid list.start ≡ before ++ addr ∷ behind
    → opened list call ≡ call
opened_lem list before behind addr call e =
    let (a, rest, f) = start_open list.start before behind addr e in rw (opened, f) refl

-- What each call does to a list that stands for a cursor.
pub record Implements (list : AddressList) (c : Cursor) : Type 0 where
  pub next : Matches (found_next list) (step c)
  pub reset : Matches (found_reset list) (rewind c)
  pub close : Matches (found_close list) (shut c)
  pub address :
      (given : Option SockAddr) → Matches (found_getaddress given list) (address_at given c)
  pub domain : Matches (found_getdomain list) (domain_at c)
  pub type : Matches (found_getsocktype list) (type_at c)
  pub collected : IsAt (found_gc list) closed

gc-closed : (list : AddressList) → IsAt (found_gc list) closed
unfolding found_gc closeaddrlist
gc-closed list = go list.start refl
  where
    go : (start : List AddrInfo) → list.start ≡ start → IsAt (closeaddrlist list) closed
    go [] e = rw (closeaddrlist, e) e
    go (a ∷ rest) e = rw (closeaddrlist, e) refl

-- The name of a type for an entry that can be used; the third one is for the others.
usable_type :
    (t : SockType) (passive : Bool) (list : AddressList)
    → elim t as (λ k. Bool) [ stream ↦ true | datagram ↦ true | other n ↦ false ] ≡ true
    → returns
        (elim t as (λ k. TypeName) [
          | datagram ↦ datagram_name
          | stream ↦ if passive then passive_name else stream_name
          | other n ↦ nil_name
        ])
        list
      ≡ returns (type_name t passive) list
usable_type stream passive list v = refl
usable_type datagram passive list v = refl
usable_type (other n) passive list v = cc

closed-call :
    {A : Type 0} (list : AddressList) (call : Called A) → list.start ≡ [] → opened list call ≡ error
closed-call list call e = rw (opened, e) refl

next-step : (list : AddressList) (c : Cursor) → IsAt list c → Matches (found_next list) (step c)
unfolding found_next
next-step list closed h = rw h refl
next-step list (at before addr behind) (rest, e, v, b, s) = elim (found-cases rest) [
  | inl (f, g) ↦
      let none_ : behind ≡ [] = sym b ∙ g in
      rw none_ (
        list,
        opened_lem list before behind addr _ s ∙ simp (e, f) refl,
        (rest, e, v, g, s ∙ ap (λ xs. before ++ addr ∷ xs) none_),
      )
  | inr (a, r, f, va, g) ↦
      let some_ : behind ≡ a ∷ valid r = sym b ∙ g in
      rw some_ (
        record list { current = a ∷ r },
        opened_lem list before behind addr _ s ∙ rw (e, f) refl,
        (
          r,
          refl,
          va,
          refl,
          s
              ∙ ap (λ xs. before ++ addr ∷ xs) some_
              ∙ sym (append_assoc before (addr ∷ []) (a ∷ valid r)),
        ),
      )
]

reset-rewind :
    (list : AddressList) (c : Cursor) → IsAt list c → Matches (found_reset list) (rewind c)
unfolding found_reset
reset-rewind list closed h = rw h refl
reset-rewind list (at before addr behind) (rest, e, v, b, s) = elim (found-cases list.start) [
  | inl (f, g) ↦ absurd (append_nonempty before behind addr (sym g ∙ s))
  | inr (a, r, f, va, g) ↦
      let all : before ++ addr ∷ behind ≡ a ∷ valid r = sym s ∙ g in
      rw all (
        record list { current = a ∷ r },
        opened_lem list before behind addr _ s ∙ rw f refl,
        (r, refl, va, refl, g),
      )
]

address-at :
    (given : Option SockAddr) (list : AddressList) (before behind : List AddrInfo) (addr : AddrInfo)
    → IsAt list (at before addr behind)
    → Matches (found_getaddress given list) (address_at given (at before addr behind))
unfolding found_getaddress newaddress
address-at (some given) list before behind addr (rest, e, v, b, s) =
    let shown = opened_lem list before behind addr _ s in
    elim (Bool-cases (given.sa_family == addr.ai_family)) [
      | inl f ↦ rw (Matches, f) (list, shown ∙ simp (e, f) refl, (rest, e, v, b, s))
      | inr f ↦ rw (Matches, f) (shown ∙ simp (e, f) refl)
    ]
address-at none list before behind addr (rest, e, v, b, s) =
    let shown = opened_lem list before behind addr _ s in
    elim (Bool-cases (addr.ai_family == 2)) [
      | inl f ↦ rw (Matches, f) (list, shown ∙ simp (e, newaddress, f) refl, (rest, e, v, b, s))
      | inr f ↦ elim (Bool-cases (addr.ai_family == 10)) [
        | inl g ↦
            rw (Matches, f, g) (list, shown ∙ simp (e, newaddress, f, g) refl, (rest, e, v, b, s))
        | inr g ↦ rw (Matches, f, g) (shown ∙ simp (e, newaddress, f, g) refl)
      ]
    ]

-- A list that stands for a cursor on its entries that can be used does what the cursor does:
-- `next` goes to the next of them, or stays and returns false at the last one, `reset` goes to the
-- first one, a list that is closed stays so and all calls on it are errors, the family and the type
-- are those of the current entry, a list that is collected is closed, and no call follows a null
-- pointer or fails an assertion. The address is that of the current entry, in the given address or in
-- a new one, but it is an error if the given one is of another family, or if there is none and the
-- entry is neither of IPv4 nor of IPv6.
pub IsAt-Implements : (list : AddressList) (c : Cursor) → IsAt list c → Implements list c
unfolding found_close found_getdomain found_getaddress found_getsocktype closeaddrlist
IsAt-Implements list closed h = record {
  next = next-step list closed h;
  reset = reset-rewind list closed h;
  close = rw h refl;
  address = λ given. rw h refl;
  domain = rw h refl;
  type = rw h refl;
  collected = gc-closed list;
}
IsAt-Implements list (at before addr behind) (rest, e, v, b, s) = record {
  next = next-step list (at before addr behind) (rest, e, v, b, s);
  reset = reset-rewind list (at before addr behind) (rest, e, v, b, s);
  close =
      let (a, r, f) = start_open list.start before behind addr s in
      (
        record { start = []; current = [] },
        opened_lem list before behind addr _ s ∙ rw f refl,
        refl,
      );
  address = λ given. address-at given list before behind addr (rest, e, v, b, s);
  domain = (list, opened_lem list before behind addr _ s ∙ simp e refl, (rest, e, v, b, s));
  type = (
    list,
    opened_lem list before behind addr _ s
        ∙ simp e (usable_type addr.ai_socktype addr.ai_passive list v),
    (rest, e, v, b, s),
  );
  collected = gc-closed list;
}

abbrev pub IsFound : Option AddressList → List AddrInfo → Type 0
IsFound none usable = usable ≡ []
IsFound (some list) usable = IsAt list (first_of usable)

-- The results of a search give a list that stands for the cursor on the first of those that can be
-- used, and none at all if there is none.
returnfound-first_of : (results : List AddrInfo) → IsFound (returnfound results) (valid results)
unfolding returnfound
returnfound-first_of results = elim (found-cases results) [
  | inl (f, g) ↦ rw (returnfound, f, g) refl
  | inr (a, r, f, va, g) ↦ rw (returnfound, f, g) (r, refl, va, refl, g)
]
