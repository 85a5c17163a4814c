-- ===== src/Examples/Searches.antt =====
-- Searches for addresses (src/lcommunf.c).
use coutil.Prelude.{ℕ, ◌≡◌, refl, true, false, not, ◌&&◌, none, some, List, [], ◌∷◌, if◌then◌else◌}
use coutil.Address.Found.{
  AddrInfo, AddressList, stream, datagram, other, findvalidaddr, found_next, returns,
}
use coutil.Address.Found.Cursor.{at, Implements, IsAt-Implements}
use coutil.Address.Hints.{
  Hints, inet6, dgram, add_letter, add_letters, map_v4, has_name, is_star, setupfindaddr,
}
use coutil.Address.Hints.Modes.{asked, is_refused, setupfindaddr-asked}

-- Mapped addresses for datagrams, from a name: IPv6, with all of them.
abbrev mode : List ℕ
mode = b'd' ∷ b'm' ∷ []

abbrev mapped : Hints
mapped = record {
  ai_family = inet6;
  ai_socktype = dgram;
  ai_protocol = false;
  addrconfig = true;
  passive = false;
  v4mapped = true;
  all = true;
  numerichost = false;
  numericserv = false;
}

asks_for_mapped : setupfindaddr (some (b'h' ∷ [])) false false mode ≡ some (true, mapped)
unfolding setupfindaddr add_letters add_letter map_v4
asks_for_mapped = refl

setupfindaddr-asked_example : setupfindaddr (some (b'h' ∷ [])) false false mode ≡ (
    if is_refused (some (b'h' ∷ [])) false mode
    then none
    else some (
      has_name (some (b'h' ∷ [])) && not (is_star (some (b'h' ∷ []))),
      asked (is_star (some (b'h' ∷ []))) false mode,
    ))
setupfindaddr-asked_example = setupfindaddr-asked (some (b'h' ∷ [])) false false mode

-- A raw socket between two others.
abbrev first : AddrInfo
first = record { ai_family = 2; ai_socktype = stream; ai_passive = false; ai_addr = 1 ∷ [] }

abbrev raw : AddrInfo
raw = record first { ai_socktype = other 3 }

abbrev last : AddrInfo
last = record first { ai_socktype = datagram }

abbrev results : List AddrInfo
results = first ∷ raw ∷ last ∷ []

abbrev list : AddressList
list = record { start = results; current = results }

goes_to_last : found_next list ≡ returns true (record list { current = last ∷ [] })
unfolding found_next findvalidaddr
goes_to_last = refl

IsAt-Implements_example : Implements list (at [] first (last ∷ []))
IsAt-Implements_example =
    IsAt-Implements list (at [] first (last ∷ [])) (raw ∷ last ∷ [], refl, refl, refl, refl)
