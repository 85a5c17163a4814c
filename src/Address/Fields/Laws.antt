-- ===== src/Address/Fields/Laws.antt =====
-- What the fields of an address are, and when two addresses are equal (src/lcommunf.c).
use mathlib.Core.Path.{subst}
use coutil.Prelude.{
  ℕ, ◌≡◌, ◌↔◌, refl, true, false, some, List, [], ◌∷◌, ◌==◌, ltb, if◌then◌else◌, arith,
}
use coutil.Address.{
  Family, inet, inet6, other, Net, addrmaxport, fits, address_of, getaddrport, getaddrbytes,
}
use coutil.Address.Roundtrip.{IsNet}
use coutil.Address.Fields.{same_bytes, addr_eq}

same_bytes_refl : (bs : List ℕ) → same_bytes bs bs ≡ true
unfolding same_bytes
same_bytes_refl [] = refl
same_bytes_refl (b ∷ bs) = ground (arith, same_bytes_refl bs)

same_bytes_sound : (bs cs : List ℕ) → same_bytes bs cs ≡ true → bs ≡ cs
unfolding same_bytes
same_bytes_sound [] [] h = refl
same_bytes_sound (b ∷ bs) (c ∷ cs) h =
    let rest : bs ≡ cs = same_bytes_sound bs cs (ground arith) in
    let first : b ≡ c = ground arith in cc
same_bytes_sound [] (c ∷ cs) h = cc
same_bytes_sound (b ∷ bs) [] h = cc

same_iff :
    (f : Family) (p q : ℕ) (bs cs : List ℕ)
    → ((if p == q then same_bytes bs cs else false) ≡ true) ↔ ((f ≡ f) × (p ≡ q) × (bs ≡ cs))
same_iff f p q bs cs = (
  λ h. (refl, ground arith, same_bytes_sound bs cs (ground arith)),
  λ e.
      let b : same_bytes bs cs ≡ true =
        subst (λ x. same_bytes bs x ≡ true) e.2 (same_bytes_refl bs) in
      let x = e.1 in ground arith,
)

module _ (net : Net) (n : IsNet net) where
  -- Two addresses are equal for Lua exactly if their families, their ports and their bytes are.
  addr_eq_iff :
      (f g : Family) (p q : ℕ) (bs cs : List ℕ)
      → fits f bs ≡ true
      → fits g cs ≡ true
      → ltb addrmaxport p ≡ false
      → ltb addrmaxport q ≡ false
      → (addr_eq net (some (address_of net f p bs)) (some (address_of net g q cs)) ≡ true)
        ↔ ((f ≡ g) × (p ≡ q) × (bs ≡ cs))
  unfolding addr_eq getaddrport getaddrbytes
  addr_eq_iff inet inet p q bs cs f g h i =
      rw (getaddrport, n.ports p h, n.ports q i) (same_iff inet p q bs cs)
  addr_eq_iff inet6 inet6 p q bs cs f g h i =
      rw (getaddrport, n.ports p h, n.ports q i) (same_iff inet6 p q bs cs)
  addr_eq_iff inet inet6 p q bs cs f g h i = (λ e. cc, λ e. cc)
  addr_eq_iff inet6 inet p q bs cs f g h i = (λ e. cc, λ e. cc)
  addr_eq_iff other g p q bs cs f _ h i = cc
  addr_eq_iff f other p q bs cs f' g h i = cc
