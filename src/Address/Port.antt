-- ===== src/Address/Port.antt =====
-- The port of a URI (`mem2port` of src/lcommunf.c).
use coutil.Prelude.{
  ℕ, ◌+◌, ◌-◌, ◌*◌, ◌≡◌, refl, true, false, ◌||◌, Option, none, some, List, [], ◌∷◌, ltb, arith,
  if◌then◌else◌, Bool-cases, inl, inr, sym,
}
use coutil.Address.{addrmaxport}

-- One round of the loop, from `n` and the byte at `s`; `none` is `return 0`.
unfoldable pub add_digit : ℕ → ℕ → Option ℕ
add_digit n c =
    if ltb c 48 || ltb 57 c
    then none
    else if ltb addrmaxport (n * 10 + (c - 48))
    then none
    else some (n * 10 + (c - 48))

-- The loop from `n`; the byte at `s` and those behind it, before `e`.
unfoldable pub mem2port : ℕ → ℕ → List ℕ → Option ℕ
unfolding add_digit
mem2port n c [] = add_digit n c
mem2port n c (d ∷ rest) = elim (add_digit n c) [ none ↦ none | some n' ↦ mem2port n' d rest ]

-- The number that a text of digits stands for, whatever its size, behind one that stands for `n`.
abbrev pub value : ℕ → List ℕ → Option ℕ
value n [] = some n
value n (c ∷ rest) = if ltb c 48 || ltb 57 c then none else value (n * 10 + (c - 48)) rest

abbrev pub at_most : ℕ → Option ℕ → Option ℕ
at_most b none = none
at_most b (some p) = if ltb b p then none else some p

value-large :
    (n : ℕ) (text : List ℕ) → ltb addrmaxport n ≡ true → at_most addrmaxport (value n text) ≡ none
value-large n [] h = ground arith
value-large n (c ∷ rest) h = elim (Bool-cases (ltb c 48 || ltb 57 c)) [
  | inl t ↦ rw t refl
  | inr t ↦ rw t (value-large (n * 10 + (c - 48)) rest (ground arith))
]

-- From a number that is a port, `mem2port` accepts exactly the texts of decimal digits, of any
-- length, that stand for a number of at most LCU_ADDRMAXPORT, and gives that number.
pub mem2port-value :
    (n c : ℕ) (rest : List ℕ)
    → ltb addrmaxport n ≡ false
    → mem2port n c rest ≡ at_most addrmaxport (value n (c ∷ rest))
unfolding mem2port add_digit
mem2port-value n c [] h = ground arith
mem2port-value n c (d ∷ rest) h = elim (Bool-cases (ltb c 48 || ltb 57 c)) [
  | inl t ↦ rw (mem2port, add_digit, t) refl
  | inr t ↦ elim (Bool-cases (ltb addrmaxport (n * 10 + (c - 48)))) [
    | inl o ↦ rw (mem2port, add_digit, t, o) (sym (value-large (n * 10 + (c - 48)) (d ∷ rest) o))
    | inr o ↦ rw (mem2port, add_digit, t, o) (mem2port-value (n * 10 + (c - 48)) d rest o)
  ]
]
