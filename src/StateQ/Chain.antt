-- ===== src/StateQ/Chain.antt =====
-- What a chain of states stands for: the states from head to tail, in order.
use coutil.Prelude.{
  ◌≡◌, refl, ◌≢◌, List, [], ◌∷◌, ◌++◌, arith, ◌∈◌, ◌∉◌, Distinct, has-append, erase, ◌==◌, false,
}
use coutil.StateQ.{Ptr, null, Registries, StateQ, setnextstateq}

-- From `h` the registries lead through `xs` to the last state `t`.
abbrev pub Links : Registries → Ptr → Ptr → List Ptr → Type 0
Links r h t [] = (h ≡ null) × (t ≡ null)
Links r h t (x ∷ []) = (h ≡ x) × (t ≡ x) × (x ≢ null)
Links r h t (x ∷ y ∷ ys) = (h ≡ x) × (x ≢ null) × Links r (r x) t (y ∷ ys)

pub record IsQueue (r : Registries) (q : StateQ) (xs : List Ptr) : Type 0 where
  pub links : Links r q.head q.tail xs
  pub distinct : Distinct xs

abbrev pub Disjoint : List Ptr → List Ptr → Type 0
Disjoint xs ys = (a : Ptr) → a ∈ xs → a ∉ ys

-- A chain survives a write to a state that is not one of its own.
pub Links-set :
    (r : Registries) (h t : Ptr) (xs : List Ptr) (a v : Ptr)
    → Links r h t xs
    → a ∉ xs
    → Links (setnextstateq r a v) h t xs
unfolding setnextstateq
Links-set r h t [] a v l out = l
Links-set r h t (x ∷ []) a v l out = l
Links-set r h t (x ∷ y ∷ ys) a v (e, n, l) out =
    let same : setnextstateq r a v x ≡ r x = ground arith in
    (e, n, rw same (Links-set r (r x) t (y ∷ ys) a v l (ground arith)))

pub head-ne-null :
    (r : Registries) (h t x : Ptr) (xs : List Ptr)
    → Links r h t (x ∷ xs)
    → (h ≡ x) × ((x == null) ≡ false)
head-ne-null r h t x [] l = ground arith
head-ne-null r h t x (y ∷ ys) (e, n, l) = ground arith

pub tail-mem : (r : Registries) (h t x : Ptr) (xs : List Ptr) → Links r h t (x ∷ xs) → t ∈ x ∷ xs
tail-mem r h t x [] l = ground arith
tail-mem r h t x (y ∷ ys) (e, n, l) = ground (arith, tail-mem r (r x) t y ys l)

-- A second chain is hung behind the last state of the first.
pub Links-append :
    (r : Registries) (h t x : Ptr) (xs : List Ptr) (h2 t2 y : Ptr) (ys : List Ptr)
    → Links r h t (x ∷ xs)
    → Distinct (x ∷ xs)
    → Links r h2 t2 (y ∷ ys)
    → t ∉ y ∷ ys
    → Links (setnextstateq r t h2) h t2 (x ∷ xs ++ y ∷ ys)
unfolding setnextstateq
Links-append r h t x [] h2 t2 y ys (e, et, n) d l2 out =
    let here : setnextstateq r t h2 x ≡ h2 = ground arith in
    (e, n, rw here (Links-set r h2 t2 (y ∷ ys) t h2 l2 out))
Links-append r h t x (z ∷ zs) h2 t2 y ys (e, n, l) d l2 out =
    let same : setnextstateq r t h2 x ≡ r x = ground (arith, tail-mem r (r x) t z zs l) in
    (e, n, rw same (Links-append r (r x) t z zs h2 t2 y ys l d.1 l2 out))

pub Distinct-append :
    (xs ys : List Ptr) → Distinct xs → Distinct ys → Disjoint xs ys → Distinct (xs ++ ys)
Distinct-append [] ys d e apart = e
Distinct-append (x ∷ xs) ys (out, d) e apart = (
  rw (has-append, out) (apart x (ground arith)),
  Distinct-append xs ys d e (λ a m. apart a (ground arith)),
)

pub not-mem-erase : (a l : Ptr) (xs : List Ptr) → a ∉ xs → a ∉ erase l xs
unfolding erase
not-mem-erase a l [] out = refl
not-mem-erase a l (x ∷ xs) out = ground (arith, not-mem-erase a l xs)

pub Distinct-erase : (l : Ptr) (xs : List Ptr) → Distinct xs → Distinct (erase l xs)
unfolding erase
Distinct-erase l [] d = tt
Distinct-erase l (x ∷ xs) d = ground (arith, not-mem-erase x l xs, Distinct-erase l xs)

pub erase-eq_of_not_mem : (l : Ptr) (xs : List Ptr) → l ∉ xs → erase l xs ≡ xs
unfolding erase
erase-eq_of_not_mem l [] out = refl
erase-eq_of_not_mem l (x ∷ xs) out = ground (arith, erase-eq_of_not_mem l xs)
