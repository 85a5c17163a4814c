-- ===== src/StateQ/Removal.antt =====
-- `lcuCS_removestateq` of src/lchaux.c takes a state off wherever it stands in the queue.
use mathlib.Core.Path.{subst}
use coutil.Prelude.{
  sym, ◌∙◌, ℕ, suc, zero, ◌≤◌, ◌<◌, ◌≡◌, refl, List, [], ◌∷◌, true, false, some, inl, inr, arith,
  ◌==◌, if◌then◌else◌, Bool-cases, length, has, ◌∉◌, Distinct, erase,
}
use coutil.StateQ.{
  Ptr, null, Registries, StateQ, state_q, setnextstateq, dequeuestateq, unlink, remove_loop,
  removestateq,
}
use coutil.StateQ.Chain.{
  Links, IsQueue, Links-set, head-ne-null, tail-mem, not-mem-erase, Distinct-erase,
}
use coutil.StateQ.Refinement.{dequeuestateq-IsQueue}

-- What a removal of `l` from the states `xs` behind `p` leaves: the result, the new chain, and the
-- registries of other states as they were.
abbrev Removed : Registries → Ptr → Ptr → List Ptr → StateQ → Ptr × Registries × StateQ → Type 0
Removed r l p xs q (res, r', q') =
    (res ≡ (if has l xs then l else null))
    × Links r' p q'.tail (p ∷ erase l xs)
    × (q'.head ≡ q.head)
    × ((a : Ptr) → a ∉ p ∷ xs → r' a ≡ r a)

unlink-last :
    (r : Registries) (q : StateQ) (l p : Ptr)
    → q.tail ≡ l
    → unlink r q p l ≡ (l, setnextstateq (setnextstateq r p null) l null, state_q q.head p)
unfolding unlink
unlink-last r q l p e = let hit : (l == q.tail) ≡ true = ground arith in rw hit

unlink-more :
    (r : Registries) (q : StateQ) (l p z : Ptr) (zs : List Ptr)
    → Links r (r l) q.tail (z ∷ zs)
    → l ∉ z ∷ zs
    → unlink r q p l ≡ (l, setnextstateq (setnextstateq r p (r l)) l null, q)
unfolding unlink
unlink-more r q l p z zs links out =
    let miss : (l == q.tail) ≡ false = ground (arith, tail-mem r (r l) q.tail z zs links) in rw miss

erase-head : (l : Ptr) (ys : List Ptr) → erase l (l ∷ ys) ≡ ys
unfolding erase
erase-head l ys = ground arith

has-head : (l : Ptr) (ys : List Ptr) → has l (l ∷ ys) ≡ true
has-head l ys = ground arith

erase-nil : (l : Ptr) → erase l [] ≡ []
unfolding erase
erase-nil l = refl

erase-tail : (l y : Ptr) (ys : List Ptr) → (y == l) ≡ false → erase l (y ∷ ys) ≡ y ∷ erase l ys
unfolding erase
erase-tail l y ys h = ground arith

-- The node behind `p` is the one that goes.
unlink-Removed :
    (r : Registries) (q : StateQ) (l p : Ptr) (ys : List Ptr)
    → Links r p q.tail (p ∷ l ∷ ys)
    → Distinct (p ∷ l ∷ ys)
    → Removed r l p (l ∷ ys) q (unlink r q p l)
unfolding setnextstateq
unlink-Removed r q l p [] links d =
    rw (unlink-last r q l p links.2.1, erase-head l [], has-head l [])
      (refl, (refl, refl, links.1), refl, ground arith)
unlink-Removed r q l p (z ∷ zs) links d =
    let behind = links.2.2 in
    let r' = setnextstateq (setnextstateq r p (r l)) l null in
    let skips : r' p ≡ r l = ground arith in
    rw (unlink-more r q l p z zs links.2.2 d.1.0, erase-head l (z ∷ zs), has-head l (z ∷ zs))
      (
        refl,
        (
          refl,
          links.1,
          rw skips (
              Links-set (setnextstateq r p (r l)) (r l) q.tail (z ∷ zs) l null
                (Links-set r (r l) q.tail (z ∷ zs) p (r l) links.2.2 (ground arith)) d.1.0),
        ),
        refl,
        ground arith,
      )

-- The three ways through one round of the loop.
module _ (fuel : ℕ) (r : Registries) (q : StateQ) (l p : Ptr) where
  remove_loop-end : q.tail ≡ p → remove_loop (suc fuel) r q l p ≡ some (null, r, q)
  unfolding remove_loop
  remove_loop-end e = let last : (p == q.tail) ≡ true = ground arith in rw last

  remove_loop-hit :
      (p == q.tail) ≡ false → r p ≡ l → remove_loop (suc fuel) r q l p ≡ some (unlink r q p l)
  unfolding remove_loop
  remove_loop-hit e h = let hit : (r p == l) ≡ true = ground arith in rw (e, hit)

  remove_loop-next :
      (p == q.tail) ≡ false
      → (r p == l) ≡ false
      → remove_loop (suc fuel) r q l p ≡ remove_loop fuel r q l (r p)
  unfolding remove_loop
  remove_loop-next e h = rw (e, h)

-- One more state in front of a removal.
Removed-cons :
    (r : Registries) (q : StateQ) (l p y : Ptr) (ys : List Ptr) (out : Ptr × Registries × StateQ)
    → Links r p q.tail (p ∷ y ∷ ys)
    → Distinct (p ∷ y ∷ ys)
    → (y == l) ≡ false
    → Removed r l y ys q out
    → Removed r l p (y ∷ ys) q out
Removed-cons r q l p y ys (res, r', q') links d ne (er, el, eh, same) =
    let still : r' p ≡ r p = same p d.0 in
    let next = (head-ne-null r (r p) q.tail y ys links.2).0 in
    rw (erase-tail l y ys ne)
      (ground arith, (refl, links.1, rw (still, next) el), eh, ground (arith, same))

remove_loop-Removed :
    (fuel : ℕ) (r : Registries) (q : StateQ) (l p : Ptr) (xs : List Ptr)
    → Links r p q.tail (p ∷ xs)
    → Distinct (p ∷ xs)
    → length xs < fuel
    → (out : Ptr × Registries × StateQ) × (remove_loop fuel r q l p ≡ some out)
      × Removed r l p xs q out
remove_loop-Removed zero r q l p xs links d h = absurd (omega arith)
remove_loop-Removed (suc fuel) r q l p [] links d h = (
  (null, r, q),
  remove_loop-end fuel r q l p links.1,
  (refl, rw (erase-nil l) links, refl, λ a o. refl),
)
remove_loop-Removed (suc fuel) r q l p (y ∷ ys) links d h =
    let (next, full) = head-ne-null r (r p) q.tail y ys links.2 in
    let inner : (p == q.tail) ≡ false = ground (arith, tail-mem r (r p) q.tail y ys links.2) in
    elim (Bool-cases (y == l)) [
      | inl hit ↦
          let e : y ≡ l = ground arith in
          (
            unlink r q p l,
            remove_loop-hit fuel r q l p inner (next ∙ e),
            subst
                (λ z.
                  Links r p q.tail (p ∷ z ∷ ys)
                  → Distinct (p ∷ z ∷ ys)
                  → Removed r l p (z ∷ ys) q (unlink r q p l))
                (sym e) (unlink-Removed r q l p ys) links d,
          )
      | inr miss ↦
          let on : (r p == l) ≡ false = rw next miss in
          let (out, e, rest) =
            remove_loop-Removed fuel r q l y ys
              (subst (λ z. Links r z q.tail (y ∷ ys)) next links.2) d.1 (omega arith) in
          (
            out,
            remove_loop-next fuel r q l p inner on ∙ rw next e,
            Removed-cons r q l p y ys out links d miss rest,
          )
    ]

module _ (fuel : ℕ) (r : Registries) (q : StateQ) (l x : Ptr) (xs : List Ptr)
    (v : IsQueue r q (x ∷ xs)) where
  removestateq-head : (l == x) ≡ true → removestateq fuel r q l ≡ some (dequeuestateq r q)
  unfolding removestateq
  removestateq-head hit =
      let (first, full) = head-ne-null r q.head q.tail x xs v.links in rw (first, full, hit)

  removestateq-behind : (l == x) ≡ false → removestateq fuel r q l ≡ remove_loop fuel r q l x
  unfolding removestateq
  removestateq-behind miss =
      let (first, full) = head-ne-null r q.head q.tail x xs v.links in rw (first, full, miss)

-- `lcuCS_removestateq` takes a queued state off, wherever it stands, and keeps the order of the
-- others; for a state that is not queued it returns NULL and the queue stays. A number of rounds
-- that is no less than the number of queued states is enough.
pub removestateq-IsQueue :
    (fuel : ℕ) (r : Registries) (q : StateQ) (xs : List Ptr) (l : Ptr)
    → IsQueue r q xs
    → length xs ≤ fuel
    → (out : Ptr × Registries × StateQ) × (removestateq fuel r q l ≡ some out)
      × (out.0 ≡ (if has l xs then l else null))
      × IsQueue out.1 out.2 (erase l xs)
unfolding removestateq
removestateq-IsQueue fuel r q [] l v h = ((null, r, q), rw (v.links.0), refl, rw (erase-nil l) v)
removestateq-IsQueue fuel r q (x ∷ xs) l v h = elim (Bool-cases (l == x)) [
  | inl hit ↦
      let (first, rest, _) = dequeuestateq-IsQueue r q x xs v in
      let e : l ≡ x = ground arith in
      (
        dequeuestateq r q,
        removestateq-head fuel r q l x xs v hit,
        first ∙ ground arith,
        rw (e, erase-head x xs) rest,
      )
  | inr miss ↦
      let (first, full) = head-ne-null r q.head q.tail x xs v.links in
      let behind : (x == l) ≡ false = ground arith in
      let (out, e, (res, chain, top, _)) =
        remove_loop-Removed fuel r q l x xs (subst (λ z. Links r z q.tail (x ∷ xs)) first v.links)
          v.distinct (omega arith) in
      (
        out,
        removestateq-behind fuel r q l x xs v miss ∙ e,
        res ∙ ground arith,
        rw (erase-tail l x xs behind) (record {
          links = subst (λ z. Links out.1 z out.2.tail (x ∷ erase l xs)) (sym (top ∙ first)) chain;
          distinct = (not-mem-erase x l xs v.distinct.0, Distinct-erase l xs v.distinct.1);
        }),
      )
]
