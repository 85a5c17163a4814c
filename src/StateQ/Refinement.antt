-- ===== src/StateQ/Refinement.antt =====
-- The queue operations of src/lchaux.c against lists of states in arrival order.
use coutil.Prelude.{◌≡◌, refl, ◌≢◌, List, [], ◌∷◌, ◌++◌, true, false, arith, ◌==◌, ◌∉◌}
use coutil.StateQ.{
  Ptr, null, Registries, StateQ, state_q, setnextstateq, initstateq, appendstateq, enqueuestateq,
  dequeuestateq,
}
use coutil.StateQ.Chain.{
  IsQueue, Disjoint, Links-set, head-ne-null, tail-mem, Links-append, Distinct-append,
}

-- `appendstateq` concatenates: the second queue, which is not empty and shares no state with the
-- first, follows the first in order.
appendstateq-IsQueue :
    (r : Registries) (q q2 : StateQ) (xs : List Ptr) (y : Ptr) (ys : List Ptr)
    → IsQueue r q xs
    → IsQueue r q2 (y ∷ ys)
    → Disjoint xs (y ∷ ys)
    → IsQueue (appendstateq r q q2).0 (appendstateq r q q2).1 (xs ++ y ∷ ys)
unfolding appendstateq
appendstateq-IsQueue r q q2 [] y ys v w apart =
    rw (v.links.0) (record { links = w.links; distinct = w.distinct })
appendstateq-IsQueue r q q2 (x ∷ xs) y ys v w apart =
    let full = (head-ne-null r q.head q.tail x xs v.links).1 in
    rw ((head-ne-null r q.head q.tail x xs v.links).0, full)
      (record {
        links = rw (← (head-ne-null r q.head q.tail x xs v.links).0) (
            Links-append r q.head q.tail x xs q2.head q2.tail y ys v.links v.distinct w.links
              (apart q.tail (tail-mem r q.head q.tail x xs v.links)));
        distinct = Distinct-append (x ∷ xs) (y ∷ ys) v.distinct w.distinct apart;
      })

-- `lcuCS_enqueuestateq` puts a state that is not queued yet behind all others.
enqueuestateq-IsQueue :
    (r : Registries) (q : StateQ) (xs : List Ptr) (l : Ptr)
    → IsQueue r q xs
    → l ≢ null
    → l ∉ xs
    → IsQueue (enqueuestateq r q l).0 (enqueuestateq r q l).1 (xs ++ l ∷ [])
unfolding enqueuestateq
enqueuestateq-IsQueue r q xs l v n out =
    appendstateq-IsQueue r q (state_q l l) xs l [] v
      (record { links = (refl, refl, n); distinct = (refl, tt) }) (λ a m. ground (arith))

-- What `lcuCS_dequeuestateq` computes at a chain of one and of several states.
dequeuestateq-last :
    (r : Registries) (q : StateQ) (x : Ptr)
    → IsQueue r q (x ∷ [])
    → dequeuestateq r q ≡ (x, setnextstateq r x null, initstateq)
unfolding dequeuestateq setnextstateq
dequeuestateq-last r q x v =
    let last : (q.head == q.tail) ≡ true = ground arith in
    let full : (x == null) ≡ false = ground arith in rw (last, v.links.0, full)

dequeuestateq-more :
    (r : Registries) (q : StateQ) (x y : Ptr) (ys : List Ptr)
    → IsQueue r q (x ∷ y ∷ ys)
    → dequeuestateq r q ≡ (x, setnextstateq r x null, state_q (r x) q.tail)
unfolding dequeuestateq
dequeuestateq-more r q x y ys v =
    let full : (x == null) ≡ false = ground arith in
    let more : (x == q.tail) ≡ false = ground (arith, tail-mem r (r x) q.tail y ys v.links.2) in
    rw (v.links.0, full, more)

-- `lcuCS_dequeuestateq` takes the oldest state off and clears its link.
pub dequeuestateq-IsQueue :
    (r : Registries) (q : StateQ) (x : Ptr) (xs : List Ptr)
    → IsQueue r q (x ∷ xs)
    → ((dequeuestateq r q).0 ≡ x)
      × IsQueue (dequeuestateq r q).1 (dequeuestateq r q).2 xs
      × ((dequeuestateq r q).1 x ≡ null)
unfolding setnextstateq
dequeuestateq-IsQueue r q x [] v =
    rw (dequeuestateq-last r q x v)
      (refl, record { links = (refl, refl); distinct = tt }, ground arith)
dequeuestateq-IsQueue r q x (y ∷ ys) v = rw (dequeuestateq-more r q x y ys v) (
  refl,
  record {
    links = Links-set r (r x) q.tail (y ∷ ys) x null v.links.2 v.distinct.0;
    distinct = v.distinct.1;
  },
  ground arith,
)

-- On an empty queue it returns NULL and changes nothing.
pub dequeuestateq-nil :
    (r : Registries) (q : StateQ) → IsQueue r q [] → dequeuestateq r q ≡ (null, r, q)
unfolding dequeuestateq
dequeuestateq-nil r q v = rw (v.links.0)
