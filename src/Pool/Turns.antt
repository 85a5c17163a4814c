-- ===== src/Pool/Turns.antt =====
-- The inner loop of a worker (`threadmain` of src/lthpool.c) ends, and how.
use coutil.Prelude.{
  ◌+◌, ◌-◌, ◌≤◌, ◌<◌, ◌≡◌, refl, ◌⊎◌, inl, inr, false, ◌&&◌, some, List, ◌∷◌, arith, ltb, ◌==◌,
  Bool-cases, length, [],
}
use coutil.StateQ.{Ptr}
use coutil.Pool.{ThreadPool, closing, is_closing}
use coutil.Pool.Worker.{Turn, ended, picked, waits, inner_loop}

-- The condition under which the loop is left so, of the pool before and after.
abbrev pub Outcome : ThreadPool → Turn → ThreadPool → Type 0
Outcome pool ended pool' =
    (pool'.size < pool'.threads)
    × ((pool.size < pool.threads) ⊎ ((pool.status ≡ closing) × (pool.tasks ≡ 0) × (pool'.size ≡ 0)))
Outcome pool (picked l) pool' =
    (pool.threads ≤ pool.size)
    × (pool.queue ≡ l ∷ pool'.queue)
    × (pool'.running ≡ pool.running + 1)
    × (pool.pending ≡ pool'.pending + 1)
Outcome pool waits pool' =
    (pool.threads ≤ pool.size)
    × (pool.pending ≡ 0)
    × ((is_closing pool.status && (pool.tasks == 0)) ≡ false)
    × (pool' ≡ record pool { idle = pool.idle + 1 })

uncons : (ls : List Ptr) → 0 < length ls → (l : Ptr) × (rest : List Ptr) × (ls ≡ l ∷ rest)
uncons [] h = absurd (omega arith)
uncons (l ∷ rest) h = (l, rest, refl)

-- With a thread alive and the queue as long as `pending` says, two rounds of the inner loop of
-- `threadmain` are enough. The worker ends if the pool has too many threads, or is halted: closing,
-- with no task left. It takes the oldest task if there is one, and else it waits.
pub inner_loop-Outcome :
    (pool : ThreadPool)
    → 0 < pool.threads
    → pool.pending ≡ length pool.queue
    → (t : Turn) × (pool' : ThreadPool) × (inner_loop 2 pool ≡ some (t, pool'))
      × Outcome pool t pool'
unfolding inner_loop
inner_loop-Outcome pool alive whole = elim (Bool-cases (ltb pool.size pool.threads)) [
  | inl many ↦ (ended, pool, rw many, (ground arith, inl (ground arith)))
  | inr few ↦ elim (Bool-cases (ltb 0 pool.pending)) [
    | inl work ↦
        let (l, rest, e) = uncons pool.queue (ground arith) in
        (
          picked l,
          record pool { pending = pool.pending - 1; queue = rest; running = pool.running + 1 },
          ground arith,
          (ground arith, e, refl, ground arith),
        )
    | inr nothing ↦ elim (Bool-cases (is_closing pool.status && (pool.tasks == 0))) [
      | inl halted ↦ (
        ended,
        record pool { size = 0 },
        ground arith,
        (ground arith, inr (ground arith, ground arith, refl)),
      )
      | inr live ↦ (
        waits,
        record pool { idle = pool.idle + 1 },
        ground arith,
        (ground arith, ground arith, live, refl),
      )
    ]
  ]
]
