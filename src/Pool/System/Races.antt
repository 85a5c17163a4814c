-- ===== src/Pool/System/Races.antt =====
-- Two windows of src/lthpool.c: between the moment when a worker gives its task away and the moment
-- when it takes the mutex again, and between the close of a pool and the end of its last task.
use coutil.Prelude.{ap, ◌∙◌, ◌+◌, ◌<◌, ◌≡◌, refl, true, false, [], ◌∷◌, arith}
use coutil.Prelude.Int.{sub_ℕ}
use coutil.StateQ.{Ptr}
use coutil.Pool.{ThreadPool, closed, spawn, addthread_mx}
use coutil.Pool.Close.{resumetask, destroyable}
use coutil.Pool.Count.{values, threads_count}
use coutil.Pool.Count.Options.{counter, counters, threads_count-counters}
use coutil.Pool.System.{System, Reach}
use coutil.Pool.System.Crew.{is_parked, number_of}
use coutil.Pool.System.Safety.{Reach-IsConsistent}

counters_suspended :
    (pool : ThreadPool)
    → counters pool (b's' ∷ []) ≡ values (sub_ℕ pool.tasks (pool.running + pool.pending) ∷ [])
unfolding counters counter
counters_suspended pool = refl

-- The `s` option of `threads:count` gives the number of suspended tasks less the number of workers
-- that have just suspended one and have not taken the mutex again. If the tasks of those workers
-- are resumed first, the result is negative.
suspended_count :
    {s : System}
    → Reach s
    → threads_count s.pool (b's' ∷ [])
      ≡ values (sub_ℕ (s.suspended + s.dropped) (number_of is_parked s.crew) ∷ [])
suspended_count {s} r =
    let c = Reach-IsConsistent r in
    threads_count-counters s.pool (b's' ∷ [])
    ∙ counters_suspended s.pool
    ∙ ap (λ v. values (v ∷ [])) (ground arith)

-- `addthread_mx` looks at the status only behind its attempt to start a thread. So a task that is
-- resumed in a closed pool with no thread and `size` above 0 starts a worker, although the task is
-- refused. If it was the last task, its finalizer then goes on to destroy the pool, where an
-- assertion of `lcuTP_destroytpool` fails.
pub resume_in_closed :
    (pool : ThreadPool) (l : Ptr)
    → pool.status ≡ closed
    → pool.threads ≡ 0
    → pool.idle ≡ 0
    → pool.tasks ≡ 1
    → 0 < pool.size
    → ((resumetask 0 pool l).1 ≡ spawn ∷ [])
      × ((resumetask 0 pool l).2 ≡ true)
      × (destroyable (resumetask 0 pool l).0 ≡ false)
unfolding resumetask addthread_mx destroyable
resume_in_closed pool l shut none_alive none_idle last room = ground arith
