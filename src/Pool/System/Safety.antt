-- ===== src/Pool/System/Safety.antt =====
-- What holds of a thread pool and its workers in every reachable state.
use coutil.Prelude.{ap, ◌∙◌, ℕ, ◌+◌, ◌≤◌, ◌≡◌, ◌≢◌, true, false, List, [], ◌∷◌, ◌++◌, arith}
use coutil.Pool.{Effect, addtpooltask, resizetpool, ThreadPool, closed, is_closed}
use coutil.Pool.Worker.{Pc}
use coutil.Pool.Close.{destroyable, resumetask}
use coutil.Pool.System.{
  System, recruit, Step, work, resume, add, resize, start_close, wait_close, end_close,
  drop_pending, drop_suspended, Reach, start, later,
}
use coutil.Pool.System.Crew.{
  spawned, is_alive, is_waiting, is_busy, is_parked, number_of, number_of-middle, number_of-recruit,
}
use coutil.Pool.System.Invariant.{Counts, Move-Counts}
use coutil.Pool.System.Calls.{
  resumetask-Counts, addtpooltask-Counts, resizetpool-Counts, close_begin-Counts,
  close_round-Counts, collectthreadpool-Counts, close_end-Counts,
}

-- The counters of the pool say how many workers are alive, wait and run tasks, how long the queue
-- is, and how many tasks there are: in the queue, with a worker, or away. A closed pool has no task
-- in the queue or with a worker.
abbrev pub IsConsistent : System → Type 0
IsConsistent s =
    Counts s.pool (number_of is_alive s.crew) (number_of is_waiting s.crew)
      (number_of is_busy s.crew) (number_of is_parked s.crew) (s.suspended + s.dropped)

standing-le-alive :
    (crew : List Pc)
    → number_of is_waiting crew + number_of is_busy crew + number_of is_parked crew
      ≤ number_of is_alive crew
standing-le-alive [] = omega arith
standing-le-alive (pc ∷ crew) = ground (arith, standing-le-alive crew)

not_closed : (pool : ThreadPool) → pool.status ≢ closed → is_closed pool.status ≡ false
not_closed pool h = ground arith

at :
    (f : Pc → ℕ) (before : List Pc) (pc : Pc) (after : List Pc) {crew : List Pc}
    → crew ≡ before ++ pc ∷ after
    → number_of f crew ≡ number_of f (before ++ after) + f pc
at f before pc after e = ap (number_of f) e ∙ number_of-middle f before pc after

-- New threads are in no state but alive.
recruited :
    (s : System) (effects : List Effect) {pool : ThreadPool} {n : ℕ}
    → Counts pool
        (spawned effects + number_of is_alive s.crew)
        (number_of is_waiting s.crew)
        (number_of is_busy s.crew)
        (number_of is_parked s.crew)
        n
    → Counts pool
        (number_of is_alive (recruit effects s.crew))
        (number_of is_waiting (recruit effects s.crew))
        (number_of is_busy (recruit effects s.crew))
        (number_of is_parked (recruit effects s.crew))
        n
recruited s effects c = ground (
  arith,
  number_of-recruit is_alive effects s.crew,
  number_of-recruit is_waiting effects s.crew,
  number_of-recruit is_busy effects s.crew,
  number_of-recruit is_parked effects s.crew,
)

-- Every step of a worker and every call of another thread keeps `IsConsistent`.
Step-IsConsistent : {s t : System} → Step s t → IsConsistent s → IsConsistent t
Step-IsConsistent {s} (work self before after {pc} {pc'} {pool'} e mv) c =
    let rest = before ++ after in
    let before_move =
      Move-Counts (number_of is_alive rest) (number_of is_waiting rest) (number_of is_busy rest)
        (number_of is_parked rest) s.dropped mv
        (ground (
          arith,
          at is_alive before pc after e,
          at is_waiting before pc after e,
          at is_busy before pc after e,
          at is_parked before pc after e,
        )) in
    ground (
      arith,
      number_of-middle is_alive before pc' after,
      number_of-middle is_waiting before pc' after,
      number_of-middle is_busy before pc' after,
      number_of-middle is_parked before pc' after,
    )
Step-IsConsistent {s} (resume err l {n} e) c =
    recruited s (resumetask err s.pool l).1 (resumetask-Counts err s.pool l (ground arith))
Step-IsConsistent {s} (add err l live) c =
    recruited s (addtpooltask err s.pool l).2 (addtpooltask-Counts err s.pool l (ground arith) c)
Step-IsConsistent {s} (resize answer size create live) c =
    recruited s (resizetpool answer s.pool size create).2
      (resizetpool-Counts answer s.pool size create (ground arith) c)
Step-IsConsistent {s} (start_close e) c = close_begin-Counts s.pool c
Step-IsConsistent {s} (wait_close {pool'} e r) c =
    close_round-Counts s.pool pool' (ground arith) c r
Step-IsConsistent {s} (end_close e r) c =
    let c' = close_end-Counts s.pool (standing-le-alive s.crew) c r in ground arith
Step-IsConsistent {s} (drop_pending {n} e) c =
    collectthreadpool-Counts {y = s.suspended + n} s.pool (ground arith)
Step-IsConsistent {s} (drop_suspended {n} e) c = collectthreadpool-Counts s.pool (ground arith)

-- In every reachable state of a pool the counters count: `threads` the workers alive, `idle` those
-- that wait, `running` those that run a task or have just given one away, `pending` the states in
-- the queue, and `tasks` the pending tasks, those that workers have, and those that are suspended
-- on channels or that `lcuTP_closetpool` is about to close.
pub Reach-IsConsistent : {s : System} → Reach s → IsConsistent s
Reach-IsConsistent start = ground arith
Reach-IsConsistent (later r st) = Step-IsConsistent st (Reach-IsConsistent r)

-- In a reachable state where the pool is closed, `size` is 0 and no task is left, each assertion at
-- the head of `lcuTP_destroytpool` holds.
pub destroyable_when_closed :
    {s : System}
    → Reach s
    → s.pool.status ≡ closed
    → s.pool.size ≡ 0
    → s.pool.tasks ≡ 0
    → destroyable s.pool ≡ true
unfolding destroyable
destroyable_when_closed {s} r shut small none_left =
    let c = Reach-IsConsistent r in let few = standing-le-alive s.crew in ground arith
