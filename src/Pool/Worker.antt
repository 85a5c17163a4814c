-- ===== src/Pool/Worker.antt =====
-- One worker thread of src/lthpool.c (`threadmain`): what it does from one point where it gives the
-- mutex up to the next.
use mathlib.Core.Option
use coutil.Prelude.{
  ℕ, zero, suc, ◌+◌, ◌-◌, Bool, true, ◌&&◌, Option, none, some, List, [], ◌∷◌, ◌++◌, ltb, ◌==◌,
  if◌then◌else◌,
}
use coutil.StateQ.{Ptr}
use coutil.Pool.{
  ThreadPool, Effect, signal_onwork, signal_onterm, join, is_closing, dequeue, hasextraidle_mx,
  checkhalted_mx,
}

-- How the inner `while` is left.
pub data Turn : Type 0 where
  ended : Turn  -- `goto thread_end`
  picked : Ptr → Turn  -- `break` with a task
  waits : Turn  -- in `uv_cond_wait`, the mutex given up

-- The inner `while` of `threadmain`; `none` means that the fuel ran out.
unfoldable pub inner_loop : ℕ → ThreadPool → Option (Turn × ThreadPool)
inner_loop zero pool = none
inner_loop (suc fuel) pool =
    let halted = inner_loop fuel (record pool { size = 0 }) in
    if ltb pool.size pool.threads
    then some (ended, pool)
    else if ltb 0 pool.pending
    then (let (l, rest) = dequeue pool.queue in
        some (
          picked l,
          record pool { pending = pool.pending - 1; queue = rest; running = pool.running + 1 },
        ))
    else if is_closing pool.status && pool.tasks == 0
    then halted
    else some (waits, record pool { idle = pool.idle + 1 })

-- Behind `thread_end:`, in the thread `self`.
unfoldable pub thread_end : ℕ → ThreadPool → ThreadPool × List Effect
unfolding hasextraidle_mx checkhalted_mx
thread_end self pool0 =
    let pool = record pool0 { threads = pool0.threads - 1 } in
    let (pool', effects) =
      if hasextraidle_mx pool
      then (pool, signal_onwork ∷ [])
      else if is_closing pool.status
      then (if pool.threads == 0 then (pool, signal_onterm ∷ []) else checkhalted_mx pool)
      else (pool, []) in
    (
      record pool' { join_pending = true; last_terminated = self },
      effects ++ (if pool'.join_pending then join pool'.last_terminated ∷ [] else []),
    )

-- The critical section behind `lua_resume`: `enqueue` and whether the task yielded.
unfoldable pub after_run : Bool → Bool → ThreadPool → Ptr → ThreadPool
after_run enqueue yielded pool l =
    let pool' = record pool { running = pool.running - 1 } in
    if enqueue
    then record pool' { pending = pool'.pending + 1; queue = pool'.queue ++ l ∷ [] }
    else if yielded
    then pool'
    else record pool' { tasks = pool'.tasks - 1 }

-- Behind `uv_cond_wait`.
unfoldable pub awake : ThreadPool → ThreadPool
awake pool = record pool { idle = pool.idle - 1 }

-- Where a worker stands when it does not hold the mutex.
pub data Pc : Type 0 where
  starting : Pc  -- created, before `uv_mutex_lock`
  waiting : Pc  -- in `uv_cond_wait`
  busy : Ptr → Pc  -- running a task, or deciding where it goes next
  parked : Pc  -- the task is suspended on a channel, and others may resume it already
  gone : Pc  -- returned

-- How the mutex is given up behind the inner loop.
unfoldable pub settle : ℕ → Turn × ThreadPool → Pc × ThreadPool × List Effect
settle self (ended, pool) = (gone, (thread_end self pool).0, (thread_end self pool).1)
settle self (picked l, pool) = (busy l, pool, [])
settle self (waits, pool) = (waiting, pool, [])

-- From the head of the inner loop to where the mutex is given up next: two rounds are enough.
unfoldable pub turn : ℕ → ThreadPool → Option (Pc × ThreadPool × List Effect)
turn self pool = Option.map (settle self) (inner_loop 2 pool)
