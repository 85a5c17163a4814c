-- ===== src/Pool.antt =====
-- The thread pool of src/lthpool.c: its state under `pool->mutex`, and the critical sections of its
-- functions. The queue of pending tasks is the list of states that StateQ.Refinement shows
-- `lcu_StateQ` to stand for. `flags` is split in the status of the pool and `JOIN_PENDING`. The
-- functions return the calls of libuv that they make, in order. The answer of `uv_thread_create`
-- is an argument: 0 for success, else the error's number.
pub mod Worker
pub mod Turns
pub mod Close
pub mod Create
pub mod Count
pub mod System
use coutil.Prelude.{
  ℕ, zero, suc, ◌+◌, ◌-◌, Bool, true, false, ◌&&◌, not, List, [], ◌∷◌, ◌++◌, ltb, leb, ◌==◌,
  if◌then◌else◌,
}
use coutil.StateQ.{Ptr, null}

pub data Status : Type 0 where
  open_pool closing closed : Status

pub record ThreadPool : Type 0 where
  pub status : Status
  pub join_pending : Bool
  pub size : ℕ  -- expected number of system threads
  pub threads : ℕ  -- current number of system threads
  pub idle : ℕ  -- number of system threads waiting on `onwork`
  pub tasks : ℕ  -- total number of tasks in the pool
  pub running : ℕ  -- number of system threads running tasks
  pub pending : ℕ  -- number of tasks in `queue`
  pub queue : List Ptr
  pub last_terminated : ℕ  -- terminated worker thread pending join

-- The fields that `lcuTP_createtpool` sets. No thread has terminated: `last_terminated` is garbage,
-- which `join_pending` keeps from being read.
abbrev pub new_pool : ThreadPool
new_pool = record {
  status = open_pool;
  join_pending = false;
  size = 0;
  threads = 0;
  idle = 0;
  tasks = 0;
  running = 0;
  pending = 0;
  queue = [];
  last_terminated = 0;
}

-- Calls into libuv and into Lua's warning system.
pub data Effect : Type 0 where
  signal_onwork broadcast_onwork signal_onterm spawn : Effect
  join : ℕ → Effect
  warn : ℕ → Effect

abbrev pub is_closed : Status → Bool
is_closed open_pool = false
is_closed closing = false
is_closed closed = true

abbrev pub is_closing : Status → Bool
is_closing open_pool = false
is_closing closing = true
is_closing closed = false

-- `lcuCS_dequeuestateq` on the list of states.
abbrev pub dequeue : List Ptr → Ptr × List Ptr
dequeue [] = (null, [])
dequeue (l ∷ ls) = (l, ls)

unfoldable pub hasextraidle_mx : ThreadPool → Bool
hasextraidle_mx pool = ltb pool.size pool.threads && ltb 0 pool.idle

unfoldable pub checkhalted_mx : ThreadPool → ThreadPool × List Effect
checkhalted_mx pool =
    if pool.tasks == 0 && ltb 0 pool.size
    then (record pool { size = 0 }, broadcast_onwork ∷ [])
    else (pool, [])

-- The first half of `addthread_mx`. `threads-running-idle <= pending`, where the difference may be
-- negative in C, is written with the terms on the other side.
start_thread : ℕ → ThreadPool → ThreadPool × List Effect
start_thread err pool =
    if leb pool.threads (pool.pending + pool.running + pool.idle)
    then (if ltb 0 pool.idle
        then (pool, signal_onwork ∷ [])
        else if ltb pool.threads pool.size
        then (if err == 0
            then (record pool { threads = pool.threads + 1 }, spawn ∷ [])
            else (pool, warn err ∷ []))
        else (pool, []))
    else (pool, [])

unfoldable pub addthread_mx : ℕ → ThreadPool → Ptr → Bool × ThreadPool × List Effect
unfolding start_thread
addthread_mx err pool l =
    let (pool', effects) = start_thread err pool in
    if is_closed pool'.status then (false, pool', effects) else (
      true,
      record pool' { queue = pool'.queue ++ l ∷ []; pending = pool'.pending + 1 },
      effects,
    )

-- The critical section of `lcuTP_addtpooltask`.
unfoldable pub addtpooltask : ℕ → ThreadPool → Ptr → Bool × ThreadPool × List Effect
unfolding addthread_mx
addtpooltask err pool l =
    let (added, pool', effects) = addthread_mx err pool l in
    (added, record pool' { tasks = pool'.tasks + 1 }, effects)

-- The `while (newthreads--)` of `lcuTP_resizetpool`: the answers of `uv_thread_create` are given by
-- the number of rounds left.
create_threads : ℕ → (ℕ → ℕ) → ThreadPool → ℕ × ThreadPool × List Effect
create_threads zero answer pool = (0, pool, [])
create_threads (suc n) answer pool =
    let (err, pool', effects) =
      create_threads n answer (record pool { threads = pool.threads + 1 }) in
    if answer n == 0 then (err, pool', spawn ∷ effects) else (answer n, pool, [])

-- How many threads `lcuTP_resizetpool` sets out to create when the size grows by `wanted`.
new_threads : Bool → ℕ → ℕ → ℕ
new_threads create pending wanted =
    if (if create then false else ltb pending wanted) then pending else wanted

-- `lcuTP_resizetpool`: the error number, the pool, and the calls made.
unfoldable pub resizetpool : (ℕ → ℕ) → ThreadPool → ℕ → Bool → ℕ × ThreadPool × List Effect
unfolding create_threads new_threads hasextraidle_mx
resizetpool answer pool size create =
    let pool' = record pool { size = size } in
    if ltb pool.size size
    then create_threads (new_threads create pool.pending (size - pool.size)) answer pool'
    else (0, pool', if hasextraidle_mx pool' then signal_onwork ∷ [] else [])
