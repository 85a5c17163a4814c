-- ===== src/Pool/Close.antt =====
-- The end of a thread pool of src/lthpool.c: `lcuTP_closetpool`, `lcuTP_destroytpool`, the finalizer
-- of a task, and `lcuTP_resumetask`, which closes a task that the pool does not take.
use coutil.Prelude.{
  ℕ, ◌-◌, Bool, true, false, ◌&&◌, Option, none, some, List, [], ◌∷◌, ltb, ◌==◌, if◌then◌else◌,
}
use coutil.StateQ.{Ptr}
use coutil.Pool.{ThreadPool, closing, closed, Effect, join, is_closed, checkhalted_mx, addthread_mx}

-- The assertions at the head of `lcuTP_destroytpool`.
unfoldable pub destroyable : ThreadPool → Bool
destroyable pool =
    is_closed pool.status
    && (pool.threads == 0)
    && (pool.idle == 0)
    && (pool.tasks == 0)
    && (pool.running == 0)
    && (pool.pending == 0)
    && elim pool.queue [ [] ↦ true | _ ↦ false ]

-- `lcuTP_destroytpool`: `none` is a failed assertion; else the thread that it joins.
unfoldable pub destroytpool : ThreadPool → Option (List Effect)
unfolding destroyable
destroytpool pool =
    if destroyable pool
    then some (if pool.join_pending then join pool.last_terminated ∷ [] else [])
    else none

-- `lcuTP_closetpool`, first critical section: up to the first wait, or to the end of the loop.
unfoldable pub close_begin : ThreadPool → ThreadPool
close_begin pool = record pool { status = closing }

-- One round of its loop, which is left when no thread is left.
unfoldable pub close_round : ThreadPool → Option (ThreadPool × List Effect)
unfolding checkhalted_mx
close_round pool = if ltb 0 pool.threads then some (checkhalted_mx pool) else none

-- What the closing thread does after it gave the mutex up.
pub data AfterClose : Type 0 where
  destroy : AfterClose  -- no task is left
  close_states : List Ptr → AfterClose  -- `lua_close` of the pending tasks

-- Behind the loop: the pool, marked as closed, and what follows.
unfoldable pub close_end : ThreadPool → ThreadPool × AfterClose
close_end pool = (
  record pool { pending = 0; queue = []; status = closed },
  if pool.tasks == 0
      then destroy
      else if ltb 0 pool.pending
      then close_states pool.queue
      else close_states [],
)

-- `collectthreadpool`, the finalizer that `lua_close` of a task runs, and whether it destroys the
-- pool.
unfoldable pub collectthreadpool : ThreadPool → ThreadPool × Bool
collectthreadpool pool =
    let tasks = pool.tasks - 1 in
    (record pool { tasks = tasks }, is_closed pool.status && (tasks == 0))

-- `lcuTP_resumetask` with the finalizer of a task that is closed: the last component tells whether
-- the pool shall be destroyed.
unfoldable pub resumetask : ℕ → ThreadPool → Ptr → ThreadPool × List Effect × Bool
unfolding collectthreadpool
resumetask err pool l =
    let (added, pool', effects) = addthread_mx err pool l in
    if added
    then (pool', effects, false)
    else (let (collected, last) = collectthreadpool pool' in (collected, effects, last))
