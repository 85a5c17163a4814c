-- ===== src/Pool/System.antt =====
-- A thread pool of src/lthpool.c with its workers: every interleaving of their critical sections with
-- the calls that other threads make.
pub mod Crew
pub mod Invariant
pub mod Calls
pub mod Safety
pub mod Races
use coutil.Prelude.{
  ℕ, zero, suc, ◌+◌, ◌-◌, ◌<◌, ◌≡◌, ◌≢◌, Bool, true, false, none, some, List, [], ◌∷◌, ◌++◌, length,
}
use coutil.StateQ.{Ptr, null}
use coutil.Pool.{
  ThreadPool, new_pool, open_pool, closing, closed, Effect, spawn, addtpooltask, resizetpool,
}
use coutil.Pool.Worker.{Pc, starting, waiting, busy, parked, turn, after_run, awake}
use coutil.Pool.Close.{
  close_begin, close_round, AfterClose, close_states, close_end, collectthreadpool, resumetask,
}

-- `suspended` counts the tasks that wait on a channel, and `dropped` the pending tasks that
-- `lcuTP_closetpool` took out and that are still to be closed.
pub record System : Type 0 where
  pub pool : ThreadPool
  pub crew : List Pc
  pub suspended : ℕ
  pub dropped : ℕ

-- A move of the worker `self` from where it gave the mutex up. `away` counts the tasks that no
-- worker and no queue of the pool has.
pub data Move (self : ℕ) (pool : ThreadPool) (away : ℕ) : Pc → Pc → ThreadPool → ℕ → Type 0 where
  begin :
      {pc : Pc} {pool' : ThreadPool} {effects : List Effect}
      → turn self pool ≡ some (pc, pool', effects)
      → Move self pool away starting pc pool' away
  wake :
      {pc : Pc} {pool' : ThreadPool} {effects : List Effect}
      → turn self (awake pool) ≡ some (pc, pool', effects)
      → Move self pool away waiting pc pool' away
  requeue :
      {l : Ptr} {pc : Pc} {pool' : ThreadPool} {effects : List Effect}
      → turn self (after_run true true pool l) ≡ some (pc, pool', effects)
      → Move self pool away (busy l) pc pool' away
  finish :
      {l : Ptr} {pc : Pc} {pool' : ThreadPool} {effects : List Effect}
      → turn self (after_run false false pool l) ≡ some (pc, pool', effects)
      → Move self pool away (busy l) pc pool' away
  park : {l : Ptr} → Move self pool away (busy l) parked pool (suc away)
  back :
      {pc : Pc} {pool' : ThreadPool} {effects : List Effect}
      → turn self (after_run false true pool null) ≡ some (pc, pool', effects)
      → Move self pool away parked pc pool' away

-- A thread that is created starts in front of the crew.
abbrev pub recruit : List Effect → List Pc → List Pc
recruit [] crew = crew
recruit (spawn ∷ effects) crew = starting ∷ recruit effects crew
recruit (_ ∷ effects) crew = recruit effects crew

abbrev pub states_of : AfterClose → List Ptr
states_of (close_states ls) = ls
states_of _ = []

pub data Step (s : System) : System → Type 0 where
  work :
      (self : ℕ) (before after : List Pc) {pc pc' : Pc} {pool' : ThreadPool} {n : ℕ}
      → s.crew ≡ before ++ pc ∷ after
      → Move self s.pool s.suspended pc pc' pool' n
      → Step s (record s { pool = pool'; crew = before ++ pc' ∷ after; suspended = n })
  -- a suspended task is matched on its channel
  resume :
      (err : ℕ) (l : Ptr) {n : ℕ}
      → s.suspended ≡ suc n
      → Step s (record s {
        pool = (resumetask err s.pool l).0;
        crew = recruit (resumetask err s.pool l).1 s.crew;
        suspended = n;
      })
  -- the Lua functions refuse a pool that was closed, so the next two never see one
  add :
      (err : ℕ) (l : Ptr)
      → s.pool.status ≢ closed
      → Step s (record s {
        pool = (addtpooltask err s.pool l).1;
        crew = recruit (addtpooltask err s.pool l).2 s.crew;
      })
  resize :
      (answer : ℕ → ℕ) (size : ℕ) (create : Bool)
      → s.pool.status ≢ closed
      → Step s (record s {
        pool = (resizetpool answer s.pool size create).1;
        crew = recruit (resizetpool answer s.pool size create).2 s.crew;
      })
  start_close : s.pool.status ≡ open_pool → Step s (record s { pool = close_begin s.pool })
  wait_close :
      {pool' : ThreadPool} {effects : List Effect}
      → s.pool.status ≡ closing
      → close_round s.pool ≡ some (pool', effects)
      → Step s (record s { pool = pool' })
  end_close :
      s.pool.status ≡ closing
      → close_round s.pool ≡ none
      → Step s (record s {
        pool = (close_end s.pool).0;
        dropped = s.dropped + length (states_of (close_end s.pool).1);
      })
  -- `lua_close` of a task that was pending, and of one on a channel that is collected
  drop_pending :
      {n : ℕ}
      → s.dropped ≡ suc n
      → Step s (record s { pool = (collectthreadpool s.pool).0; dropped = n })
  drop_suspended :
      {n : ℕ}
      → s.suspended ≡ suc n
      → Step s (record s { pool = (collectthreadpool s.pool).0; suspended = n })

-- A pool as `lcuTP_createtpool` leaves it.
abbrev pub initial : System
initial = record { pool = new_pool; crew = []; suspended = 0; dropped = 0 }

pub data Reach : System → Type 0 where
  start : Reach initial
  later : {s t : System} → Reach s → Step s t → Reach t
