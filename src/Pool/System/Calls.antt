-- ===== src/Pool/System/Calls.antt =====
-- The calls that other threads make into a pool keep its counters right.
use coutil.Prelude.{
  ℕ, zero, suc, ◌+◌, ◌-◌, ◌≤◌, ◌≡◌, Bool, false, none, some, List, [], ◌∷◌, arith, length,
  length-append, if◌then◌else◌, Bool-cases, inl, inr, ltb,
}
use coutil.StateQ.{Ptr}
use coutil.Pool.{
  ThreadPool, Effect, is_closed, start_thread, addthread_mx, addtpooltask, create_threads,
  new_threads, resizetpool,
}
use coutil.Pool.Close.{close_begin, close_round, close_end, collectthreadpool, resumetask}
use coutil.Pool.System.{states_of}
use coutil.Pool.System.Crew.{spawned}
use coutil.Pool.System.Invariant.{Counts}

start_thread-status : (err : ℕ) (pool : ThreadPool) → (start_thread err pool).0.status ≡ pool.status
unfolding start_thread
start_thread-status err pool = ground arith

create_threads-Counts :
    {w b k y : ℕ} (n a : ℕ) (answer : ℕ → ℕ) (pool : ThreadPool)
    → is_closed pool.status ≡ false
    → Counts pool a w b k y
    → Counts (create_threads n answer pool).1 (spawned (create_threads n answer pool).2 + a) w b k y
unfolding create_threads
create_threads-Counts zero a answer pool live c = ground arith
create_threads-Counts {w} {b} {k} {y} (suc n) a answer pool live c =
    let more = record pool { threads = pool.threads + 1 } in
    let c' : Counts (create_threads n answer more).1
        (spawned (create_threads n answer more).2 + suc a) w b k y =
      create_threads-Counts n (suc a) answer more live (ground arith) in
    ground arith

module _ {a w b k : ℕ} where
  start_thread-Counts :
      {y : ℕ} (err : ℕ) (pool : ThreadPool)
      → Counts pool a w b k y
      → Counts (start_thread err pool).0 (spawned (start_thread err pool).1 + a) w b k y
  unfolding start_thread
  start_thread-Counts err pool c = ground arith

  -- `addthread_mx` takes a task that is counted as away, or leaves it so.
  addthread_mx-Counts :
      {y : ℕ} (err : ℕ) (pool : ThreadPool) (l : Ptr)
      → Counts pool a w b k (suc y)
      → Counts
          (addthread_mx err pool l).1
          (spawned (addthread_mx err pool l).2 + a)
          w
          b
          k
          (if (addthread_mx err pool l).0 then y else suc y)
  unfolding addthread_mx
  addthread_mx-Counts err pool l c =
      let c' = start_thread-Counts err pool c in
      ground (arith, length-append (start_thread err pool).0.queue (l ∷ []))

  pub resumetask-Counts :
      {y : ℕ} (err : ℕ) (pool : ThreadPool) (l : Ptr)
      → Counts pool a w b k (suc y)
      → Counts (resumetask err pool l).0 (spawned (resumetask err pool l).1 + a) w b k y
  unfolding resumetask
  resumetask-Counts err pool l c = let c' = addthread_mx-Counts err pool l c in ground arith

  pub addtpooltask-Counts :
      {y : ℕ} (err : ℕ) (pool : ThreadPool) (l : Ptr)
      → is_closed pool.status ≡ false
      → Counts pool a w b k y
      → Counts (addtpooltask err pool l).1 (spawned (addtpooltask err pool l).2 + a) w b k y
  unfolding addtpooltask
  addtpooltask-Counts err pool l live c =
      let c' = start_thread-Counts err pool c in
      ground (
        arith,
        start_thread-status err pool,
        length-append (start_thread err pool).0.queue (l ∷ []),
      )

  pub resizetpool-Counts :
      {y : ℕ} (answer : ℕ → ℕ) (pool : ThreadPool) (size : ℕ) (create : Bool)
      → is_closed pool.status ≡ false
      → Counts pool a w b k y
      → Counts
          (resizetpool answer pool size create).1
          (spawned (resizetpool answer pool size create).2 + a)
          w
          b
          k
          y
  unfolding resizetpool
  resizetpool-Counts answer pool size create live c = elim (Bool-cases (ltb pool.size size)) [
    | inl grows ↦ rw grows (
        create_threads-Counts (new_threads create pool.pending (size - pool.size)) a answer
          (record pool { size = size }) live (ground arith))
    | inr shrinks ↦ rw shrinks (ground arith)
  ]

  pub close_begin-Counts :
      {y : ℕ} (pool : ThreadPool) → Counts pool a w b k y → Counts (close_begin pool) a w b k y
  unfolding close_begin
  close_begin-Counts pool c = ground arith

  pub close_round-Counts :
      {y : ℕ} (pool pool' : ThreadPool) {effects : List Effect}
      → is_closed pool.status ≡ false
      → Counts pool a w b k y
      → close_round pool ≡ some (pool', effects)
      → Counts pool' a w b k y
  unfolding close_round
  close_round-Counts pool pool' live c e = ground arith

  pub collectthreadpool-Counts :
      {y : ℕ} (pool : ThreadPool)
      → Counts pool a w b k (suc y)
      → Counts (collectthreadpool pool).0 a w b k y
  unfolding collectthreadpool
  collectthreadpool-Counts pool c = ground arith

-- When the loop of `lcuTP_closetpool` ends no worker is left, and the pending tasks go with it.
pub close_end-Counts :
    {a w b k y : ℕ} (pool : ThreadPool)
    → w + b + k ≤ a
    → Counts pool a w b k y
    → close_round pool ≡ none
    → Counts (close_end pool).0 a w b k (y + length (states_of (close_end pool).1))
unfolding close_round close_end
close_end-Counts pool few c e = ground arith
