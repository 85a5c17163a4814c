-- ===== src/Examples/Pools.antt =====
-- Runs of the thread pool of src/lthpool.c.
use coutil.Prelude.{◌≡◌, refl, true, false, some, [], ◌∷◌, arith}
use coutil.Pool.{
  ThreadPool, new_pool, open_pool, closed, spawn, addthread_mx, addtpooltask, resizetpool,
}
use coutil.Pool.Worker.{Turn, parked, gone, inner_loop, turn, settle, thread_end, after_run}
use coutil.Pool.Turns.{Outcome, inner_loop-Outcome}
use coutil.Pool.Close.{resumetask, destroyable, close_begin, close_round, close_end}
use coutil.Pool.Create.{Answers}
use coutil.Pool.System.{
  System, initial, Reach, start, later, work, resume, add, resize, start_close, end_close, begin,
  park, back,
}
use coutil.Pool.System.Safety.{IsConsistent, Reach-IsConsistent, destroyable_when_closed}
use coutil.Pool.System.Races.{resume_in_closed}

-- One thread, one task, which suspends itself on a channel and is resumed before its worker goes on.
abbrev resumed_early : System
resumed_early = record {
  pool = record {
    status = open_pool;
    join_pending = false;
    size = 1;
    threads = 1;
    idle = 0;
    tasks = 1;
    running = 1;
    pending = 1;
    queue = 7 ∷ [];
    last_terminated = 0;
  };
  crew = parked ∷ [];
  suspended = 0;
  dropped = 0;
}

resumed_early-Reach : Reach resumed_early
unfolding resumetask addthread_mx addtpooltask resizetpool turn inner_loop settle
resumed_early-Reach =
    later
      (later
        (later (later (later start (resize (λ _. 0) 1 true (λ e. cc))) (add 0 7 (λ e. cc)))
          (work 0 [] [] refl (begin refl)))
        (work 0 [] [] refl park))
      (resume 0 7 refl)

Reach-IsConsistent_example : IsConsistent resumed_early
Reach-IsConsistent_example = Reach-IsConsistent resumed_early-Reach

-- A pool that was opened and closed with no thread and no task.
abbrev closed_unused : System
closed_unused = record initial { pool = record new_pool { status = closed } }

closed_unused-Reach : Reach closed_unused
unfolding close_begin close_round close_end
closed_unused-Reach = later (later start (start_close refl)) (end_close refl refl)

destroyable_when_closed_example : destroyable closed_unused.pool ≡ true
destroyable_when_closed_example = destroyable_when_closed closed_unused-Reach refl refl refl

-- One thread suspends its task and ends as the pool shrinks; the pool grows again with no thread
-- created, since nothing is pending, and is closed.
abbrev closed_grown : System
closed_grown = record {
  pool = record {
    status = closed;
    join_pending = true;
    size = 2;
    threads = 0;
    idle = 0;
    tasks = 1;
    running = 0;
    pending = 0;
    queue = [];
    last_terminated = 0;
  };
  crew = gone ∷ [];
  suspended = 1;
  dropped = 0;
}

closed_grown-Reach : Reach closed_grown
unfolding addthread_mx addtpooltask resizetpool turn inner_loop settle thread_end after_run
    close_begin close_round close_end
closed_grown-Reach =
    let opened = later (later start (resize (λ _. 0) 1 true (λ e. cc))) (add 0 7 (λ e. cc)) in
    let parking = later (later opened (work 0 [] [] refl (begin refl))) (work 0 [] [] refl park) in
    let shrunk =
      later (later parking (resize (λ _. 0) 0 false (λ e. cc))) (work 0 [] [] refl (back refl)) in
    let grown = later shrunk (resize (λ _. 0) 2 false (λ e. cc)) in
    later (later grown (start_close refl)) (end_close refl refl)

resume_in_closed_example :
    ((resumetask 0 closed_grown.pool 7).1 ≡ spawn ∷ [])
    × ((resumetask 0 closed_grown.pool 7).2 ≡ true)
    × (destroyable (resumetask 0 closed_grown.pool 7).0 ≡ false)
resume_in_closed_example = resume_in_closed closed_grown.pool 7 refl refl refl refl (omega arith)

inner_loop-Outcome_example :
    (t : Turn) × (pool' : ThreadPool) × (inner_loop 2 resumed_early.pool ≡ some (t, pool'))
    × Outcome resumed_early.pool t pool'
inner_loop-Outcome_example = inner_loop-Outcome resumed_early.pool (omega arith) refl

-- The second condition cannot be made.
abbrev no_onterm : Answers
no_onterm = record { allocated = true; mutex_init = 0; onwork_init = 0; onterm_init = 11 }
