-- ===== src/Scheduler.antt =====
-- The scheduler of src/lscheduf.c with the counters of src/loperaux.c: `system.run`, and when the event
-- loop of a task stops so that the task is suspended while it only waits for channels.
pub mod Runs
pub mod Missed
use coutil.Prelude.{ℕ, ◌+◌, ◌-◌, ◌==◌, Bool, true, false, ◌&&◌, not, ltb, if◌then◌else◌}

pub record Scheduler : Type 0 where
  pub nasync : ℕ
  pub nactive : ℕ
  pub running : Bool  -- `loop->data` is not NULL
  pub stopped : Bool  -- `uv_stop` was called
  pub marked : Bool  -- the channel task is on the bottom of the stack of the state that runs
  pub has_task : Bool  -- the registry has a userdata as the channel task

-- `lcu_shallsuspend`
unfoldable pub shallsuspend : Scheduler → Bool
shallsuspend s = ltb 0 s.nasync && (s.nasync == s.nactive)

-- `lcuU_checksuspend`
unfoldable pub checksuspend : Scheduler → Scheduler
unfolding shallsuspend
checksuspend s =
    if shallsuspend s && s.has_task then record s { stopped = true; marked = true } else s

-- `closehdl` of an async handle, and `closedhdl` with no coroutine that waits.
unfoldable pub closehdl_counts : Scheduler → Scheduler
closehdl_counts s = record s { nasync = s.nasync - 1 }

unfoldable pub closedhdl_counts : Scheduler → Scheduler
closedhdl_counts s = record s { nactive = s.nactive - 1 }

-- `lcuU_resumecohdl` of a coroutine that ends its operation on an async handle and starts no other:
-- `cancelop` closes the handle.
unfoldable pub resumecohdl_end : Scheduler → Scheduler
resumecohdl_end s = checksuspend (closehdl_counts s)

-- `lcuU_endcoreq` of a request that no coroutine waits for.
unfoldable pub endcoreq_free : Scheduler → Scheduler
endcoreq_free s = checksuspend (record s { nactive = s.nactive - 1 })

-- What a call of `system.run` does: an error, the result of `uv_run`, or the task yields.
pub data Ran : Type 0 where
  raised : Ran
  returned : (pending : Bool) → Ran
  yielded : Ran

-- `uv_run`: whether operations are left, and whether `lcuU_checksuspend` has left the mark.
pub record UvRun : Type 0 where
  pub pending : Bool
  pub marks : Bool

unfoldable pub k_resumeall : UvRun → Scheduler → Ran × Scheduler
k_resumeall run s =
    if run.pending && run.marks
    then (yielded, record s { marked = true })
    else (returned run.pending, record s { running = false; marked = false })

-- `lcuM_run`: `loops` is whether the mode is "loop", and `is_main` whether the caller can yield and is
-- the coroutine that a worker of a pool runs.
unfoldable pub run : (loops is_main : Bool) → UvRun → Scheduler → Ran × Scheduler
unfolding k_resumeall shallsuspend
run loops is_main uv_run s =
    let s' = record s { running = true; marked = false } in
    if s.running
    then (raised, s)
    else if loops && is_main
    then (if shallsuspend s then (yielded, record s' { marked = true }) else k_resumeall uv_run s')
    else (returned uv_run.pending, record s { running = false })

-- `lcuM_isrunning` and `lcuM_halt`, whose first component is false for an error.
unfoldable pub isrunning : Scheduler → Bool
isrunning s = s.running

unfoldable pub halt : Scheduler → Bool × Scheduler
halt s = if s.running then (true, record s { stopped = true }) else (false, s)
