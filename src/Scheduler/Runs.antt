-- ===== src/Scheduler/Runs.antt =====
-- What `system.run` leaves (src/lscheduf.c).
use coutil.Prelude.{◌≡◌, Bool, true, false, List, [], ◌∷◌, arith}
use coutil.Scheduler.{Scheduler, Ran, raised, returned, yielded, UvRun, k_resumeall, run, isrunning}

abbrev pub yields : Ran → Bool
yields raised = false
yields (returned pending) = false
yields yielded = true

-- The resumes of a task that yields in `k_resumeall`, until it returns.
abbrev pub resumes : List UvRun → Ran × Scheduler → Ran × Scheduler
resumes [] r = r
resumes (u ∷ us) (raised, s) = (raised, s)
resumes (u ∷ us) (returned pending, s) = (returned pending, s)
resumes (u ∷ us) (yielded, s) = resumes us (k_resumeall u s)

-- The scheduler runs exactly if a call has yielded.
abbrev pub Runs : Ran × Scheduler → Type 0
Runs r = isrunning r.1 ≡ yields r.0

k_resumeall-Runs : (u : UvRun) (s : Scheduler) → s.running ≡ true → Runs (k_resumeall u s)
unfolding k_resumeall isrunning
k_resumeall-Runs u s h = ground arith

run-Runs :
    (loops is_main : Bool) (u : UvRun) (s : Scheduler)
    → s.running ≡ false
    → Runs (run loops is_main u s)
unfolding run isrunning
run-Runs loops is_main u s h = ground arith

resumes-Runs : (us : List UvRun) (r : Ran × Scheduler) → Runs r → Runs (resumes us r)
unfolding isrunning
resumes-Runs [] r v = v
resumes-Runs (u ∷ us) (raised, s) v = v
resumes-Runs (u ∷ us) (returned pending, s) v = v
resumes-Runs (u ∷ us) (yielded, s) v = resumes-Runs us (k_resumeall u s) (k_resumeall-Runs u s v)

-- While no other call runs the loop, `system.run` leaves it running, so that another call is an error,
-- exactly as long as the task has yielded in it, however often the task is resumed.
run-resumes :
    (loops is_main : Bool) (u : UvRun) (us : List UvRun) (s : Scheduler)
    → s.running ≡ false
    → Runs (resumes us (run loops is_main u s))
run-resumes loops is_main u us s h =
    resumes-Runs us (run loops is_main u s) (run-Runs loops is_main u s h)
