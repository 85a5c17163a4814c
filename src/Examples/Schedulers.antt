-- ===== src/Examples/Schedulers.antt =====
-- A task of src/lscheduf.c in which two coroutines wait for channels.
use coutil.Prelude.{◌≡◌, refl, true, false, [], ◌∷◌, arith}
use coutil.Scheduler.{
  Scheduler, shallsuspend, closedhdl_counts, resumecohdl_end, run, returned, k_resumeall,
}
use coutil.Scheduler.Runs.{resumes}
use coutil.Scheduler.Missed.{closedhdl_counts-missed}

abbrev two_wait : Scheduler
two_wait = record {
  nasync = 2;
  nactive = 2;
  running = true;
  stopped = false;
  marked = false;
  has_task = true;
}

closedhdl_counts-missed_example :
    (let s' = closedhdl_counts (resumecohdl_end two_wait) in
      (shallsuspend s' ≡ true) × (s'.stopped ≡ false))
closedhdl_counts-missed_example = closedhdl_counts-missed two_wait refl refl (omega arith) refl

ended :
    (resumes
      (record { pending = true; marks = true } ∷ record { pending = false; marks = false } ∷ [])
      (run true true
        (record { pending = true; marks = true })
        (record two_wait { running = false }))).0
    ≡ returned false
unfolding run k_resumeall shallsuspend
ended = refl
