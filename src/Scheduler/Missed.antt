-- ===== src/Scheduler/Missed.antt =====
-- An operation that ends without a test for the suspension of its task (src/loperaux.c).
use coutil.Prelude.{◌≡◌, ◌≤◌, true, false, arith}
use coutil.Scheduler.{
  Scheduler, shallsuspend, checksuspend, closehdl_counts, closedhdl_counts, resumecohdl_end,
  endcoreq_free,
}

-- In a task where all active operations wait for channels, and more than one does, one of them ends:
-- when its handle is closed all others wait for channels, so that the task shall be suspended, but
-- the loop is not stopped.
pub closedhdl_counts-missed :
    (s : Scheduler)
    → s.has_task ≡ true
    → s.stopped ≡ false
    → 2 ≤ s.nasync
    → s.nactive ≡ s.nasync
    → (let s' = closedhdl_counts (resumecohdl_end s) in
        (shallsuspend s' ≡ true) × (s'.stopped ≡ false))
unfolding closedhdl_counts resumecohdl_end checksuspend closehdl_counts
closedhdl_counts-missed s t n a e = ground arith

-- Where a request ends that is the last operation that waits for no channel, the loop is stopped.
endcoreq_free-stops :
    (s : Scheduler)
    → s.has_task ≡ true
    → shallsuspend (endcoreq_free s) ≡ true
    → (endcoreq_free s).stopped ≡ true
unfolding endcoreq_free checksuspend
endcoreq_free-stops s t h = ground arith
