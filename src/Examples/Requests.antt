-- ===== src/Examples/Requests.antt =====
-- A request of src/loperaux.c whose coroutine is resumed by another one, and which a second coroutine
-- then waits for.
use coutil.Prelude.{◌≡◌, ◌↔◌, refl, true, false, none}
use coutil.Request.{
  UdataRequest, active, k_endudreq, k_resetudreqk, nowhere, resetudreqk, haltudreq,
}
use coutil.Request.Runs.{
  Run, created, happens, call, halt, complete, happen, IsRequest, Run-IsRequest, ends_in_reset,
  happen-none_iff,
}

abbrev started : UdataRequest
started = record {
  type = active;
  data_ = k_endudreq;
  saved = true;
  nactive = 4;
  in_callback = false;
}

abbrev taken_over : UdataRequest
taken_over = record started { data_ = k_resetudreqk }

Run-started : Run 3 started
unfolding happen resetudreqk
Run-started = happens (call true) created refl refl

abbrev left_alone : UdataRequest
left_alone = record started { data_ = nowhere }

Run-left_alone : Run 3 left_alone
unfolding happen haltudreq
Run-left_alone = happens halt Run-started refl refl

Run-taken_over : Run 3 taken_over
unfolding happen resetudreqk
Run-taken_over = happens (call true) Run-left_alone refl refl

Run-IsRequest_example : IsRequest 3 taken_over
Run-IsRequest_example = Run-IsRequest Run-taken_over

happen-none_iff_example :
    (happen (complete true) taken_over ≡ none) ↔ (ends_in_reset (complete true) taken_over ≡ true)
happen-none_iff_example = happen-none_iff Run-taken_over (complete true) refl
