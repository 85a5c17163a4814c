-- ===== src/Examples/Operations.antt =====
-- A run of the operation of a coroutine (src/loperaux.c): a wait on a timer that another coroutine
-- ends, so that the timer is closed.
use coutil.Prelude.{◌≡◌, refl, true, false, some}
use coutil.Operation.{Operation, timer, Setup, armed, resetcohdlk, checkreset, startcohdlk}
use coutil.Operation.Events.{Event, call_handle, halted, closed, handle, can_happen, halt}
use coutil.Operation.Invariant.{IsValid, setup}
use coutil.Operation.Safety.{Run, created, happens, fresh, Run-IsValid, handle-total}

abbrev started : Operation
started = record (fresh 2 1) {
  request = false;
  type = timer;
  pending = true;
  anchored = true;
  nactive = 3;
  at = coutil.Operation.in_end;
}

waiting : Run 2 1 started
unfolding can_happen handle resetcohdlk checkreset startcohdlk
waiting = happens (call_handle timer (setup armed true)) created refl refl

abbrev stopped : Operation
stopped = record started { pending = false; closing = true; at = coutil.Operation.none_of_ours }

closing : Run 2 1 stopped
unfolding can_happen handle halt
closing = happens (halted true) waiting refl refl

Run-IsValid_example : IsValid 2 1 stopped
Run-IsValid_example = Run-IsValid closing

abbrev closes : Event
closes = closed (setup coutil.Operation.not_called false)

closes_next : can_happen closes stopped ≡ true
unfolding can_happen
closes_next = refl

handle-total_example : (op' : Operation) × (handle closes stopped ≡ some op')
handle-total_example = handle-total closing closes closes_next
