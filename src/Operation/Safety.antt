-- ===== src/Operation/Safety.antt =====
-- No assertion of the coroutine operations of src/loperaux.c fails, in any run.
use mathlib.Core.Path.{subst}
use coutil.Prelude.{ℕ, ◌-◌, ◌≡◌, refl, Bool, true, false, Option, none, some, arith, if◌then◌else◌}
use coutil.Operation.{
  Operation, async, Suspension, none_of_ours, in_end, in_reset_request, in_reset_handle, Callback,
  outside, request_callback, handle_callback, Arming,
}
use coutil.Operation.Events.{
  Event, call_request, call_handle, halted, completed, fired, closed, returned, handle, can_happen,
  endcoreq, closedhdl, fire, resumecoreq_end, resumecohdl_end,
}
use coutil.Operation.Invariant.{
  IsValid, Safe, setup, result, is_some, halt-Safe, startcoreqk-Safe, startcohdlk-Safe,
  resetcoreqk-Safe, resetcohdlk-Safe,
}

-- The operation is a request that has just completed, or was a handle that has just been closed, and
-- the coroutine is about to be resumed.
abbrev resuming : Operation → Operation
resuming op = record op {
  nactive = op.nactive - 1;
  request = true;
  thrsaved = true;
  active = false;
  pending = false;
  at = none_of_ours;
  callback = request_callback;
}

module _ (n m : ℕ) (op : Operation) (v : IsValid n m op) where
  resuming-IsValid :
      (if op.request then op.active else op.closing) ≡ true
      → op.cleanup ≡ false
      → IsValid n m (resuming op)
  resuming-IsValid live clean = ground arith

  endcoreq-Safe :
      (at : Suspension) (arming : Arming) (waits : Bool)
      → op.at ≡ at
      → can_happen (completed (setup arming waits)) op ≡ true
      → Safe n m (endcoreq (setup arming waits) op) op
  unfolding can_happen endcoreq
  endcoreq-Safe none_of_ours arming waits e h = ground arith
  endcoreq-Safe in_end arming waits e h = ground arith
  endcoreq-Safe in_reset_request arming waits e h = ground (
    arith,
    startcoreqk-Safe n m (resuming op) op (resuming-IsValid (ground arith) (ground arith))
        (record { request = refl; inactive = refl; running = refl }) arming waits (ground arith),
  )
  endcoreq-Safe (in_reset_handle type) arming waits e h = ground (
    arith,
    startcohdlk-Safe n m (resuming op) op (resuming-IsValid (ground arith) (ground arith))
        (record { request = refl; inactive = refl; running = refl }) type arming waits
        (ground arith),
  )

  closedhdl-Safe :
      (at : Suspension) (arming : Arming) (waits : Bool)
      → op.at ≡ at
      → can_happen (closed (setup arming waits)) op ≡ true
      → Safe n m (closedhdl (setup arming waits) op) op
  unfolding can_happen closedhdl
  closedhdl-Safe none_of_ours arming waits e h = ground arith
  closedhdl-Safe in_end arming waits e h = ground arith
  closedhdl-Safe in_reset_request arming waits e h = ground (
    arith,
    startcoreqk-Safe n m (resuming op) op (resuming-IsValid (ground arith) (ground arith))
        (record { request = refl; inactive = refl; running = refl }) arming waits (ground arith),
  )
  closedhdl-Safe (in_reset_handle type) arming waits e h = ground (
    arith,
    startcohdlk-Safe n m (resuming op) op (resuming-IsValid (ground arith) (ground arith))
        (record { request = refl; inactive = refl; running = refl }) type arming waits
        (ground arith),
  )

  -- A handle that is not closing fires: the coroutine waits in `k_endop`, or the wait is being cleaned
  -- up.
  fire-Safe :
      (at : Suspension) (arming : Arming) (waits : Bool)
      → op.at ≡ at
      → can_happen (fired (setup arming waits)) op ≡ true
      → Safe n m (fire (setup arming waits) op) op
  unfolding can_happen fire
  fire-Safe none_of_ours arming waits e h = ground arith
  fire-Safe in_end arming waits e h = ground arith
  fire-Safe in_reset_request arming waits e h = ground arith
  fire-Safe (in_reset_handle type) arming waits e h = ground arith

  returned-Safe :
      (callback : Callback)
      → op.callback ≡ callback
      → can_happen returned op ≡ true
      → Safe n m (handle returned op) op
  unfolding can_happen handle resumecoreq_end resumecohdl_end
  returned-Safe outside e h = ground arith
  returned-Safe request_callback e h = ground arith
  returned-Safe handle_callback e h = ground arith

  handle-Safe : (e : Event) → can_happen e op ≡ true → Safe n m (handle e op) op
  unfolding handle
  handle-Safe (call_request s) h = resetcoreqk-Safe n m op v s.arming s.waits h
  handle-Safe (call_handle type s) h = resetcohdlk-Safe n m op v type s.arming s.waits h
  handle-Safe (halted cancels) h = halt-Safe n m op v cancels op.at refl h
  handle-Safe (completed s) h = endcoreq-Safe op.at s.arming s.waits refl h
  handle-Safe (fired s) h = fire-Safe op.at s.arming s.waits refl h
  handle-Safe (closed s) h = closedhdl-Safe op.at s.arming s.waits refl h
  handle-Safe returned h = returned-Safe op.callback refl h

-- What `tothrop` creates, in a scheduler with `n` active handles and `m` async ones.
abbrev pub fresh : ℕ → ℕ → Operation
fresh n m = record {
  request = true;
  thrsaved = false;
  pending = false;
  cleanup = false;
  active = false;
  type = async;
  closing = false;
  anchored = false;
  nasync = m;
  nactive = n;
  at = none_of_ours;
  callback = outside;
}

-- A run: the events happen one after the other, each when it can.
pub data Run (n m : ℕ) : Operation → Type 0 where
  created : Run n m (fresh n m)
  happens :
      {op op' : Operation} (e : Event)
      → Run n m op
      → can_happen e op ≡ true
      → handle e op ≡ some op'
      → Run n m op'

-- In every run of an operation: the scheduler counts it as active as long as libuv has it, and as an
-- async handle while it is one that is not closing; while libuv has it, its coroutine is kept in the
-- Lua registry; FLAG_PENDING says that the coroutine is suspended in the operation, and then libuv is
-- going to report on it.
pub Run-IsValid : {n m : ℕ} {op : Operation} → Run n m op → IsValid n m op
Run-IsValid created = ground arith
Run-IsValid {n} {m} (happens {op} {op'} e r can h) =
    subst (λ o. IsValid n m (result o op)) h (handle-Safe n m op (Run-IsValid r) e can).1

some_of_is_some : (o : Option Operation) → is_some o ≡ true → (op : Operation) × (o ≡ some op)
some_of_is_some none h = cc
some_of_is_some (some op) h = (op, refl)

-- Whatever happens next in a run, each assertion on its way holds: the handler returns a state.
pub handle-total :
    {n m : ℕ} {op : Operation}
    → Run n m op
    → (e : Event) → can_happen e op ≡ true
    → (op' : Operation) × (handle e op ≡ some op')
handle-total {n} {m} {op} r e can =
    some_of_is_some (handle e op) (handle-Safe n m op (Run-IsValid r) e can).0
