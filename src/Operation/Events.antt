-- ===== src/Operation/Events.antt =====
-- What happens to the operation of a coroutine (src/loperaux.c): calls of the coroutine, resumes by
-- others, and the callbacks of libuv, each as a function of the state. Where the coroutine is resumed
-- by the loop and goes on with a postponed reset, the behaviour of its setup is given.
use coutil.Prelude.{◌-◌, Bool, true, false, ◌&&◌, ◌||◌, not, Option, some, if◌then◌else◌}
use coutil.Operation.{
  Operation, HandleType, is_async, Suspension, none_of_ours, in_end, in_reset_request,
  in_reset_handle, Callback, outside, request_callback, handle_callback, asserting, cancelop, armed,
  Setup, startcoreqk, startcohdlk, resetcoreqk, resetcohdlk,
}

-- `k_endop`, resumed by the loop; what the `results` function pushes is left out.
unfoldable pub k_endop_resumed : Operation → Option Operation
k_endop_resumed op =
    asserting (op.pending && not op.cleanup)
      (some (record op { pending = false; at = none_of_ours }))

-- `k_endop`, resumed by another coroutine: `cancels` if there is no `cancel` function or it returns
-- true.
unfoldable pub k_endop_halted : Bool → Operation → Option Operation
unfolding cancelop
k_endop_halted cancels op = asserting (op.pending && not op.cleanup) (
    let op' = record op { pending = false; at = none_of_ours } in
    if cancels then cancelop op' else some (record op' { cleanup = true }))

-- `k_resetopk`, resumed by the loop.
unfoldable pub k_resetopk_resumed : (Operation → Option Operation) → Operation → Option Operation
k_resetopk_resumed start op =
    asserting (op.pending && op.request && not op.active)
      (start (record op { pending = false; at = none_of_ours }))

-- `k_resetopk`, resumed by another coroutine.
unfoldable pub k_resetopk_halted : Operation → Option Operation
k_resetopk_halted op =
    asserting op.pending (some (record op { pending = false; at = none_of_ours }))

-- `resumethread` up to where the coroutine is in control again.
unfoldable pub resumethread : Setup → Suspension → Operation → Option Operation
unfolding k_endop_resumed k_resetopk_resumed
resumethread setup none_of_ours op = some op
resumethread setup in_end op = k_endop_resumed op
resumethread setup in_reset_request op = k_resetopk_resumed (startcoreqk setup) op
resumethread setup (in_reset_handle type) op = k_resetopk_resumed (startcohdlk setup type) op

-- A resume of the coroutine by other than the loop.
unfoldable pub halt : Bool → Suspension → Operation → Option Operation
unfolding k_endop_halted k_resetopk_halted
halt cancels none_of_ours op = some op
halt cancels in_end op = k_endop_halted cancels op
halt cancels in_reset_request op = k_resetopk_halted op
halt cancels (in_reset_handle _) op = k_resetopk_halted op

-- `lcuU_resumecoreq` up to the return of the coroutine.
unfoldable pub resumecoreq : Setup → Operation → Option Operation
unfolding resumethread
resumecoreq setup op =
    asserting (op.request && op.thrsaved && op.pending && not op.active)
      (resumethread setup op.at (record op { callback = request_callback }))

-- The rest of `lcuU_resumecoreq`.
unfoldable pub resumecoreq_end : Operation → Operation
resumecoreq_end op0 =
    let op = record op0 { callback = outside } in
    if op.request && not op.active then record op { thrsaved = false; anchored = false } else op

-- A request completes: `lcuU_endcoreq`, and `lcuU_resumecoreq` if it returns the coroutine.
unfoldable pub endcoreq : Setup → Operation → Option Operation
unfolding resumecoreq
endcoreq setup op0 =
    let op = record op0 { nactive = op0.nactive - 1; active = false } in
    asserting (op.request && op.thrsaved) (
      if op.pending
      then resumecoreq setup op
      else some (record op { thrsaved = false; cleanup = false; anchored = false }))

-- The callback of `uv_close`.
unfoldable pub closedhdl : Setup → Operation → Option Operation
unfolding resumecoreq
closedhdl setup op0 =
    let op = record op0 {
      nactive = op0.nactive - 1;
      request = true;
      thrsaved = true;
      active = false;
    } in
    asserting (not op0.request && not op0.thrsaved) (
      if op.pending
      then resumecoreq setup op
      else some (record op { thrsaved = false; anchored = false }))

-- `lcuU_resumecohdl` up to the return of the coroutine.
unfoldable pub resumecohdl : Setup → Operation → Option Operation
unfolding resumethread
resumecohdl setup op =
    asserting (not op.request && op.pending)
      (resumethread setup op.at (record op { callback = handle_callback }))

-- The rest of `lcuU_resumecohdl`.
unfoldable pub resumecohdl_end : Operation → Option Operation
unfolding cancelop
resumecohdl_end op0 =
    let op = record op0 { callback = outside } in
    if op.pending || op.cleanup then some op else cancelop op

-- `lcuU_endcohdl`, and `lcuU_resumecohdl` if it returns true, as `uv_onsynced` calls them.
unfoldable pub endcohdl : Setup → Operation → Option Operation
unfolding cancelop resumecohdl
endcohdl setup op = asserting (not op.request) (
    if op.pending && not op.cleanup
    then resumecohdl setup op
    else cancelop (record op { cleanup = false }))

-- The callback of a handle: of an async handle, or of the other types.
unfoldable pub fire : Setup → Operation → Option Operation
unfolding endcohdl resumecohdl is_async
fire setup op = if is_async op.type then endcohdl setup op else resumecohdl setup op

pub data Event : Type 0 where
  call_request : Setup → Event  -- the coroutine calls a function on a request
  call_handle : HandleType → Setup → Event  -- or one on a handle
  halted : Bool → Event  -- another coroutine resumes it
  completed : Setup → Event  -- the request completes
  fired : Setup → Event  -- the handle fires
  closed : Setup → Event  -- the handle is closed
  returned : Event  -- the coroutine returns to the callback

unfoldable pub handle : Event → Operation → Option Operation
handle (call_request setup) op = resetcoreqk setup op
handle (call_handle type setup) op = resetcohdlk type setup op
handle (halted cancels) op = halt cancels op.at op
handle (completed setup) op = endcoreq setup op
handle (fired setup) op = fire setup op
handle (closed setup) op = closedhdl setup op
handle returned op = elim op.callback [
  | outside ↦ some op
  | request_callback ↦ some (resumecoreq_end op)
  | handle_callback ↦ resumecohdl_end op
]

-- A setup returns a negative number only if it has armed the operation.
abbrev pub is_sound : Setup → Bool
is_sound setup = elim setup.arming [ armed ↦ true | _ ↦ not setup.waits ]

abbrev pub is_free : Suspension → Bool
is_free none_of_ours = true
is_free in_end = false
is_free in_reset_request = false
is_free (in_reset_handle _) = false

abbrev pub is_outside : Callback → Bool
is_outside outside = true
is_outside request_callback = false
is_outside handle_callback = false

-- When an event can happen. The loop is not entered again while it runs a callback. Requests have no
-- `cancel` function, and the only one that may return false (`cancelsynced` of src/lchannem.c) is that
-- of an async handle.
unfoldable pub can_happen : Event → Operation → Bool
unfolding is_async
can_happen (call_request setup) op = is_free op.at && is_sound setup
can_happen (call_handle type setup) op = is_free op.at && is_sound setup
can_happen (halted cancels) op =
    not (is_free op.at) && (cancels || (not op.request && is_async op.type))
can_happen (completed setup) op =
    op.request && op.active && is_outside op.callback && is_sound setup
can_happen (fired setup) op =
    not op.request && not op.closing && is_outside op.callback && is_sound setup
can_happen (closed setup) op =
    not op.request && op.closing && is_outside op.callback && is_sound setup
can_happen returned op = not (is_outside op.callback)
