-- ===== src/Object.antt =====
-- The handles of objects (`lcu_UdataHandle` of src/loperaux.c): a handle of libuv in an object of
-- Lua, and the coroutine that waits for its next event. What the callbacks of the operation do
-- (`start`, `stop`, `step`) is given by what they return. A failed assertion, or a saved object that
-- is not in the registry, is `none`.
pub mod Stops
use coutil.Prelude.{ℕ, ◌+◌, ◌-◌, Bool, true, false, ◌&&◌, not, Option, none, some, if◌then◌else◌}

pub record UdataHandle : Type 0 where
  pub handle_closed : Bool  -- LCU_HANDLECLOSEDFLAG
  pub started : Bool  -- `stop` is not NULL
  pub waiting : Bool  -- `handle->data` is a coroutine, suspended in `k_endudhdlk`
  pub saved : Bool  -- the object is kept in the Lua registry
  pub nactive : ℕ  -- of the scheduler
  pub in_callback : Bool  -- `lcuU_resumeudhdl` is on the stack

abbrev pub asserted : Bool → UdataHandle → Option UdataHandle
asserted true h = some h
asserted false h = none

-- `stopudhdl`; `fails` is whether `stop` returns an error. Then the handle is closed, where no
-- coroutine waits.
unfoldable pub stopudhdl : Bool → UdataHandle → Option UdataHandle
stopudhdl fails h = asserted (not h.waiting && h.saved) (record h {
  handle_closed = if h.started && fails then true else h.handle_closed;
  saved = if h.started && fails then true else h.handle_closed;
  started = false;
  nactive = h.nactive - 1;
})

-- `scheduleudhdlk`; `has_ref` is `uv_has_ref` of the handle, which only passive sockets change. The type
-- of a handle is known since the object was made.
unfoldable pub scheduleudhdlk : (has_ref : Bool) → UdataHandle → Option UdataHandle
scheduleudhdlk has_ref h = asserted (has_ref && not h.handle_closed) (record h { waiting = true })

-- `lcuT_resetudhdlk`; an object in use is left as it is, with an error. `has_ref` is that of the started
-- handle.
unfoldable pub resetudhdlk : (has_ref fails : Bool) → UdataHandle → Option UdataHandle
unfolding scheduleudhdlk
resetudhdlk has_ref fails h =
    if h.waiting
    then some h
    else if h.started
    then scheduleudhdlk has_ref h
    else if fails
    then some (record h { saved = false })
    else scheduleudhdlk has_ref (record h { saved = true; started = true; nactive = h.nactive + 1 })

-- `k_endudhdlk`, resumed by the loop: `more` is whether `step` returns a negative number.
unfoldable pub k_endudhdlk_resumed : (has_ref more : Bool) → UdataHandle → Option UdataHandle
unfolding scheduleudhdlk
k_endudhdlk_resumed has_ref more h0 =
    let h = record h0 { waiting = false } in
    if h0.waiting then (if more then scheduleudhdlk has_ref h else some h) else none

-- `k_endudhdlk`, resumed by another coroutine.
unfoldable pub k_endudhdlk_halted : (fails : Bool) → UdataHandle → Option UdataHandle
unfolding stopudhdl
k_endudhdlk_halted fails h =
    if h.waiting then stopudhdl fails (record h { waiting = false }) else none

-- `lcu_closeudhdl`, where the coroutine that it resumes does nothing to the object. `stopudhdl` may have
-- closed the handle before, and libuv asserts in `uv_close` that it is not closing.
unfoldable pub closeudhdl : (fails : Bool) → UdataHandle → Option UdataHandle
unfolding k_endudhdlk_halted
closeudhdl fails h =
    let halted = if h.waiting then k_endudhdlk_halted fails h else some h in
    if h.handle_closed then some h else elim halted [
      | none ↦ none
      | some h' ↦ asserted (not h'.handle_closed) (record h' { saved = true; handle_closed = true })
    ]

-- The callback of `uv_close`.
unfoldable pub closedudhdl : UdataHandle → UdataHandle
closedudhdl h = record h { saved = false }

-- `lcuU_resumeudhdl` up to the return of the coroutine, and behind it.
unfoldable pub resumeudhdl : (has_ref more : Bool) → UdataHandle → Option UdataHandle
unfolding k_endudhdlk_resumed
resumeudhdl has_ref more h = k_endudhdlk_resumed has_ref more (record h { in_callback = true })

unfoldable pub resumeudhdl_end : (fails : Bool) → UdataHandle → Option UdataHandle
unfolding stopudhdl
resumeudhdl_end fails h0 =
    let h = record h0 { in_callback = false } in if h.waiting then some h else stopudhdl fails h
