-- ===== src/Coroutine.antt =====
-- The life of the Lua state of a coroutine that libuv's threads run (`StateCoro` of src/lcoroutm.c):
-- when it runs, and when it is freed. The values on the stacks are left out.
pub mod Life
use coutil.Prelude.{Bool, true, false, ◌&&◌, not, if◌then◌else◌}

pub record StateCoro : Type 0 where
  pub l : Bool  -- `L` is not NULL
  pub work : Bool  -- the type of the request is UV_WORK: the state is queued or run
  pub freepending : Bool  -- `cancel` is `freepending`

abbrev pub freestate : StateCoro → StateCoro
freestate co = record co { l = false }

-- `coroutine_gc`, also the `__close` of Lua.
unfoldable pub coroutine_gc : StateCoro → StateCoro
coroutine_gc co = if co.work then record co { freepending = true } else freestate co

-- `coroutine_close`; the first component is false for the error of its argument.
unfoldable pub coroutine_close : StateCoro → Bool × StateCoro
unfolding coroutine_gc
coroutine_close co = if co.work then (false, co) else (true, coroutine_gc co)

pub data CoroutineStatus : Type 0 where
  running suspended dead : CoroutineStatus

-- `is_suspended` is what `suspended` says of the state; it asks only a state that is there.
unfoldable pub coroutine_status : Bool → StateCoro → CoroutineStatus
coroutine_status is_suspended co =
    if co.work then running else if co.l && is_suspended then suspended else dead

-- `system_resume` with `k_setupwork` and `startedudreqk`: whether the work is queued. `queues` is
-- what `uv_queue_work` does, if the arguments can be moved.
unfoldable pub system_resume : (is_suspended queues : Bool) → StateCoro → Bool × StateCoro
system_resume is_suspended queues co =
    if co.work
    then (false, co)
    else if not (co.l && is_suspended)
    then (false, co)
    else if queues
    then (true, record co { work = true; freepending = false })
    else (false, co)

-- `uv_onworked` up to where the waiting coroutine is resumed (`lcuU_endudreq` ends the request), and
-- behind it.
unfoldable pub onworked : StateCoro → StateCoro
onworked co = record co { work = false }

unfoldable pub onworked_end : StateCoro → StateCoro
onworked_end co = if co.freepending then record (freestate co) { freepending = false } else co
