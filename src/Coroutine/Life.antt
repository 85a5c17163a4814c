-- ===== src/Coroutine/Life.antt =====
-- The state of a coroutine is there while it is run, and is freed behind its last run, as long as it
-- is not resumed and collected in its own callback (src/lcoroutm.c).
use coutil.Prelude.{◌≡◌, Bool, true, false, ◌&&◌, ◌||◌, not, arith, if◌then◌else◌}
use coutil.Coroutine.{
  StateCoro, coroutine_gc, coroutine_close, system_resume, onworked, onworked_end,
}

-- A coroutine, whether `uv_onworked` is on the stack, and whether `coroutine_gc` was called (by the
-- collector, or by Lua at the end of the scope of a variable) behind the last resume.
pub record System : Type 0 where
  pub co : StateCoro
  pub in_callback : Bool
  pub collected : Bool

pub data Event : Type 0 where
  collect : Event
  close : Event
  resume : (is_suspended queues : Bool) → Event
  worked : Event
  worked_end : Event

-- The loop enters no callback inside another one. The first line leaves out the runs of
-- `freed_while_run`.
abbrev pub can_happen : Event → System → Bool
can_happen collect s = not (s.in_callback && s.co.work)
can_happen close s = true
can_happen (resume is_suspended queues) s = true
can_happen worked s = s.co.work && not s.in_callback
can_happen worked_end s = s.in_callback

unfoldable pub happen : Event → System → System
unfolding coroutine_gc coroutine_close system_resume onworked onworked_end
happen collect s = record s { co = coroutine_gc s.co; collected = true }
happen close s = record s { co = (coroutine_close s.co).1 }
happen (resume is_suspended queues) s =
    let (queued, co) = system_resume is_suspended queues s.co in
    record s { co = co; collected = if queued then false else s.collected }
happen worked s = record s { co = onworked s.co; in_callback = true }
happen worked_end s = record s { co = onworked_end s.co; in_callback = false }

pub data Reach : System → Type 0 where
  loaded : Reach (record {
    co = record { l = true; work = false; freepending = false };
    in_callback = false;
    collected = false;
  })
  then_ : {s : System} (e : Event) → Reach s → can_happen e s ≡ true → Reach (happen e s)

pub record IsAlive (s : System) : Type 0 where
  pub runs : s.co.work ≡ true → s.co.l ≡ true
  pub pending : s.co.freepending ≡ true → (s.co.l ≡ true) → (s.co.work || s.in_callback) ≡ true
  pub fresh_run : (s.in_callback && s.co.work) ≡ true → s.co.freepending ≡ false
  pub freed : s.collected ≡ true → s.co.l ≡ true → s.co.freepending ≡ true

happen-IsAlive : (s : System) (e : Event) → IsAlive s → can_happen e s ≡ true → IsAlive (happen e s)
unfolding happen
happen-IsAlive s collect v h = ground arith
happen-IsAlive s close v h = ground arith
happen-IsAlive s (resume is_suspended queues) v h = ground arith
happen-IsAlive s worked v h = ground arith
happen-IsAlive s worked_end v h = ground arith

-- In every run in which `coroutine_gc` is not called for a coroutine that its own callback has resumed
-- again: the state is there while a thread runs it, and behind `coroutine_gc` it is freed at once, or
-- is marked to be freed when the callback of its run ends.
pub Reach-IsAlive : {s : System} → Reach s → IsAlive s
Reach-IsAlive loaded = ground arith
Reach-IsAlive (then_ {s} e r h) = happen-IsAlive s e (Reach-IsAlive r) h

-- In the callback of its run, a coroutine that can go on may be resumed again and then closed by
-- `__close`: behind the callback a thread of libuv runs a state that is freed.
freed_while_run :
    (co : StateCoro)
    → co.l ≡ true
    → onworked_end (coroutine_gc (system_resume true true (onworked co)).1)
      ≡ record { l = false; work = true; freepending = false }
unfolding onworked system_resume coroutine_gc onworked_end
freed_while_run co l = ground arith
