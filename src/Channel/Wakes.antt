-- ===== src/Channel/Wakes.antt =====
-- How a task that runs its own event loop sleeps while it waits for channels, and is woken by another
-- thread (`lcu_ChannelTask` of src/lchaux.c and src/lchannem.c).
pub mod Wakeup
pub mod Progress
use coutil.Prelude.{
  ℕ, ◌+◌, ◌-◌, Bool, true, false, ◌==◌, ◌&&◌, not, ltb, Option, none, some, if◌then◌else◌,
}
use coutil.Prelude.Int.{ℤ, pos, negsuc}
use coutil.StateQ.{Ptr, null}

-- `wakes++` and `wakes--` on a C int.
abbrev pub succ_ℤ : ℤ → ℤ
succ_ℤ (pos n) = pos (n + 1)
succ_ℤ (negsuc n) = if n == 0 then pos 0 else negsuc (n - 1)

abbrev pub pred_ℤ : ℤ → ℤ
pred_ℤ (pos n) = if n == 0 then negsuc 0 else pos (n - 1)
pred_ℤ (negsuc n) = negsuc (n + 1)

abbrev pub is_zero : ℤ → Bool
is_zero (pos n) = n == 0
is_zero (negsuc n) = false

pub record ChannelTask : Type 0 where
  pub wakes : ℤ
  pub l : Ptr

-- `getsuspendedtask` for the state of a channel of such a task, after `uv_async_send`: the state to
-- resume, if any. The other two cases use no `lcu_ChannelTask`: a state that is a task is the one to
-- resume, and for a channel outside of tasks the handle is sent and there is none.
unfoldable pub getsuspendedtask : ChannelTask → Ptr × ChannelTask
getsuspendedtask task = (task.l, record { wakes = succ_ℤ task.wakes; l = null })

-- `lcuCS_suspendedchtask` of the state `l`; it returns whether the state sleeps.
unfoldable pub suspendedchtask : ChannelTask → Ptr → Bool × ChannelTask
suspendedchtask task l = if is_zero task.wakes then (true, record task { l = l }) else (false, task)

-- The first part of `uv_onsynced`.
unfoldable pub onsynced : ChannelTask → ChannelTask
onsynced task = record task { wakes = pred_ℤ task.wakes }

-- One task, and the threads that match its channels.
pub record System : Type 0 where
  pub task : ChannelTask
  pub sending : ℕ  -- threads between `uv_async_send` and the lock in `getsuspendedtask`
  pub unhandled : ℕ  -- sent handles whose callback has not run
  pub awake : Bool  -- the task is run by a worker, or waits in its pool to be

pub data Step : Type 0 where
  send : Step  -- a thread has matched a channel of the task
  get : Step  -- the thread gets the state of the task and resumes it
  synced : Step  -- the event loop of the task calls `uv_onsynced`
  suspend : Ptr → Step  -- the task has yielded, and its worker suspends its state

-- Whether a step can be taken.
abbrev pub enabled : Step → System → Bool
enabled send s = true
enabled get s = ltb 0 s.sending
enabled synced s = s.awake && ltb 0 s.unhandled
enabled (suspend l) s = s.awake && not (l == null)

unfoldable pub take_step : Step → System → System
unfolding getsuspendedtask onsynced suspendedchtask
take_step send s = record s { sending = s.sending + 1; unhandled = s.unhandled + 1 }
take_step get s =
    let (l, task) = getsuspendedtask s.task in
    record s { task = task; sending = s.sending - 1; awake = if l == null then s.awake else true }
take_step synced s = record s { task = onsynced s.task; unhandled = s.unhandled - 1 }
take_step (suspend l) s =
    let (sleeps, task) = suspendedchtask s.task l in record s { task = task; awake = not sleeps }
