-- ===== src/Channel/Wakes/Wakeup.antt =====
-- A sleeping task is woken once for what it waits for (src/lchaux.c).
use coutil.Prelude.{◌≡◌, refl, true, false, ◌==◌, arith}
use coutil.Prelude.Int.{pos, sub_ℕ}
use coutil.StateQ.{null}
use coutil.Channel.Wakes.{System, Step, send, get, synced, suspend, enabled, take_step}

-- Steps of any threads in any order, from a task that runs.
pub data Reach : System → Type 0 where
  start : Reach (record {
    task = record { wakes = pos 0; l = null };
    sending = 0;
    unhandled = 0;
    awake = true;
  })
  next : {s : System} (p : Step) → Reach s → enabled p s ≡ true → Reach (take_step p s)

-- `wakes` is the number of handles that were sent and not handled, less the threads that have not yet
-- counted theirs; the task has its state to give exactly while it sleeps; and a task that sleeps has
-- a thread on the way for each handle that was sent to it.
pub record IsWakeful (s : System) : Type 0 where
  pub counted : s.task.wakes ≡ sub_ℕ s.unhandled s.sending
  pub given : s.awake ≡ (s.task.l == null)
  pub asleep : s.awake ≡ false → s.unhandled ≡ s.sending

pub take_step-IsWakeful :
    (s : System) → (p : Step) → IsWakeful s → enabled p s ≡ true → IsWakeful (take_step p s)
unfolding take_step
take_step-IsWakeful s send v e = ground arith
take_step-IsWakeful s get v e = ground arith
take_step-IsWakeful s synced v e = ground arith
take_step-IsWakeful s (suspend l) v e = ground arith

-- In every interleaving of a task with the threads that match its channels, a task that sleeps while
-- one of its handles is sent has a thread on the way that will resume it (no wake-up is lost), its
-- state is there to be taken exactly while it sleeps (it is not resumed twice), and `wakes` counts
-- the handles that are sent and not handled.
pub Reach-IsWakeful : {s : System} → Reach s → IsWakeful s
Reach-IsWakeful start = record { counted = refl; given = refl; asleep = λ h. cc }
Reach-IsWakeful (next {s} p r e) = take_step-IsWakeful s p (Reach-IsWakeful r) e
