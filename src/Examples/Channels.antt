-- ===== src/Examples/Channels.antt =====
-- Runs of the channels of src/lchaux.c.
use coutil.Prelude.Int.{pos}
use coutil.Channel.Names.{ChannelMap, setglobal, getchsync, freechsync}
use coutil.Channel.Names.Counts.{
  Use, unused, got, freed, used, Held, unheld, less, held, IsCounted, Use-IsCounted,
}
use coutil.Channel.Wakes.{System, take_step, send, get, suspend}
use coutil.Channel.Wakes.Progress.{Leads, IsQuiet, Reach-Leads}
use coutil.Channel.Wakes.Wakeup.{Reach, start, next, IsWakeful, Reach-IsWakeful}
use coutil.Prelude.{◌+◌, ◌||◌, ltb, true, ◌≡◌, refl, none, some, List, [], ◌∷◌}
use coutil.Channel.{chsync_in, chsync_out, ChannelSync, matchchsync}
use coutil.Channel.Rendezvous.{Waiter, IsChannel, Rule, waiting_state, matchchsync-Rule}

-- The states 4 and 5 wait for input.
abbrev two_wait : ChannelSync
two_wait = record { refcount = 1; expected = 2; queue = 4 ∷ 5 ∷ [] }

abbrev waiters : List Waiter
waiters =
    record { state = 4; endpoint = chsync_in } ∷ record { state = 5; endpoint = chsync_in } ∷ []

two_wait-IsChannel : IsChannel two_wait waiters
two_wait-IsChannel = record { queued = refl; expects = (refl, (refl, refl, tt)) }

matchchsync-Rule_example :
    (ws' : List Waiter) × Rule waiters chsync_out
      (waiting_state none 9)
      (matchchsync two_wait chsync_out 9 none).0
      ws'
    × IsChannel (matchchsync two_wait chsync_out 9 none).1 ws'
matchchsync-Rule_example = matchchsync-Rule two_wait waiters chsync_out 9 none two_wait-IsChannel

-- Two holders of the channel "jobs", one of whom lets it go.
abbrev jobs : ChannelSync
jobs = record { refcount = 1; expected = 0; queue = [] }

abbrev with_jobs : ChannelSync → ChannelMap
with_jobs sync = setglobal (λ k. none) "jobs" (some sync)

abbrev once : Held
once = record { holders = 1; states = [] }

one_holder : Use (held (λ k. unheld) "jobs" once) (with_jobs jobs)
unfolding getchsync
one_holder = got true "jobs" unused refl

-- The holder waits on it as state 4, and lets it go.
abbrev job_map : ChannelMap
job_map = setglobal (with_jobs jobs) "jobs" (some (matchchsync jobs chsync_in 4 none).1)

abbrev waiting_once : Held
waiting_once = record { holders = 1; states = (matchchsync jobs chsync_in 4 none).1.queue }

waits_as_4 : Use (held (held (λ k. unheld) "jobs" once) "jobs" waiting_once) job_map
waits_as_4 = used "jobs" jobs chsync_in 4 none one_holder refl refl

Use-IsCounted_example :
    IsCounted
      (held (held (held (λ k. unheld) "jobs" once) "jobs" waiting_once) "jobs" (less waiting_once))
      (freechsync job_map "jobs")
Use-IsCounted_example = Use-IsCounted (freed "jobs" waits_as_4 refl)

-- State 4 still waits on the channel that no one holds.
kept_for_4 :
    freechsync job_map "jobs" "jobs" ≡ some (record { refcount = 0; expected = 2; queue = 4 ∷ [] })
unfolding freechsync matchchsync
kept_for_4 = refl

freed_to_nothing : freechsync (with_jobs jobs) "jobs" "jobs" ≡ none
unfolding freechsync
freed_to_nothing = refl

-- A task that sleeps as state 7, and is resumed by the thread that matched its channel.
abbrev asleep : System
asleep =
    take_step (suspend 7)
      (record { task = record { wakes = pos 0; l = 0 }; sending = 0; unhandled = 0; awake = true })

abbrev woken : System
woken = take_step get (take_step send asleep)

Reach-woken : Reach woken
unfolding take_step
Reach-woken = next get (next send (next (suspend 7) start refl) refl) refl

is_woken : (woken.awake ≡ true) × (asleep.task.l ≡ 7)
unfolding take_step
is_woken = (refl, refl)

Reach-IsWakeful_example : IsWakeful woken
Reach-IsWakeful_example = Reach-IsWakeful Reach-woken

-- A handle was sent to the sleeping task, and the thread has not got its state yet.
abbrev called : System
called = take_step send asleep

Reach-called : Reach called
unfolding take_step
Reach-called = next send (next (suspend 7) start refl) refl

Reach-Leads_example :
    (t : System) × Leads (called.sending + called.unhandled) called t
    × IsQuiet (called.awake || ltb 0 called.unhandled) t
Reach-Leads_example = Reach-Leads Reach-called
