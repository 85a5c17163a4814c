-- ===== src/Channel/Await/Life/Ends.antt =====
-- The end of a channel while it is in use (src/lchannem.c).
use coutil.Prelude.{◌≡◌, refl, true, false, ◌||◌, Option, none, some, arith, Bool-cases, inl, inr}
use coutil.Channel.Swap.{Stack}
use coutil.Channel.Await.{System, cancelsynced, channelclose, run_until_restored, release}
use coutil.Channel.Await.Life.{IsSound}
use coutil.Channel.Await.Life.Sound.{onsynced_value-freed, freed}

abbrev of_option : Option System → System → System
of_option none s = s
of_option (some s') s = s'

-- Nothing of a channel is left, and neither another thread nor the loop refers to it.
pub record Ended (s : System) : Type 0 where
  pub closed : (s.channel.named || s.channel.alive) ≡ false
  pub given_back : s.channel.held ≡ false
  pub left : (s.queued || s.matched) ≡ false

release-Ended : (s : System) → s.queued ≡ false → s.matched ≡ false → Ended (release s)
unfolding release
release-Ended s q m = ground arith

channelclose-matched :
    (l : Stack) (s : System)
    → IsSound s
    → s.matched ≡ true
    → channelclose true l s ≡ some (release (freed s))
unfolding channelclose run_until_restored
channelclose-matched l s v m = let f = v.0 in let run = onsynced_value-freed l s v m in ground arith

-- As the Lua state closes, the loop does not run: the finalizer of a channel in a sound state, in use
-- or not, fails no assertion and waits for no callback that is not due, and behind it the channel's
-- state is closed, its reference is given back, and neither the queue nor a callback that is due has
-- the channel.
pub channelclose-Ended :
    (l : Stack) (s : System)
    → IsSound s
    → (s' : System) × (channelclose true l s ≡ some s') × Ended s'
unfolding channelclose
channelclose-Ended l s v = elim (Bool-cases s.matched) [
  | inl m ↦ (release (freed s), channelclose-matched l s v m, release-Ended (freed s) refl refl)
  | inr m ↦
      let f = v.0 in
      elim (Bool-cases s.channel.named) [
        | inl n ↦ (
          release (record s { queued = false }),
          ground arith,
          release-Ended (record s { queued = false }) refl m,
        )
        | inr n ↦ (s, ground arith, ground arith)
      ]
]

-- If a variable that is to be closed ends, `__close` is called also for a channel that waits in the
-- queue for a coroutine. It is closed, and nothing of it is left, but the coroutine still waits: no
-- callback will resume it, and where another coroutine does, the mutex of a sync is locked on which
-- the channel has no reference.
pub closed_in_use :
    (l : Stack) (s : System)
    → IsSound s
    → s.waiting ≡ true
    → s.queued ≡ true
    → (s' : System) × (channelclose false l s ≡ some s')
      × (s'.waiting ≡ true)
      × Ended s'
      × (cancelsynced s' ≡ none)
unfolding channelclose cancelsynced release
closed_in_use l s v w q =
    let f = v.0 in
    (release (record s { queued = false }), ground arith, w, ground arith, ground arith)

-- A channel whose callback is due cannot be closed by `__close` while the loop runs: the assertion on
-- `loop->data` fails.
closed_when_matched :
    (l : Stack) (s : System) → IsSound s → s.matched ≡ true → channelclose false l s ≡ none
unfolding channelclose run_until_restored
closed_when_matched l s v m = let f = v.0 in ground arith
