-- ===== src/Channel.antt =====
-- Channels of src/lchaux.c: the rendezvous of two states on `lcu_ChannelSync`, and the map from names
-- to channels. The queue is the list of states that StateQ.Refinement shows `lcu_StateQ` to stand
-- for. Each function is one critical section under the mutex of the channel or of the map.
pub mod Rendezvous
pub mod Names
pub mod Wakes
pub mod Swap
pub mod Await
use Prim.Native.Nat.{bit_and, bit_xor}
use Prim.Native.String.{String}
use text.Mathlib.Text.{◌==◌ as str_eq}
use coutil.Prelude.{
  ℕ, ◌+◌, ◌-◌, Bool, true, false, ◌&&◌, Option, none, some, List, [], ◌∷◌, ◌++◌, ◌==◌,
  if◌then◌else◌,
}
use coutil.StateQ.{Ptr}

-- LCU_CHSYNCIN, LCU_CHSYNCOUT and LCU_CHSYNCANY
pub data Endpoint : Type 0 where
  chsync_in chsync_out chsync_any : Endpoint

abbrev pub chsyncany : ℕ
chsyncany = 3

abbrev pub bits : Endpoint → ℕ
bits chsync_in = 1
bits chsync_out = 2
bits chsync_any = chsyncany

pub record ChannelSync : Type 0 where
  pub refcount : ℕ
  pub expected : ℕ
  pub queue : List Ptr

-- The loop of `lcuCS_checksyncargs` over its table of options.
abbrev pub options : List (String × Endpoint)
options = ("in", chsync_in) ∷ ("out", chsync_out) ∷ ("any", chsync_any) ∷ []

unfoldable pub find_option : List (String × Endpoint) → String → Option Endpoint
find_option [] name = none
find_option ((option, e) ∷ rest) name = if str_eq option name then some e else find_option rest name

-- `lcuCS_checksyncargs`: `movable` is the answer of `lcuL_canmove` for the arguments behind `idx`,
-- which it asks only where there are any; `none` is -1.
unfoldable pub checksyncargs : Option String → (narg : ℕ) → (movable : Bool) → Option Endpoint
unfolding find_option
checksyncargs option narg movable =
    elim (find_option options (elim option [ none ↦ "any" | some name ↦ name ])) [
      | none ↦ none
      | some e ↦ if (narg == 0) then some e else if movable then some e else none
    ]

-- What `lcuCS_matchchsync` does with the calling state.
pub data Outcome : Type 0 where
  matched : Ptr → Outcome  -- values are swapped with the state, which goes on
  enqueued : Ptr → Outcome  -- the state waits in the queue
  declined : Outcome  -- `getstate` returned NULL: nothing waits

-- The first test: on an empty queue the channel expects the endpoint opposite to the caller's.
abbrev pub expecting : ChannelSync → Endpoint → ChannelSync
expecting sync e = record sync {
  expected = if bits e == chsyncany then chsyncany else bit_xor (bits e) chsyncany;
}

abbrev pub enqueue : ChannelSync → Option (Option Ptr) → Ptr → Outcome × ChannelSync
enqueue sync none l = (enqueued l, record sync { queue = sync.queue ++ l ∷ [] })
enqueue sync (some none) l = (declined, sync)
enqueue sync (some (some c)) l = (enqueued c, record sync { queue = sync.queue ++ c ∷ [] })

-- `lcuCS_matchchsync` under `sync->mutex`. `getstate` is `none` for a NULL pointer, else what the
-- function returns for the caller's state `l`.
match_in : ChannelSync → List Ptr → Endpoint → Ptr → Option (Option Ptr) → Outcome × ChannelSync
match_in sync [] e l getstate = enqueue (expecting sync e) getstate l
match_in sync (w ∷ ws) e l getstate =
    if bit_and sync.expected (bits e) == 0
    then enqueue sync getstate l
    else (matched w, record sync { queue = ws })

unfoldable pub matchchsync :
    ChannelSync → Endpoint → Ptr → Option (Option Ptr) → Outcome × ChannelSync
unfolding match_in
matchchsync sync e l getstate = match_in sync sync.queue e l getstate

-- `lcuCS_matchchsync` returns 0 only where the calling state, or the state of its channel, waits.
unfoldable pub has_returned : Outcome → Bool
has_returned (matched _) = true
has_returned (enqueued _) = false
has_returned declined = true
