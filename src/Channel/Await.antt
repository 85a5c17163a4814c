-- ===== src/Channel/Await.antt =====
-- The channels of src/lchannem.c: what a coroutine does that awaits on one (`system.awaitch`), what a
-- thread does with one, and the end of a channel. The stacks are those of Channel.Swap. A failed
-- assertion, or the use of what is freed, is `none`.
pub mod Values
pub mod Exchange
pub mod Life
use Prim.Native.String.{String}
use coutil.Prelude.{
  ℕ, ◌+◌, ◌-◌, Bool, true, false, ◌==◌, ◌&&◌, not, ltb, Option, none, some, List, [], ◌∷◌, ◌++◌,
  length, if◌then◌else◌,
}
use coutil.Channel.{checksyncargs}
use coutil.Channel.Swap.{
  boolean, integer, message, nil, Stack, to_integer, value_at, push, pop, settop, canmove, movefrom,
  swapvalues, swapvalues_asserts,
}

-- `LuaChannel`, with the thread that `handle` belongs to and the place of `L` left out.
pub record LuaChannel : Type 0 where
  pub named : Bool  -- the user value is the name: the channel is not closed
  pub handle : Bool  -- `handle` is not NULL
  pub alive : Bool  -- `L` is not closed
  pub held : Bool  -- its reference on `sync` is not given back
  pub stack : Stack  -- of `L`

-- The integer on the top of a stack.
abbrev pub top_integer : Stack → ℕ
top_integer s = to_integer (value_at s (length s))

unfoldable pub restorechannel : LuaChannel → LuaChannel
restorechannel channel = record channel { stack = []; handle = false }

-- `returnsynced`: the results, the stack with them, and the channel.
unfoldable pub returnsynced : Stack → LuaChannel → Option (ℕ × Stack × LuaChannel)
unfolding restorechannel movefrom
returnsynced l channel =
    let values = pop 1 channel.stack in
    let nret = length values in
    let (moved, l', values') = movefrom l values nret in
    if top_integer channel.stack == length channel.stack - 1
    then (if moved then some (nret, l', restorechannel channel) else none)
    else none

-- What `armsynced` and `cancelsuspension` return: whether the state waits, with the stack and the
-- channel.
pub record Given : Type 0 where
  pub waits : Bool
  pub l : Stack
  pub channel : LuaChannel

abbrev pub failure : Stack → Stack
failure l = settop 1 l ++ boolean false ∷ message ∷ []

-- The arguments that `armsynced` moves to the stack of the channel, which is empty.
unfoldable pub moved_arguments : Stack → (narg : ℕ) → Bool × Stack
unfolding movefrom
moved_arguments l narg =
    let (moved, stack, rest) = movefrom (nil ∷ []) l narg in
    if ltb 0 narg then (moved, stack) else (true, [])

-- `armsynced`: `room` is what `lua_checkstack` returns, `async` the error of `uv_async_init`, if any.
-- An active handle needs no `uv_async_init`.
unfoldable pub armsynced : (room : Bool) → (async : Option ℕ) → Stack → LuaChannel → Option Given
unfolding moved_arguments
armsynced room async l channel =
    let narg = length l - 2 in
    let (moved, stack) = moved_arguments l narg in
    let declined : Stack → Given =
      λ (l' : Stack). record { waits = false; l = l'; channel = channel } in
    let armed = record channel { stack = stack ++ integer 0 ∷ integer narg ∷ []; handle = true } in
    if length channel.stack == 0
    then (if not room
        then some (declined (failure l))
        else if not moved
        then some (declined (failure l))
        else elim async [
          | some err ↦ some (declined (push (integer err) (failure l)))
          | none ↦ some (record { waits = true; l = l; channel = armed })
        ])
    else none

-- `cancelsuspension`
unfoldable pub cancelsuspension : Stack → LuaChannel → Option Given
cancelsuspension l channel =
    some (record { waits = false; l = push (integer 2) (failure l); channel = channel })

-- `lcuT_resetcohdlk` and `lcuCS_matchchsync` as seen by the caller.
pub data Synced : Type 0 where
  raised : Synced  -- an error of an argument
  returned : Stack → Synced
  suspended : Synced

-- The end of `channelsync`, where it returns 1.
unfoldable pub discard_narg : Stack → Option Stack
discard_narg l = if top_integer l == length l - 2 then some (pop 1 l) else none

unfoldable pub returning : Stack → LuaChannel → Option (Synced × LuaChannel)
returning l channel = elim (discard_narg l) [ none ↦ none | some l' ↦ some (returned l', channel) ]

unfoldable pub given_state : Option Given → Option (Synced × LuaChannel)
given_state none = none
given_state (some g) = if g.waits then some (suspended, g.channel) else returning g.l g.channel

-- `channelsync`: `match` is the stack of the state that `lcuCS_matchchsync` takes out of the queue, if
-- any, and `given` what `getstate` returns.
unfoldable pub channelsync :
    (option : Option String)
    → (match : Option Stack) → Stack
    → LuaChannel
    → Option Given
    → Option (Synced × LuaChannel)
channelsync option match l channel given =
    let narg = length l - 2 in
    elim (checksyncargs option narg (canmove l narg)) [
      | none ↦ some (raised, channel)
      | some endpoint ↦ elim match [
        | some dst ↦
            if swapvalues_asserts l 1 narg dst
            then returning (swapvalues l 1 narg dst).0 channel
            else none
        | none ↦ given_state given
      ]
    ]

-- `k_setupsynced`
unfoldable pub k_setupsynced :
    Option String
    → (match : Option Stack) → (room : Bool) → (async : Option ℕ) → Stack
    → LuaChannel
    → Option (Synced × LuaChannel)
k_setupsynced option match room async l channel =
    if channel.named && not channel.handle
    then channelsync option match l channel (armsynced room async l channel)
    else some (raised, channel)

-- `channel_sync`
unfoldable pub channel_sync :
    Option String → (match : Option Stack) → Stack → LuaChannel → Option (Synced × LuaChannel)
channel_sync option match l channel =
    if channel.named
    then channelsync option match l channel (cancelsuspension l channel)
    else some (raised, channel)

-- A channel, its place in the queue of the channel's sync, and the coroutine that awaits on it.
pub record System : Type 0 where
  pub channel : LuaChannel
  pub queued : Bool  -- `channel->L` is in `sync->queue`
  pub matched : Bool  -- a thread has taken it out and exchanged values: the callback is due
  pub waiting : Bool  -- the operation of a coroutine waits for `channel->handle`
  pub canceled : Bool  -- the value of that operation is the channel

-- `cancelsynced`, called where the coroutine is resumed by another one.
unfoldable pub cancelsynced : System → Option System
unfolding restorechannel
cancelsynced s =
    let s' = record s { waiting = false } in
    if s.waiting && s.channel.held
    then (if s.queued
        then some (record s' { queued = false; channel = restorechannel s.channel })
        else some (record s' { canceled = true }))
    else none

-- `uv_onsynced`, behind the counting of wakes, up to where a coroutine goes on. `l` is its stack.
unfoldable pub onsynced_value : Stack → System → Option System
unfolding returnsynced restorechannel
onsynced_value l s =
    let s' = record s { matched = false } in
    if s.waiting
    then elim (returnsynced l s.channel) [
      | none ↦ none
      | some r ↦ some (record s' { waiting = false; channel = r.2 })
    ]
    else if s.canceled
    then some (record s' { canceled = false; channel = restorechannel s.channel })
    else none

-- The end of `channelclose`.
unfoldable pub release : System → System
release s = record s { channel = record (s.channel) { alive = false; held = false; named = false } }

-- The rounds of `uv_run` in `channelclose` until the handle is gone: the callback is due.
unfoldable pub run_until_restored : (idle : Bool) → Stack → System → Option System
unfolding onsynced_value
run_until_restored idle l s = if idle && s.matched then onsynced_value l s else none

-- `channelclose`, also `__gc` and `__close`: `idle` is whether the loop does not run, and `l` the
-- stack of the coroutine that waits.
unfoldable pub channelclose : (idle : Bool) → Stack → System → Option System
unfolding release run_until_restored
channelclose idle l s =
    if not s.channel.named
    then some s
    else if not s.channel.handle
    then some (release s)
    else if s.queued
    then some (release (record s { queued = false }))
    else elim (run_until_restored idle l s) [ none ↦ none | some s' ↦ some (release s') ]

-- `channel_close`: the first component is false for the error of its argument.
unfoldable pub channel_close : (idle : Bool) → Stack → System → Option (Bool × System)
unfolding channelclose
channel_close idle l s =
    if s.channel.handle
    then some (false, s)
    else elim (channelclose idle l s) [ none ↦ none | some s' ↦ some (true, s') ]

-- `channel_create`: whether it gives a channel, and the states and the references on a channel that are
-- left, which the new object, if it has its metatable, gives back. `newstate` and `getchsync` are what
-- the allocator lets `lua_newstate` and `lcuCS_getchsync` do, and `task` what `uv_mutex_init` does.
pub record Created : Type 0 where
  pub returns : Bool
  pub finalized : Bool  -- the object has its metatable
  pub channel : LuaChannel

unfoldable pub channel_create : (newstate getchsync task : Bool) → Created
channel_create newstate getchsync task =
    let opened : LuaChannel = record {
      named = true;
      handle = false;
      alive = newstate;
      held = newstate && getchsync;
      stack = [];
    } in
    if not newstate
    then record { returns = false; finalized = false; channel = opened }
    else if not getchsync
    then record { returns = false; finalized = false; channel = record opened { alive = false } }
    else record { returns = task; finalized = true; channel = opened }
