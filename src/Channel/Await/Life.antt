-- ===== src/Channel/Await/Life.antt =====
-- What happens to a channel, and what holds between the calls and callbacks that use it
-- (src/lchannem.c).
pub mod Setup
pub mod Sound
pub mod Fails
pub mod Ends
use Prim.Native.String.{String}
use mathlib.Core.Path.{subst}
use coutil.Prelude.{
  ℕ, ◌-◌, ◌≡◌, ◌∙◌, sym, ap, refl, Bool, true, false, ◌&&◌, ◌||◌, not, ◌==◌, Option, none, some, [],
  ◌∷◌, length, arith, if◌then◌else◌, Option-cases, Bool-cases, inl, inr,
}
use coutil.Channel.{Endpoint, checksyncargs}
use coutil.Channel.Swap.{
  boolean, integer, push, Stack, Value, all_move, canmove, swapvalues, swapvalues_asserts,
}
use coutil.Channel.Await.{
  LuaChannel, System, Synced, returned, suspended, raised, k_setupsynced, channel_sync,
  cancelsynced, onsynced_value, returnsynced, restorechannel, channelclose, channel_close,
  run_until_restored, release, returning, discard_narg, given_state, armsynced, channelsync,
  failure,
}
use coutil.Channel.Await.Values.{
  checksyncargs-all_move, moved_arguments-placed, arguments, armed, counted, swapvalues-call,
  returnsynced-counted,
}
use coutil.Channel.Await.Exchange.{waiting_in, armsynced-waiting_in}

-- What happens to a channel. The stacks are of the callers; `values` are those of a state of another
-- channel that waits, if the call meets one.
pub data Event : Type 0 where
  await :
      Option String
      → (values : Option Stack) → (room : Bool) → (async : Option ℕ) → (c : Value) → (rest : Stack)
      → Event
  sync : Option String → (values : Option Stack) → (c : Value) → (rest : Stack) → Event  -- a call of `channel:sync`, which does not meet this channel
  meet : (c : Value) → (rest : Stack) → Event  -- a thread calls on the same sync and meets the channel
  synced : Stack → Event  -- libuv calls the callback of the handle
  cancel : Event  -- another coroutine resumes the one that awaits
  close : Stack → Event
  collect : Stack → Event

abbrev pub armed_of : Option Stack → Option Stack
armed_of none = none
armed_of (some ys) = some (armed ys)

abbrev pub values_of : Option Stack → Stack
values_of none = []
values_of (some ys) = ys

-- What the call of a coroutine does to the rest of the system.
abbrev pub set_up : System → Option (Synced × LuaChannel) → Option System
set_up s none = none
set_up s (some (raised, channel)) = some (record s { channel = channel })
set_up s (some (returned l, channel)) = some (record s { channel = channel })
set_up s (some (suspended, channel)) =
    some (record s { channel = channel; queued = true; waiting = true })

abbrev pub closed : Option (Bool × System) → Option System
closed none = none
closed (some r) = some r.1

-- A channel in use is not collected, as a coroutine that is kept from the collector refers to it; and
-- it is not closed by `__close`: Ends shows what that would do.
abbrev pub can_happen : Event → System → Bool
can_happen (await option values room async c rest) s = all_move (values_of values)
can_happen (sync option values c rest) s = all_move (values_of values)
can_happen (meet c rest) s = s.queued && all_move (arguments (c ∷ rest))
can_happen (synced l) s = s.matched
can_happen cancel s = s.waiting
can_happen (close l) s = true
can_happen (collect l) s = not s.channel.handle

unfoldable pub happen : Event → System → Option System
happen (await option values room async c rest) s =
    set_up s (k_setupsynced option (armed_of values) room async (c ∷ rest) s.channel)
happen (sync option values c rest) s =
    set_up s (channel_sync option (armed_of values) (c ∷ rest) s.channel)
happen (meet c rest) s =
    let l = c ∷ rest in
    let swapped = swapvalues l 1 (length l - 2) s.channel.stack in
    let s' = record s {
      queued = false;
      matched = true;
      channel = record (s.channel) { stack = swapped.1 };
    } in
    if swapvalues_asserts l 1 (length l - 2) s.channel.stack
    then elim (discard_narg swapped.0) [ none ↦ none | some l' ↦ some s' ]
    else none
happen (synced l) s = onsynced_value l s
happen cancel s = cancelsynced s
happen (close l) s = closed (channel_close true l s)
happen (collect l) s = channelclose true l s

pub record Flags (s : System) : Type 0 where
  pub used : s.channel.handle ≡ (s.queued || s.matched)
  pub once : (s.queued && s.matched) ≡ false
  pub claimed : s.channel.handle ≡ (s.waiting || s.canceled)
  pub either : (s.waiting && s.canceled) ≡ false
  pub late : s.canceled ≡ true → s.matched ≡ true
  pub alive : s.channel.alive ≡ s.channel.named
  pub held : s.channel.held ≡ s.channel.named
  pub kept : s.channel.handle ≡ true → s.channel.named ≡ true

-- What the stack of the channel holds.
pub record Holds (s : System) : Type 0 where
  pub empty : s.channel.handle ≡ false → s.channel.stack ≡ []
  pub waits : s.queued ≡ true → (ys : Stack) × (s.channel.stack ≡ armed ys) × (all_move ys ≡ true)
  pub gets : s.matched ≡ true → (vs : Stack) × (s.channel.stack ≡ counted vs) × (all_move vs ≡ true)

abbrev pub IsSound : System → Type 0
IsSound s = Flags s × Holds s

-- The results of a call: either the channel stays, or it waits with the arguments.
abbrev pub Setup : LuaChannel → Stack → Option (Synced × LuaChannel) → Type 0
Setup channel l none = Unit
Setup channel l (some (raised, channel')) = channel' ≡ channel
Setup channel l (some (returned x, channel')) = channel' ≡ channel
Setup channel l (some (suspended, channel')) =
    (channel.named ≡ true)
    × (channel.handle ≡ false)
    × (channel' ≡ waiting_in channel l)
    × (all_move (arguments l) ≡ true)

abbrev pub Sound : Option System → Type 0
Sound none = Unit
Sound (some s) = IsSound s
