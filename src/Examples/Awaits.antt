-- ===== src/Examples/Awaits.antt =====
-- A coroutine of src/lchannem.c that awaits on a channel with one value, and a thread that gives two.
use coutil.Prelude.{◌≡◌, refl, true, false, none, some, [], ◌∷◌, length, ◌-◌}
use coutil.Channel.{chsync_any, checksyncargs, find_option}
use coutil.Channel.Swap.{
  Stack, nil, integer, boolean, lightuserdata, canmove, swapvalues, swapvalues_asserts, swap_more,
  swap_loop, swap_rest, pushfrom, movefrom,
}
use coutil.Channel.Await.{
  LuaChannel, System, suspended, returned, k_setupsynced, channelsync, returnsynced, discard_narg,
  channelclose, cancelsynced, armsynced, moved_arguments, given_state, channel_create,
}
use coutil.Channel.Await.Values.{arguments}
use coutil.Channel.Await.Exchange.{Accepted, awaitch-exchanged, waiting_in}
use coutil.Channel.Await.Life.{Event, await, meet, happen, IsSound}
use coutil.Channel.Await.Life.Sound.{Reach, created, then_, new, Reach-IsSound}
use coutil.Channel.Await.Life.Ends.{Ended, channelclose-Ended, closed_in_use}

-- The channel, the endpoint and the arguments.
abbrev first : Stack
first = lightuserdata 1 ∷ nil ∷ integer 5 ∷ []

abbrev second : Stack
second = nil ∷ integer 7 ∷ boolean true ∷ []

awaited :
    happen (await none none true none (lightuserdata 1) (nil ∷ integer 5 ∷ [])) new
    ≡ some (record new { channel = waiting_in new.channel first; queued = true; waiting = true })
unfolding happen k_setupsynced channelsync checksyncargs find_option given_state armsynced
    moved_arguments movefrom canmove channel_create
awaited = refl

abbrev in_queue : System
in_queue = record new { channel = waiting_in new.channel first; queued = true; waiting = true }

Reach-in_queue : Reach in_queue
Reach-in_queue =
    then_ (await none none true none (lightuserdata 1) (nil ∷ integer 5 ∷ [])) created refl awaited

abbrev due : System
due = record new {
  channel = record (new.channel) {
    handle = true;
    stack = boolean true ∷ integer 7 ∷ boolean true ∷ integer 3 ∷ [];
  };
  matched = true;
  waiting = true;
}

met : happen (meet (lightuserdata 2) second) in_queue ≡ some due
unfolding happen swapvalues swap_more swap_loop swap_rest pushfrom movefrom canmove channel_create
    swapvalues_asserts discard_narg
met = refl

Reach-due : Reach due
Reach-due = then_ (meet (lightuserdata 2) second) Reach-in_queue refl met

Reach-IsSound_example : IsSound due
Reach-IsSound_example = Reach-IsSound Reach-due

abbrev failing : Event
failing = await none none false none (lightuserdata 1) (nil ∷ integer 5 ∷ [])

channelclose-Ended_example : (s' : System) × (channelclose true [] due ≡ some s') × Ended s'
channelclose-Ended_example = channelclose-Ended [] due (Reach-IsSound Reach-due)

closed_in_use_example :
    (s' : System) × (channelclose false [] in_queue ≡ some s')
    × (s'.waiting ≡ true)
    × Ended s'
    × (cancelsynced s' ≡ none)
closed_in_use_example = closed_in_use [] in_queue (Reach-IsSound Reach-in_queue) refl refl

accepts_first : Accepted none first chsync_any
unfolding checksyncargs find_option canmove
accepts_first = refl

accepts_second : Accepted none (lightuserdata 2 ∷ second) chsync_any
unfolding checksyncargs find_option canmove
accepts_second = refl

awaitch-exchanged_example :
    (waits : LuaChannel) × (k_setupsynced none none true none first new.channel
      ≡ some (suspended, waits))
    × (channelsync none (some waits.stack) (lightuserdata 2 ∷ second) new.channel none
        ≡ some (returned (lightuserdata 2 ∷ boolean true ∷ arguments first), new.channel))
    × (let met = record waits {
      stack =
          (swapvalues
            (lightuserdata 2 ∷ second)
            1
            (length (lightuserdata 2 ∷ second) - 2)
            waits.stack).1;
    } in
        returnsynced [] met ≡ some (3, boolean true ∷ integer 7 ∷ boolean true ∷ [], new.channel))
unfolding channel_create
awaitch-exchanged_example =
    awaitch-exchanged none none chsync_any chsync_any first [] second (lightuserdata 2) new.channel
      new.channel none refl refl refl accepts_first accepts_second
