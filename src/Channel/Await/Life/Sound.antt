-- ===== src/Channel/Await/Life/Sound.antt =====
-- Every event keeps a channel sound (src/lchannem.c).
use mathlib.Core.Path.{subst}
use coutil.Prelude.{
  ◌-◌, ◌≡◌, ◌∙◌, sym, ap, refl, Bool, true, false, Option, none, some, ◌∷◌, length, arith,
  if◌then◌else◌, Bool-cases, inl, inr,
}
use coutil.Channel.Swap.{boolean, Stack, swapvalues}
use coutil.Channel.Await.{
  LuaChannel, System, Synced, returned, suspended, raised, k_setupsynced, channel_sync,
  cancelsynced, onsynced_value, restorechannel, channelclose, channel_close, release,
  channel_create,
}
use coutil.Channel.Await.Values.{arguments, swapvalues-call, returnsynced-counted}
use coutil.Channel.Await.Exchange.{waiting_in, met}
use coutil.Channel.Await.Life.{
  IsSound, Flags, Event, await, sync, meet, synced, cancel, close, collect, happen, can_happen,
  armed_of, set_up, closed, Setup, Sound,
}
use coutil.Channel.Await.Life.Setup.{k_setupsynced-Setup, channel_sync-Setup}

suspended-Flags :
    (s : System) (l : Stack)
    → s.channel.named ≡ true
    → s.channel.handle ≡ false
    → Flags s
    → Flags (record s { channel = waiting_in s.channel l; queued = true; waiting = true })
suspended-Flags s l n h v = ground arith

set_up-Sound :
    (l : Stack) (s : System) (r : Option (Synced × LuaChannel))
    → Setup s.channel l r
    → IsSound s
    → Sound (set_up s r)
set_up-Sound l s none u v = tt
set_up-Sound l s (some (raised, channel)) u v =
    subst (λ c. IsSound (record s { channel = c })) (sym u) v
set_up-Sound l s (some (returned x, channel)) u v =
    subst (λ c. IsSound (record s { channel = c })) (sym u) v
set_up-Sound l s (some (suspended, channel)) u v =
    subst (λ c. IsSound (record s { channel = c; queued = true; waiting = true })) (sym u.2)
      (
        suspended-Flags s l u.0 u.1 v.0,
        record {
          empty = λ h. absurd (ground arith);
          waits = λ h. (arguments l, refl, u.3);
          gets = λ h. absurd (ground (arith, h, u.1, v.0.used));
        },
      )

-- The channel is free again.
abbrev pub freed : System → System
freed s = record s {
  queued = false;
  matched = false;
  waiting = false;
  canceled = false;
  channel = restorechannel s.channel;
}

freed-Flags : (s : System) → Flags s → Flags (freed s)
unfolding restorechannel
freed-Flags s v = ground arith

freed-IsSound : (s : System) → IsSound s → IsSound (freed s)
unfolding restorechannel
freed-IsSound s v = (
  freed-Flags s v.0,
  record {
    empty = λ h. refl;
    waits = λ h. absurd (ground (arith, h));
    gets = λ h. absurd (ground (arith, h));
  },
)

pub onsynced_value-freed :
    (l : Stack) (s : System) → IsSound s → s.matched ≡ true → onsynced_value l s ≡ some (freed s)
unfolding onsynced_value
onsynced_value-freed l s v m =
    let (vs, e, a) = v.1.gets m in
    let got = returnsynced-counted l vs s.channel e a in
    let f = v.0 in
    elim (Bool-cases s.waiting) [
      | inl w ↦ simp (onsynced_value, w, got) (ground arith)
      | inr w ↦ ground arith
    ]

pub cancelsynced-freed :
    (s : System)
    → IsSound s
    → s.waiting ≡ true
    → cancelsynced s
      ≡ some (if s.queued then freed s else record s { waiting = false; canceled = true })
unfolding cancelsynced
cancelsynced-freed s v w = let f = v.0 in ground arith

left-IsSound :
    (s : System)
    → IsSound s
    → s.waiting ≡ true
    → s.queued ≡ false
    → IsSound (record s { waiting = false; canceled = true })
left-IsSound s v w q =
    (let f = v.0 in ground arith, record { empty = v.1.empty; waits = v.1.waits; gets = v.1.gets })

release-Flags : (s : System) → Flags s → s.channel.handle ≡ false → Flags (release s)
unfolding release
release-Flags s v h = ground arith

release-IsSound : (s : System) → IsSound s → s.channel.handle ≡ false → IsSound (release s)
unfolding release
release-IsSound s v h =
    (release-Flags s v.0 h, record { empty = v.1.empty; waits = v.1.waits; gets = v.1.gets })

pub channelclose-free :
    (idle : Bool) (l : Stack) (s : System)
    → s.channel.handle ≡ false
    → channelclose idle l s ≡ some (if s.channel.named then release s else s)
unfolding channelclose
channelclose-free idle l s h = ground arith

closed-Sound :
    (s : System)
    → IsSound s
    → s.channel.handle ≡ false
    → IsSound (if s.channel.named then release s else s)
closed-Sound s v h = elim (Bool-cases s.channel.named) [
  | inl n ↦ simp n (release-IsSound s v h)
  | inr n ↦ simp n v
]

pub close-free :
    (l : Stack) (s : System)
    → s.channel.handle ≡ false
    → closed (channel_close true l s) ≡ some (if s.channel.named then release s else s)
unfolding channel_close
close-free l s h = ground arith

happen-Sound : (s : System) (e : Event) → IsSound s → can_happen e s ≡ true → Sound (happen e s)
unfolding happen channel_close
happen-Sound s (await option values room async c rest) v h =
    let l = c ∷ rest in
    set_up-Sound l s (k_setupsynced option (armed_of values) room async l s.channel)
      (k_setupsynced-Setup option (armed_of values) room async l s.channel v.1.empty) v
happen-Sound s (sync option values c rest) v h =
    let l = c ∷ rest in
    set_up-Sound l s (channel_sync option (armed_of values) l s.channel)
      (channel_sync-Setup option (armed_of values) l s.channel) v
happen-Sound s (meet c rest) v h =
    let (ys, e, a) = v.1.waits (ground arith) in
    let swapped = swapvalues-call c rest ys (ground arith) a in
    let passes = met c rest ys s.channel.stack e (ground arith) a in
    simp (passes.0, passes.1)
      (
        ground arith,
        record {
          empty = λ n. absurd (let f = v.0 in ground (arith, n));
          waits = λ n. absurd (ground (arith, n));
          gets = λ n. (
            boolean true ∷ arguments (c ∷ rest),
            ap (λ stack. (swapvalues (c ∷ rest) 1 (length (c ∷ rest) - 2) stack).1) e
                ∙ ap (λ (r : Stack × Stack). r.1) swapped,
            ground arith,
          );
        },
      )
happen-Sound s (synced l) v c = subst Sound (sym (onsynced_value-freed l s v c)) (freed-IsSound s v)
happen-Sound s cancel v c =
    let next = λ (queued : Bool).
      if queued then freed s else record s { waiting = false; canceled = true } in
    subst Sound (sym (cancelsynced-freed s v c)) (elim (Bool-cases s.queued) [
      | inl q ↦ subst (λ b. IsSound (next b)) (sym q) (freed-IsSound s v)
      | inr q ↦ subst (λ b. IsSound (next b)) (sym q) (left-IsSound s v c q)
    ])
happen-Sound s (close l) v c = elim (Bool-cases s.channel.handle) [
  | inl h ↦ simp (channel_close, h) v
  | inr h ↦ subst Sound (sym (close-free l s h)) (closed-Sound s v h)
]
happen-Sound s (collect l) v c =
    let h : s.channel.handle ≡ false = ground arith in
    subst Sound (sym (channelclose-free true l s h)) (closed-Sound s v h)

-- The channel that `channel_create` returns.
abbrev pub new : System
new = record {
  channel = (channel_create true true true).channel;
  queued = false;
  matched = false;
  waiting = false;
  canceled = false;
}

pub data Reach : System → Type 0 where
  created : Reach new
  then_ :
      {s s' : System} (e : Event)
      → Reach s
      → can_happen e s ≡ true
      → happen e s ≡ some s'
      → Reach s'

new-IsSound : IsSound new
unfolding channel_create
new-IsSound = (
  ground arith,
  record {
    empty = λ h. refl;
    waits = λ h. absurd (ground (arith, h));
    gets = λ h. absurd (ground (arith, h));
  },
)

-- However coroutines, other threads and the loop use a channel that is not closed by `__close` while
-- it is in use: its handle is there exactly while the channel waits in the queue or its callback is
-- due, and exactly while the coroutine that called waits or has been canceled; its state and its
-- reference on the sync are there as long as the channel is not closed, and while it is in use it is
-- not; its stack is empty while it is free, holds the arguments of the call while it waits, and behind
-- the exchange values that can be moved, with their number.
pub Reach-IsSound : {s : System} → Reach s → IsSound s
Reach-IsSound created = new-IsSound
Reach-IsSound (then_ {s} e r h k) = subst Sound k (happen-Sound s e (Reach-IsSound r) h)
