-- ===== src/Channel/Await/Life/Setup.antt =====
-- The calls of `k_setupsynced` (src/lchannem.c): the channel stays, or it waits.
use Prim.Native.String.{String}
use coutil.Prelude.{
  if◌then◌else◌, ℕ, ◌-◌, ◌≡◌, refl, Bool, true, false, ◌&&◌, not, Option, none, some, [], length,
  arith, Option-cases, Bool-cases, inl, inr,
}
use coutil.Channel.{Endpoint, checksyncargs}
use coutil.Channel.Swap.{integer, push, Stack, all_move, canmove, swapvalues, swapvalues_asserts}
use coutil.Channel.Await.{
  LuaChannel, k_setupsynced, returning, discard_narg, given_state, armsynced, channelsync, failure,
  channel_sync, cancelsuspension,
}
use coutil.Channel.Await.Values.{checksyncargs-all_move, moved_arguments-placed, arguments}
use coutil.Channel.Await.Exchange.{armsynced-waiting_in}
use coutil.Channel.Await.Life.{Setup}

returning-Setup : (channel : LuaChannel) (l l' : Stack) → Setup channel l (returning l' channel)
unfolding returning
returning-Setup channel l l' = elim (Option-cases (discard_narg l')) [
  | inl e ↦ simp (returning, e) tt
  | inr (x, e) ↦ simp (returning, e) refl
]

given_state-Setup :
    (room : Bool) (async : Option ℕ) (l : Stack) (channel : LuaChannel)
    → channel.named ≡ true
    → channel.handle ≡ false
    → channel.stack ≡ []
    → all_move (arguments l) ≡ true
    → Setup channel l (given_state (armsynced room async l channel))
unfolding given_state armsynced
given_state-Setup true none l channel n h s m =
    simp (armsynced-waiting_in l channel s m, given_state) (n, h, refl, m)
given_state-Setup true (some err) l channel n h s m =
    simp (armsynced, s, moved_arguments-placed l m, given_state)
      (returning-Setup channel l (push (integer err) (failure l)))
given_state-Setup false async l channel n h s m =
    simp (armsynced, s, given_state) (returning-Setup channel l (failure l))

matched-Setup :
    (channel : LuaChannel) (l dst : Stack)
    → Setup channel l (
        if swapvalues_asserts l 1 (length l - 2) dst
        then returning (swapvalues l 1 (length l - 2) dst).0 channel
        else none)
matched-Setup channel l dst = elim (Bool-cases (swapvalues_asserts l 1 (length l - 2) dst)) [
  | inl e ↦ rw e (returning-Setup channel l (swapvalues l 1 (length l - 2) dst).0)
  | inr e ↦ rw e tt
]

pub channel_sync-Setup :
    (option : Option String) (match : Option Stack) (l : Stack) (channel : LuaChannel)
    → Setup channel l (channel_sync option match l channel)
unfolding channel_sync channelsync given_state cancelsuspension
channel_sync-Setup option match l channel = elim (Bool-cases channel.named) [
  | inr e ↦ simp (channel_sync, e) refl
  | inl e ↦ elim (Option-cases (checksyncargs option (length l - 2) (canmove l (length l - 2)))) [
    | inl a ↦ simp (channel_sync, e, channelsync, a) refl
    | inr (p, a) ↦ met match p e a
  ]
]
  where
    met :
        (match : Option Stack) (p : Endpoint)
        → channel.named ≡ true
        → checksyncargs option (length l - 2) (canmove l (length l - 2)) ≡ some p
        → Setup channel l (channel_sync option match l channel)
    met (some dst) p e a = simp (channel_sync, e, channelsync, a) (matched-Setup channel l dst)
    met none p e a =
        simp (channel_sync, e, channelsync, a, given_state, cancelsuspension)
          (returning-Setup channel l (push (integer 2) (failure l)))

pub k_setupsynced-Setup :
    (option : Option String) (match : Option Stack) (room : Bool) (async : Option ℕ) (l : Stack)
    (channel : LuaChannel)
    → (channel.handle ≡ false → channel.stack ≡ [])
    → Setup channel l (k_setupsynced option match room async l channel)
unfolding k_setupsynced channelsync
k_setupsynced-Setup option match room async l channel empty =
    elim (Bool-cases (channel.named && not channel.handle)) [
      | inr e ↦ simp (k_setupsynced, e) refl
      | inl e ↦
          elim (Option-cases (checksyncargs option (length l - 2) (canmove l (length l - 2)))) [
            | inl a ↦ simp (k_setupsynced, e, channelsync, a) refl
            | inr (p, a) ↦ met match p e a
          ]
    ]
  where
    met :
        (match : Option Stack) (p : Endpoint)
        → (channel.named && not channel.handle) ≡ true
        → checksyncargs option (length l - 2) (canmove l (length l - 2)) ≡ some p
        → Setup channel l (k_setupsynced option match room async l channel)
    met (some dst) p e a = simp (k_setupsynced, e, channelsync, a) (matched-Setup channel l dst)
    met none p e a =
        simp (k_setupsynced, e, channelsync, a)
          (given_state-Setup room async l channel (ground arith) (ground arith)
            (empty (ground arith)) (checksyncargs-all_move option l p a))
