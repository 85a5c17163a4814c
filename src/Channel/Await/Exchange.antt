-- ===== src/Channel/Await/Exchange.antt =====
-- A coroutine that awaits on a channel and a later call on it (src/lchannem.c).
use Prim.Native.String.{String}
use coutil.Prelude.{
  ◌+◌, ◌-◌, ◌≡◌, ◌∙◌, ap, refl, true, false, ◌==◌, Option, none, some, [], ◌∷◌, ◌++◌, length,
  length-append, arith,
}
use coutil.Channel.{Endpoint, checksyncargs}
use coutil.Channel.Swap.{
  boolean, integer, Stack, Value, all_move, canmove, value_at, swapvalues, swapvalues_asserts,
}
use coutil.Channel.Swap.Stack.{value_at_behind, pop-append}
use coutil.Channel.Await.{
  LuaChannel, Given, armsynced, returned, suspended, returning, given_state, channelsync,
  k_setupsynced, returnsynced, restorechannel, discard_narg,
}
use coutil.Channel.Await.Values.{
  arguments, armed, checksyncargs-all_move, moved_arguments-placed, swapvalues-call, asserts-call,
  counted, returnsynced-counted,
}

-- `lcuCS_checksyncargs` accepts the arguments of a call.
abbrev pub Accepted : Option String → Stack → Endpoint → Type 0
Accepted option l e = checksyncargs option (length l - 2) (canmove l (length l - 2)) ≡ some e

-- A channel that the arguments of the call `l` wait in.
abbrev pub waiting_in : LuaChannel → Stack → LuaChannel
waiting_in channel l = record channel { stack = armed (arguments l); handle = true }

sizes : (l : Stack) → length (arguments l) ≡ length l - 2
sizes [] = refl
sizes (c ∷ []) = refl
sizes (c ∷ o ∷ xs) = omega arith

pub armsynced-waiting_in :
    (l : Stack) (channel : LuaChannel)
    → channel.stack ≡ []
    → all_move (arguments l) ≡ true
    → armsynced true none l channel
      ≡ some (record { waits = true; l = l; channel = waiting_in channel l })
unfolding armsynced
armsynced-waiting_in l channel e m =
    let narg : length (arguments l) ≡ length l - 2 = sizes l in
    simp (armsynced, e, moved_arguments-placed l m, narg) refl

pub k_setupsynced-suspended :
    (option : Option String) (l : Stack) (e : Endpoint) (channel : LuaChannel)
    → channel.named ≡ true
    → channel.handle ≡ false
    → channel.stack ≡ []
    → Accepted option l e
    → k_setupsynced option none true none l channel ≡ some (suspended, waiting_in channel l)
unfolding k_setupsynced channelsync given_state
k_setupsynced-suspended option l e channel n h s a =
    simp
      (
        k_setupsynced,
        n,
        h,
        armsynced-waiting_in l channel s (checksyncargs-all_move option l e a),
        channelsync,
        a,
        given_state,
      )
      refl

discard_narg-counted : (c : Value) (vs : Stack) → discard_narg (c ∷ counted vs) ≡ some (c ∷ vs)
unfolding discard_narg
discard_narg-counted c vs =
    let size : length (c ∷ counted vs) ≡ length vs + 2 =
      omega (arith, length-append vs (integer (length vs) ∷ [])) in
    let top : value_at (c ∷ counted vs) (length (c ∷ counted vs)) ≡ integer (length vs) =
      value_at_behind (c ∷ vs) (integer (length vs)) [] (length (c ∷ counted vs))
        (omega (arith, size)) in
    let counts : (length vs == length (c ∷ counted vs) - 2) ≡ true = ground (arith, size) in
    simp (discard_narg, top, counts, pop-append (c ∷ vs) (integer (length vs) ∷ []) 1 refl) refl

returning-counted :
    (c : Value) (vs : Stack) (channel : LuaChannel)
    → returning (c ∷ counted vs) channel ≡ some (returned (c ∷ vs), channel)
unfolding returning
returning-counted c vs channel = simp (returning, discard_narg-counted c vs) refl

-- A call that meets a state which waits with the values `ys`.
pub channelsync-returned :
    (option : Option String) (c : Value) (rest ys : Stack) (e : Endpoint) (channel : LuaChannel)
    (given : Option Given)
    → Accepted option (c ∷ rest) e
    → all_move ys ≡ true
    → channelsync option (some (armed ys)) (c ∷ rest) channel given
      ≡ some (returned (c ∷ boolean true ∷ ys), channel)
unfolding channelsync
channelsync-returned option c rest ys e channel given a m =
    let k = checksyncargs-all_move option (c ∷ rest) e a in
    simp (channelsync, a, asserts-call c rest ys k m, swapvalues-call c rest ys k m)
      (returning-counted c (boolean true ∷ ys) channel)

-- A call that meets the stack of a channel which waits with the values `ys` fails no assertion, and
-- finds the number of its results on the top.
pub met :
    (c : Value) (rest ys stack : Stack)
    → stack ≡ armed ys
    → all_move (arguments (c ∷ rest)) ≡ true
    → all_move ys ≡ true
    → (swapvalues_asserts (c ∷ rest) 1 (length (c ∷ rest) - 2) stack ≡ true)
      × (discard_narg (swapvalues (c ∷ rest) 1 (length (c ∷ rest) - 2) stack).0
          ≡ some (c ∷ boolean true ∷ ys))
met c rest ys stack e m n = rw e (
  asserts-call c rest ys m n,
  ap (λ (r : Stack × Stack). discard_narg r.0) (swapvalues-call c rest ys m n)
      ∙ discard_narg-counted c (boolean true ∷ ys),
)

-- If the arguments of both calls are accepted and memory is enough, a coroutine that awaits on a free
-- channel is suspended, and a later call that meets it returns `true` and the arguments of the first
-- one in their order. Resumed by its callback, the first one gets `true` and the arguments of the
-- later call, and its channel is free again, as before. The channel of the later call, which awaits or
-- not, stays as it is.
pub awaitch-exchanged :
    (option option' : Option String) (e e' : Endpoint) (l l' rest : Stack) (c : Value)
    (channel other : LuaChannel) (given : Option Given)
    → channel.named ≡ true
    → channel.handle ≡ false
    → channel.stack ≡ []
    → Accepted option l e
    → Accepted option' (c ∷ rest) e'
    → (waits : LuaChannel) × (k_setupsynced option none true none l channel
        ≡ some (suspended, waits))
      × (channelsync option' (some waits.stack) (c ∷ rest) other given
          ≡ some (returned (c ∷ boolean true ∷ arguments l), other))
      × (let met = record waits {
        stack = (swapvalues (c ∷ rest) 1 (length (c ∷ rest) - 2) waits.stack).1;
      } in
          returnsynced l' met
          ≡ some (
            length (arguments (c ∷ rest)) + 1,
            l' ++ boolean true ∷ arguments (c ∷ rest),
            channel,
          ))
unfolding restorechannel
awaitch-exchanged option option' e e' l l' rest c channel other given n h s a b =
    let xs = arguments (c ∷ rest) in
    let m = checksyncargs-all_move option l e a in
    let k = checksyncargs-all_move option' (c ∷ rest) e' b in
    (
      waiting_in channel l,
      k_setupsynced-suspended option l e channel n h s a,
      channelsync-returned option' c rest (arguments l) e' other given b m,
      returnsynced-counted l' (boolean true ∷ xs)
            (record (waiting_in channel l) {
              stack = (swapvalues (c ∷ rest) 1 (length (c ∷ rest) - 2) (armed (arguments l))).1;
            })
            (ap (λ (r : Stack × Stack). r.1) (swapvalues-call c rest (arguments l) k m)) k
          ∙ ground arith,
    )
