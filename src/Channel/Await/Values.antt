-- ===== src/Channel/Await/Values.antt =====
-- The values that a coroutine which awaits on a channel gives and gets (src/lchannem.c).
use Prim.Native.String.{String}
use coutil.Prelude.{
  Bool, ℕ, zero, suc, ◌+◌, ◌-◌, ◌≡◌, ◌∙◌, sym, ap, refl, true, false, ◌==◌, ltb, Option, some,
  if◌then◌else◌, [], ◌∷◌, ◌++◌, length, length-append, drop, arith,
}
use coutil.Channel.{Endpoint, checksyncargs}
use coutil.Channel.Swap.{
  boolean, integer, nil, Stack, Value, all_move, canmove, movefrom, value_at, pop, push, swapvalues,
  swapvalues_asserts, more_asserts, rest_asserts, swap_more, swap_rest, swap_loop, to_integer,
}
use coutil.Channel.Swap.Stack.{top_values-append, value_at_behind, pop-append}
use coutil.Channel.Swap.Laws.{
  movefrom-moves, received, swap_more_lem, swapvalues-received, swapvalues_asserts-received,
  more_asserts_lem,
}
use coutil.Channel.Await.{LuaChannel, returnsynced, moved_arguments, restorechannel}

-- The values of a call behind the channel and the endpoint.
abbrev pub arguments : Stack → Stack
arguments l = drop 2 l

abbrev pub placed : Stack → Stack
placed [] = []
placed (y ∷ ys) = nil ∷ y ∷ ys

-- What the stack of a channel holds while it waits with the values `ys`.
abbrev pub armed : Stack → Stack
armed ys = placed ys ++ integer 0 ∷ integer (length ys) ∷ []

canmove-arguments : (l : Stack) → canmove l (length l - 2) ≡ true → all_move (arguments l) ≡ true
unfolding canmove
canmove-arguments [] h = refl
canmove-arguments (c ∷ []) h = refl
canmove-arguments (c ∷ o ∷ xs) h =
    ap all_move (sym (top_values-append (c ∷ o ∷ []) xs (length (c ∷ o ∷ xs) - 2) (omega arith)))
    ∙ h

-- The arguments that `lcuCS_checksyncargs` accepts can be moved.
pub checksyncargs-all_move :
    (option : Option String) (l : Stack) (e : Endpoint)
    → checksyncargs option (length l - 2) (canmove l (length l - 2)) ≡ some e
    → all_move (arguments l) ≡ true
unfolding checksyncargs
checksyncargs-all_move option [] e h = refl
checksyncargs-all_move option (c ∷ []) e h = refl
checksyncargs-all_move option (c ∷ o ∷ []) e h = refl
checksyncargs-all_move option (c ∷ o ∷ x ∷ xs) e h =
    canmove-arguments (c ∷ o ∷ x ∷ xs) (ground arith)

pub moved_arguments-placed :
    (l : Stack)
    → all_move (arguments l) ≡ true
    → moved_arguments l (length l - 2) ≡ (true, placed (arguments l))
unfolding moved_arguments
moved_arguments-placed [] h = refl
moved_arguments-placed (c ∷ []) h = refl
moved_arguments-placed (c ∷ o ∷ []) h = refl
moved_arguments-placed (c ∷ o ∷ x ∷ xs) h =
    let narg = length (c ∷ o ∷ x ∷ xs) - 2 in
    let some_ : ltb 0 narg ≡ true = ground arith in
    rw
      (moved_arguments, some_, movefrom-moves (nil ∷ []) (c ∷ o ∷ []) (x ∷ xs) narg (omega arith) h)
      refl

-- A channel whose stack waits with values meets a call with others.
pub swapvalues-armed :
    (c o : Value) (xs ys : Stack)
    → all_move xs ≡ true
    → all_move ys ≡ true
    → swapvalues (c ∷ o ∷ xs) 1 (length xs) (armed ys) ≡ (received (c ∷ []) ys, received [] xs)
unfolding swapvalues swap_more swap_rest
swapvalues-armed c o xs (y ∷ ys) m n = swapvalues-received (c ∷ []) o [] xs [] nil [] (y ∷ ys) m n
swapvalues-armed c o xs [] m n =
    let less : ltb (length xs) 0 ≡ false = ground arith in
    rw less (swap_more_lem (c ∷ []) o [] xs [] nil [] [] (omega arith) m n)

-- The endpoint may be left out.
choose : Stack → (bdst ndst : ℕ) → Stack → Stack × Stack
choose src bdst ndst dst =
    let turned = swap_more bdst ndst 1 0 dst src in
    if ltb 0 ndst then (turned.1, turned.0) else swap_more 1 0 bdst ndst src dst

choose-short :
    (c : Value) (bdst ndst : ℕ) (dst : Stack)
    → choose (c ∷ []) bdst ndst dst ≡ choose (c ∷ nil ∷ []) bdst ndst dst
unfolding choose swap_more swap_rest swap_loop movefrom canmove
choose-short c bdst zero dst = refl
choose-short c bdst (suc n) dst = let some_ : ltb 0 (suc n) ≡ true = ground arith in rw some_ refl

swapvalues-armed_short :
    (c : Value) (ys : Stack)
    → all_move ys ≡ true
    → swapvalues (c ∷ []) 1 0 (armed ys) ≡ (received (c ∷ []) ys, received [] [])
unfolding swapvalues choose
swapvalues-armed_short c ys n =
    choose-short c (to_integer (value_at (armed ys) (length (armed ys) - 1)))
      (to_integer (value_at (armed ys) (length (armed ys)))) (pop 2 (armed ys))
    ∙ swapvalues-armed c nil [] ys refl n

-- What a state holds where a thread has exchanged values with it.
abbrev pub counted : Stack → Stack
counted vs = push (integer (length vs)) vs

both-counted :
    (c : Value) (ys xs : Stack)
    → ◌≡◌ {A = Stack × Stack}
        (received (c ∷ []) ys, received [] xs)
        (c ∷ counted (boolean true ∷ ys), counted (boolean true ∷ xs))
both-counted c ys xs =
    let one_more : (vs : Stack) → length vs + 1 ≡ suc (length vs) = λ vs. omega arith in
    rw (one_more ys, one_more xs) refl

-- A call on a channel meets one that waits.
pub swapvalues-call :
    (c : Value) (rest ys : Stack)
    → all_move (arguments (c ∷ rest)) ≡ true
    → all_move ys ≡ true
    → swapvalues (c ∷ rest) 1 (length (c ∷ rest) - 2) (armed ys)
      ≡ (c ∷ counted (boolean true ∷ ys), counted (boolean true ∷ arguments (c ∷ rest)))
swapvalues-call c [] ys m n = swapvalues-armed_short c ys n ∙ both-counted c ys []
swapvalues-call c (o ∷ xs) ys m n =
    let size : length (c ∷ o ∷ xs) - 2 ≡ length xs = omega arith in
    rw size (swapvalues-armed c o xs ys m n) ∙ both-counted c ys xs

asserts-armed :
    (c o : Value) (xs ys : Stack)
    → all_move xs ≡ true
    → all_move ys ≡ true
    → swapvalues_asserts (c ∷ o ∷ xs) 1 (length xs) (armed ys) ≡ true
unfolding swapvalues_asserts more_asserts rest_asserts swap_loop
asserts-armed c o xs (y ∷ ys) m n =
    swapvalues_asserts-received (c ∷ []) o [] xs [] nil [] (y ∷ ys) m n
asserts-armed c o xs [] m n =
    let less : ltb (length xs) 0 ≡ false = ground arith in
    rw less (more_asserts_lem (c ∷ []) o [] xs [] nil [] [] (omega arith) m n)

choose_asserts : Stack → (bdst ndst : ℕ) → Stack → Bool
choose_asserts src bdst ndst dst =
    if ltb 0 ndst then more_asserts bdst ndst 1 0 dst src else more_asserts 1 0 bdst ndst src dst

choose_asserts-short :
    (c : Value) (bdst ndst : ℕ) (dst : Stack)
    → choose_asserts (c ∷ []) bdst ndst dst ≡ choose_asserts (c ∷ nil ∷ []) bdst ndst dst
unfolding choose_asserts more_asserts rest_asserts swap_loop movefrom canmove
choose_asserts-short c bdst zero dst = refl
choose_asserts-short c bdst (suc n) dst =
    let some_ : ltb 0 (suc n) ≡ true = ground arith in rw some_ refl

asserts-armed_short :
    (c : Value) (ys : Stack)
    → all_move ys ≡ true
    → swapvalues_asserts (c ∷ []) 1 0 (armed ys) ≡ true
unfolding swapvalues_asserts choose_asserts
asserts-armed_short c ys n =
    choose_asserts-short c (to_integer (value_at (armed ys) (length (armed ys) - 1)))
      (to_integer (value_at (armed ys) (length (armed ys)))) (pop 2 (armed ys))
    ∙ asserts-armed c nil [] ys refl n

-- No assertion fails where a call meets a channel that waits.
pub asserts-call :
    (c : Value) (rest ys : Stack)
    → all_move (arguments (c ∷ rest)) ≡ true
    → all_move ys ≡ true
    → swapvalues_asserts (c ∷ rest) 1 (length (c ∷ rest) - 2) (armed ys) ≡ true
asserts-call c [] ys m n = asserts-armed_short c ys n
asserts-call c (o ∷ xs) ys m n =
    let size : length (c ∷ o ∷ xs) - 2 ≡ length xs = omega arith in
    rw size (asserts-armed c o xs ys m n)

-- A coroutine that awaits is given the values of a stack that counts them.
pub returnsynced-counted :
    (l vs : Stack) (channel : LuaChannel)
    → channel.stack ≡ counted vs
    → all_move vs ≡ true
    → returnsynced l channel ≡ some (length vs, l ++ vs, restorechannel channel)
unfolding returnsynced
returnsynced-counted l vs channel e m =
    let size : length (counted vs) ≡ length vs + 1 = length-append vs (integer (length vs) ∷ []) in
    let top : value_at (counted vs) (length (counted vs)) ≡ integer (length vs) =
      value_at_behind vs (integer (length vs)) [] (length (counted vs)) (omega (arith, size)) in
    let counts : (length vs == length (counted vs) - 1) ≡ true = ground (arith, size) in
    rw
      (
        returnsynced,
        e,
        pop-append vs (integer (length vs) ∷ []) 1 refl,
        movefrom-moves l [] vs (length vs) refl m,
        top,
        counts,
      )
      refl
