-- ===== src/Channel/Swap.antt =====
-- The exchange of values between two states that meet on a channel: `swapvalues` and `pusherrfrom` of
-- src/lchaux.c, with `lcuL_pushfrom` and `lcuL_movefrom` of src/lmodaux.c. A stack is the list of its
-- values from the bottom on; places count from 1. There is memory enough.
pub mod Stack
pub mod Loop
pub mod Laws
pub mod Errors
use coutil.Prelude.{
  ◌||◌, ◌==◌, ℕ, zero, suc, ◌+◌, ◌-◌, ◌≡◌, ◌≤◌, refl, Bool, true, false, ◌&&◌, Option, none, some,
  List, [], ◌∷◌, ◌++◌, ltb, length, take, drop, if◌then◌else◌,
}

-- The values of Lua. A text is given by its bytes, a value that cannot be moved by its type, and
-- `message` is the text of an error for one.
pub data Value : Type 0 where
  nil : Value
  boolean : Bool → Value
  integer : ℕ → Value
  number : ℕ → Value
  string : List ℕ → Value
  lightuserdata : ℕ → Value
  message : Value
  unmovable : ℕ → Value

abbrev pub Stack : Type 0
Stack = List Value

-- The `switch` of `lcuL_canmove`.
abbrev pub moves : Value → Bool
moves nil = true
moves (boolean b) = true
moves (integer n) = true
moves (number n) = true
moves (string s) = true
moves (lightuserdata p) = true
moves message = true
moves (unmovable t) = false

abbrev pub all_move : Stack → Bool
all_move [] = true
all_move (v ∷ vs) = moves v && all_move vs

-- The last values of a stack.
abbrev pub top_values : ℕ → Stack → Stack
top_values n s = drop (length s - n) s

-- `lcuL_canmove`: that of the last `narg` values all can be moved. The message is left out.
unfoldable pub canmove : Stack → (narg : ℕ) → Bool
canmove s narg = all_move (top_values narg s)

abbrev pub value_at : Stack → ℕ → Value
value_at [] i = nil
value_at (v ∷ s) zero = nil
value_at (v ∷ s) (suc zero) = v
value_at (v ∷ s) (suc (suc i)) = value_at s (suc i)

abbrev pub push : Value → Stack → Stack
push v s = s ++ v ∷ []

abbrev pub set_value : ℕ → Value → Stack → Stack
set_value i v [] = []
set_value zero v (w ∷ s) = w ∷ s
set_value (suc zero) v (w ∷ s) = v ∷ s
set_value (suc (suc i)) v (w ∷ s) = w ∷ set_value (suc i) v s

abbrev pub pop : ℕ → Stack → Stack
pop n s = take (length s - n) s

abbrev pub nils : ℕ → Stack
nils zero = []
nils (suc n) = nil ∷ nils n

abbrev pub settop : ℕ → Stack → Stack
settop n s = take n s ++ nils (n - length s)

-- `lua_replace`.
abbrev pub replace : ℕ → Stack → Stack
replace i s = set_value i (value_at s (length s)) (pop 1 s)

-- `lcuL_pushfrom`: whether it succeeds, and the stack with the value or the message.
unfoldable pub pushfrom : (to : Stack) → Value → Bool × Stack
pushfrom to v = if moves v then (true, push v to) else (false, push message to)

-- `lcuL_movefrom`: whether it succeeds, and both stacks.
unfoldable pub movefrom : (to from : Stack) → ℕ → Bool × Stack × Stack
movefrom to from n =
    if canmove from n
    then (true, to ++ top_values n from, pop n from)
    else (false, push message to, from)

-- `pusherrfrom`: the stacks `L` and `failed`.
unfoldable pub pusherrfrom : Stack → (base : ℕ) → Stack → (bfailed : ℕ) → Stack × Stack
unfolding pushfrom
pusherrfrom l base failed bfailed =
    let failed1 = settop (bfailed + 1) (replace (bfailed + 1) failed) in
    let failed2 = take bfailed failed1 ++ boolean false ∷ drop bfailed failed1 in
    let failed3 = push (integer 2) failed2 in
    let l1 = push (boolean false) (settop base l) in
    (push (integer 2) (pushfrom l1 (value_at failed3 (length failed3))).1, failed3)

-- One round of the loop, with the values of both at their places; `none` if the round ends the call.
pub data Round : Type 0 where
  next : (src dst : Stack) → Round
  failed : (src dst : Stack) → Round

-- The rounds `i` to `i + n - 1`.
unfoldable pub swap_loop : (bsrc tsrc bdst tdst : ℕ) → (i n : ℕ) → (src dst : Stack) → Round
unfolding pushfrom pusherrfrom
swap_loop bsrc tsrc bdst tdst i zero src dst = next src dst
swap_loop bsrc tsrc bdst tdst i (suc n) src dst =
    let (ok1, src1) = pushfrom src (value_at dst (tdst + i)) in
    let (ok2, dst1) = pushfrom dst (value_at src1 (tsrc + i)) in
    let e1 = pusherrfrom dst bdst src1 bsrc in
    let e2 = pusherrfrom src1 bsrc dst1 bdst in
    let rest =
      swap_loop bsrc tsrc bdst tdst (i + 1) n (replace (bsrc + i + 1) src1)
        (replace (bdst + i + 1) dst1) in
    if ok1 then (if ok2 then rest else failed e2.0 e2.1) else failed e1.1 e1.0

-- `swapvalues` behind the loop.
unfoldable pub swap_rest : (bsrc nsrc bdst ndst : ℕ) → Round → Stack × Stack
unfolding movefrom pusherrfrom
swap_rest bsrc nsrc bdst ndst (failed src1 dst1) = (src1, dst1)
swap_rest bsrc nsrc bdst ndst (next src1 dst1) =
    let (ok1, dst2, src2) = movefrom (settop (bdst + ndst + 1) dst1) src1 (nsrc - ndst) in
    let e = pusherrfrom src2 bsrc dst2 bdst in
    let src3 = settop (bsrc + ndst + 1) src2 in
    let src4 = replace (bsrc + 1) (push (boolean true) src3) in
    let dst3 = replace (bdst + 1) (push (boolean true) dst2) in
    if ok1 then (push (integer (ndst + 1)) src4, push (integer (nsrc + 1)) dst3) else e

-- `swapvalues` behind the exchange of the roles, with `ndst ≤ nsrc`.
unfoldable pub swap_more : (bsrc nsrc bdst ndst : ℕ) → (src dst : Stack) → Stack × Stack
unfolding swap_loop swap_rest
swap_more bsrc nsrc bdst ndst src dst =
    swap_rest bsrc nsrc bdst ndst
      (swap_loop bsrc (length src - nsrc) bdst (length dst - ndst) 1 ndst src dst)

-- An integer of a stack.
abbrev pub to_integer : Value → ℕ
to_integer nil = 0
to_integer (boolean b) = 0
to_integer (integer n) = n
to_integer (number n) = n
to_integer (string s) = 0
to_integer (lightuserdata p) = 0
to_integer message = 0
to_integer (unmovable t) = 0

-- `swapvalues`: the stacks `src` and `dst`.
unfoldable pub swapvalues : (src : Stack) → (bsrc nsrc : ℕ) → (dst : Stack) → Stack × Stack
unfolding swap_more
swapvalues src bsrc nsrc dst =
    let bdst = to_integer (value_at dst (length dst - 1)) in
    let ndst = to_integer (value_at dst (length dst)) in
    let dst1 = pop 2 dst in
    let turned = swap_more bdst ndst bsrc nsrc dst1 src in
    if ltb nsrc ndst then (turned.1, turned.0) else swap_more bsrc nsrc bdst ndst src dst1

-- The assertions of `swapvalues`: those before the loop, and those of its end, where it succeeds.
unfoldable pub rest_asserts : (bsrc nsrc bdst ndst : ℕ) → Round → Bool
unfolding movefrom
rest_asserts bsrc nsrc bdst ndst (failed src1 dst1) = true
rest_asserts bsrc nsrc bdst ndst (next src1 dst1) =
    let (ok1, dst2, src2) = movefrom (settop (bdst + ndst + 1) dst1) src1 (nsrc - ndst) in
    let src4 = replace (bsrc + 1) (push (boolean true) (settop (bsrc + ndst + 1) src2)) in
    let dst3 = replace (bdst + 1) (push (boolean true) dst2) in
    if ok1 then (length src4 == bsrc + ndst + 1) && (length dst3 == bdst + nsrc + 1) else true

unfoldable pub more_asserts : (bsrc nsrc bdst ndst : ℕ) → (src dst : Stack) → Bool
unfolding swap_loop rest_asserts
more_asserts bsrc nsrc bdst ndst src dst =
    let tsrc = length src - nsrc in
    let tdst = length dst - ndst in
    ((ndst == 0) || (ltb bsrc tsrc && ltb bdst tdst))
    && rest_asserts bsrc nsrc bdst ndst (swap_loop bsrc tsrc bdst tdst 1 ndst src dst)

unfoldable pub swapvalues_asserts : (src : Stack) → (bsrc nsrc : ℕ) → (dst : Stack) → Bool
unfolding more_asserts
swapvalues_asserts src bsrc nsrc dst =
    let bdst = to_integer (value_at dst (length dst - 1)) in
    let ndst = to_integer (value_at dst (length dst)) in
    let dst1 = pop 2 dst in
    if ltb nsrc ndst
    then more_asserts bdst ndst bsrc nsrc dst1 src
    else more_asserts bsrc nsrc bdst ndst src dst1
