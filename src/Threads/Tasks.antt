-- ===== src/Threads/Tasks.antt =====
-- What becomes of the new state of a chunk that a pool shall run (src/lthreadm.c).
use mathlib.Core.Path.{subst}
use coutil.Prelude.{
  arith, length-append, append_assoc, ℕ, ◌+◌, ◌-◌, ◌≡◌, ◌∙◌, refl, Bool, true, false, ◌&&◌, not,
  Option, none, some, [], ◌∷◌, ◌++◌, length, if◌then◌else◌, Bool-cases, inl, inr,
}
use coutil.Channel.Swap.{
  boolean, integer, message, Stack, Value, all_move, top_values, pop, value_at, push, pushfrom,
  canmove, movefrom, moves,
}
use coutil.Channel.Swap.Stack.{value_at_behind}
use coutil.Threads.{Chunk, returntoperrmsg, dochunk}

-- The arguments behind the `narg` ones that every call has.
abbrev pub behind : ℕ → Stack → Stack
behind narg l = top_values (length l - narg) l

abbrev pub is_none : Option ℕ → Bool
is_none none = true
is_none (some _) = false

-- A chunk that is loaded, whose arguments can be moved, and that the pool takes.
abbrev pub is_taken : (loaded : Bool) → (add : Option ℕ) → (narg : ℕ) → Stack → Bool
is_taken loaded add narg l = loaded && all_move (behind narg l) && is_none add

-- What the receiver gets for a value: the value, or a message if it cannot be moved.
abbrev pub shown : Value → Value
shown v = if moves v then v else message

-- What a call returns behind its boolean: the message of the chunk that is not loaded, that of the
-- argument that cannot be moved, or that of the pool with the code of its error.
abbrev pub results : (loaded : Bool) → (add : Option ℕ) → (narg : ℕ) → (l nl : Stack) → Stack
results false add narg l nl = shown (value_at nl (length nl)) ∷ []
results true none narg l nl = if all_move (behind narg l) then [] else message ∷ []
results true (some err) narg l nl =
    if all_move (behind narg l) then message ∷ integer err ∷ [] else message ∷ []

-- The values of the caller that the call leaves: its arguments go only where they are moved.
abbrev pub kept : (loaded : Bool) → (narg : ℕ) → Stack → Stack
kept loaded narg l = if loaded && all_move (behind narg l) then pop (length l - narg) l else l

abbrev pub Taken : (taken : Bool) → (nl args left more : Stack) → Chunk → Type 0
Taken taken nl args left more c =
    (c.closed ≡ not taken)
    × (c.task ≡ (if taken then some (nl ++ args) else none))
    × (c.l ≡ left ++ boolean taken ∷ more)
    × (c.nresults ≡ length more + 1)

pushfrom-shown : (to : Stack) (v : Value) → (pushfrom to v).1 ≡ to ++ shown v ∷ []
unfolding pushfrom
pushfrom-shown to v = elim (Bool-cases (moves v)) [
  | inl e ↦ simp (pushfrom, e) refl
  | inr e ↦ simp (pushfrom, e) refl
]

returntoperrmsg-Taken :
    (l nl nl' args : Stack)
    → Taken false nl' args l (shown (value_at nl (length nl)) ∷ []) (returntoperrmsg l nl)
unfolding returntoperrmsg
returntoperrmsg-Taken l nl nl' args =
    let e = pushfrom-shown (push (boolean false) l) (value_at nl (length nl)) in
    (
      refl,
      refl,
      e ∙ append_assoc l (boolean false ∷ []) (shown (value_at nl (length nl)) ∷ []),
      refl,
    )

value_at-push : (s : Stack) (v : Value) → value_at (push v s) (length (push v s)) ≡ v
value_at-push s v =
    value_at_behind s v [] (length (push v s)) (length-append s (v ∷ []) ∙ omega arith)

-- The same where the message stands on the new state.
unmoved-Taken :
    (l nl nl' args : Stack)
    → Taken false nl' args l (message ∷ []) (returntoperrmsg l (push message nl))
unmoved-Taken l nl nl' args =
    subst (λ v. Taken false nl' args l (shown v ∷ []) (returntoperrmsg l (push message nl)))
      (value_at-push nl message) (returntoperrmsg-Taken l (push message nl) nl' args)

movefrom-all :
    (nl l : Stack) (n : ℕ)
    → movefrom nl l n ≡ (
        if all_move (top_values n l)
        then (true, nl ++ top_values n l, pop n l)
        else (false, push message nl, l))
unfolding movefrom canmove
movefrom-all nl l n = refl

-- The new state of a chunk is either given to the pool, with the chunk and behind it the arguments in
-- their order, and the call returns `true` and nothing more, or it is closed, and the call returns
-- `false` and the message of what failed first: the one on the new state if the chunk is not loaded,
-- that of an argument that cannot be moved, or that of the pool with its code. It is given exactly if
-- the chunk is loaded, all arguments can be moved and the pool takes it. The arguments are taken from
-- the caller exactly if the chunk is loaded and all can be moved.
pub dochunk-Taken :
    (loaded : Bool) (add : Option ℕ) (l nl : Stack) (narg : ℕ)
    → Taken
        (is_taken loaded add narg l)
        nl
        (behind narg l)
        (kept loaded narg l)
        (results loaded add narg l nl)
        (dochunk loaded add l nl narg)
unfolding dochunk
dochunk-Taken false add l nl narg = returntoperrmsg-Taken l nl nl (behind narg l)
dochunk-Taken true none l nl narg = elim (Bool-cases (all_move (behind narg l))) [
  | inr e ↦
      simp (dochunk, movefrom-all nl l (length l - narg), e) (unmoved-Taken l nl nl (behind narg l))
  | inl e ↦ simp (dochunk, movefrom-all nl l (length l - narg), e) (refl, refl, refl, refl)
]
dochunk-Taken true (some err) l nl narg = elim (Bool-cases (all_move (behind narg l))) [
  | inr e ↦
      simp (dochunk, movefrom-all nl l (length l - narg), e) (unmoved-Taken l nl nl (behind narg l))
  | inl e ↦ simp (dochunk, movefrom-all nl l (length l - narg), e) (refl, refl, refl, refl)
]
