-- ===== src/Threads.antt =====
-- The thread pools of Lua in src/lthreadm.c: the object `threads` that refers to a pool, the sentinel
-- in the registry whose finalizer closes the pool, and the new states that become its tasks. Stacks
-- are those of Channel.Swap.
pub mod Once
pub mod Tasks
use coutil.Prelude.{
  ℕ, ◌+◌, ◌-◌, Bool, true, false, ◌&&◌, not, Option, none, some, [], ◌∷◌, ◌++◌, ltb, length,
  if◌then◌else◌,
}
use coutil.Channel.Swap.{boolean, integer, message, Stack, value_at, push, pushfrom, movefrom}

-- A pool, what refers to it in a state, and how often `lcuTP_closetpool` was called for it.
pub record Threads : Type 0 where
  pub ref : Bool  -- `*ref` of the object `threads` is not NULL
  pub sentinel : Bool  -- the registry has the sentinel of the pool, with its metatable
  pub closings : ℕ

abbrev pub closetpool : Threads → Threads
closetpool t = record t { closings = t.closings + 1 }

-- `tpoolgc_gc`, at the latest when the state of Lua closes.
unfoldable pub tpoolgc_gc : Threads → Threads
tpoolgc_gc t = record (closetpool t) { sentinel = false }

-- `tothreads`: whether the object is not closed.
abbrev pub tothreads : Threads → Bool
tothreads t = t.ref

-- `threads_close`, also `__close`; the first component is false for the error of the argument. A pool
-- that runs this very state has no sentinel in it.
unfoldable pub threads_close : Threads → Bool × Threads
threads_close t =
    if not t.ref
    then (false, t)
    else if t.sentinel
    then (true, record (closetpool t) { sentinel = false; ref = false })
    else (true, record t { ref = false })

-- `threads_resize`, with the size as a C int: the error that it returns to Lua, if any, where an error
-- of an argument is the code 0. `resize` is what `lcuTP_resizetpool` returns.
unfoldable pub threads_resize : (negative : Bool) → (resize : Option ℕ) → Threads → Option ℕ
threads_resize negative resize t =
    if not (tothreads t) then some 0 else if negative then some 0 else resize

-- `threads_create` with an argument: `create` and `resize` are the errors of `lcuTP_createtpool` and
-- `lcuTP_resizetpool`, if any, and `positive` whether the size is above 0. The second component is the
-- pool, if there is one.
unfoldable pub threads_create :
    (create : Option ℕ) → (positive : Bool) → (resize : Option ℕ) → Option ℕ × Option Threads
threads_create (some err) positive resize = (some err, none)
threads_create none false resize =
    (none, some (record { ref = true; sentinel = true; closings = 0 }))
threads_create none true none = (none, some (record { ref = true; sentinel = true; closings = 0 }))
threads_create none true (some err) =
    (some err, some (closetpool (record { ref = false; sentinel = false; closings = 0 })))

-- What a call to run a chunk leaves: the stack of the caller with its results on top, how many they
-- are, the stack of the new state where it is given to the pool, and whether it is closed.
pub record Chunk : Type 0 where
  pub l : Stack
  pub nresults : ℕ
  pub task : Option Stack
  pub closed : Bool

-- `returntoperrmsg`
unfoldable pub returntoperrmsg : Stack → Stack → Chunk
returntoperrmsg l nl = record {
  l = (pushfrom (push (boolean false) l) (value_at nl (length nl))).1;
  nresults = 2;
  task = none;
  closed = true;
}

-- `dochunk`: `loaded` is whether the status is LUA_OK, `nl` the stack of the new state, and `add` the
-- error of `lcuTP_addtpooltask`, if any, whose message is left out.
unfoldable pub dochunk : (loaded : Bool) → (add : Option ℕ) → (l nl : Stack) → (narg : ℕ) → Chunk
dochunk loaded add l nl narg =
    let (moved, nl', l') = movefrom nl l (length l - narg) in
    if not loaded
    then returntoperrmsg l nl
    else if not moved
    then returntoperrmsg l' nl'
    else elim add [
      | none ↦ record { l = push (boolean true) l'; nresults = 1; task = some nl'; closed = false }
      | some err ↦ record {
        l = l' ++ boolean false ∷ message ∷ integer err ∷ [];
        nresults = 3;
        task = none;
        closed = true;
      }
    ]

-- `threads_dostring` and `threads_dofile` with the loaded chunk, or the message, on the stack of the
-- new state; `none` is the error of the argument.
unfoldable pub threads_dostring :
    (loaded : Bool) → (add : Option ℕ) → (l nl : Stack) → Threads → Option Chunk
threads_dostring loaded add l nl t = if tothreads t then some (dochunk loaded add l nl 4) else none

unfoldable pub threads_dofile :
    (loaded : Bool) → (add : Option ℕ) → (l nl : Stack) → Threads → Option Chunk
threads_dofile loaded add l nl t = if tothreads t then some (dochunk loaded add l nl 3) else none
