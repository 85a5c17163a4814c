-- ===== src/Operation.antt =====
-- The operation of a coroutine (`lcu_Operation`) of src/loperaux.c: the request or the handle of
-- libuv that a coroutine waits on, its flags, and the counters of the scheduler. One operation is
-- followed; the other ones and the Lua values on the stacks are left out. Every function returns
-- `none` where one of its assertions fails.
pub mod Events
pub mod Invariant
pub mod Safety
use coutil.Prelude.{
  ℕ, ◌+◌, ◌-◌, Bool, true, false, ◌&&◌, ◌||◌, not, Option, none, some, if◌then◌else◌,
}

-- The type of a handle. The process has no type of its own (`lcuT_resetcohdlk` is given -1 for it),
-- so it is the same as nothing.
pub data HandleType : Type 0 where
  async timer idle signal process : HandleType

unfoldable pub is_async : HandleType → Bool
is_async async = true
is_async timer = false
is_async idle = false
is_async signal = false
is_async process = false

unfoldable pub same_type : HandleType → HandleType → Bool
same_type async async = true
same_type timer timer = true
same_type idle idle = true
same_type signal signal = true
same_type _ _ = false

-- Where the coroutine is suspended: not in the operation, in `k_endop`, or in `k_resetopk`, which
-- goes on with a request or a handle of some type.
pub data Suspension : Type 0 where
  none_of_ours : Suspension
  in_end : Suspension
  in_reset_request : Suspension
  in_reset_handle : HandleType → Suspension

-- Which callback of libuv runs on behalf of the operation.
pub data Callback : Type 0 where
  outside request_callback handle_callback : Callback

pub record Operation : Type 0 where
  pub request : Bool  -- FLAG_REQUEST: the union holds a request
  pub thrsaved : Bool  -- FLAG_THRSAVED
  pub pending : Bool  -- FLAG_PENDING
  pub cleanup : Bool  -- FLAG_CLEANUP
  pub active : Bool  -- of a request: its type is not UV_UNKNOWN_REQ
  pub type : HandleType  -- of a handle
  pub closing : Bool  -- of a handle: `uv_is_closing`
  pub anchored : Bool  -- the coroutine is saved in the Lua registry
  pub nasync : ℕ  -- of the scheduler
  pub nactive : ℕ  -- of the scheduler
  pub at : Suspension
  pub callback : Callback

-- `lcu_assert`
abbrev pub asserting : Bool → Option Operation → Option Operation
asserting true o = o
asserting false o = none

unfoldable pub closehdl : Operation → Operation
unfolding is_async
closehdl op = record op {
  closing = true;
  nasync = if is_async op.type then op.nasync - 1 else op.nasync;
}

-- `uv_cancel` leaves it to libuv when and how the request completes.
unfoldable pub cancelop : Operation → Option Operation
unfolding closehdl
cancelop op =
    asserting (not op.cleanup)
      (some (if op.request then op else if op.closing then op else closehdl op))

-- What a setup function does: whether it calls `lcuT_armcoreq` or `lcuT_armcohdl`, with an error or
-- not, and whether it returns a negative number, so that the coroutine shall wait.
pub data Arming : Type 0 where
  not_called failed armed : Arming

pub record Setup : Type 0 where
  pub arming : Arming
  pub waits : Bool

unfoldable pub armcoreq : Arming → Operation → Option Operation
armcoreq not_called op = some op
armcoreq failed op = asserting op.request (some (record op { active = false }))
armcoreq armed op = asserting op.request (
    some (record op {
      active = true;
      thrsaved = true;
      anchored = if op.thrsaved then op.anchored else true;
      nactive = op.nactive + 1;
    }))

unfoldable pub armcohdl : Arming → HandleType → Operation → Option Operation
unfolding is_async
armcohdl not_called type op = some op
armcohdl failed type op = asserting op.request (some (record op { active = false }))
armcohdl armed type op = asserting op.request (
    some (record op {
      request = false;
      thrsaved = false;
      type = type;
      closing = false;
      anchored = if op.thrsaved then op.anchored else true;
      nasync = if is_async type then op.nasync + 1 else op.nasync;
      nactive = op.nactive + 1;
    }))

unfoldable pub startedopk : Bool → Operation → Option Operation
unfolding cancelop
startedopk waits op =
    asserting (not (op.pending || op.cleanup))
      (if waits then some (record op { pending = true; at = in_end }) else cancelop op)

abbrev pub and_then : Option Operation → (Operation → Option Operation) → Option Operation
and_then none f = none
and_then (some op) f = f op

-- The macro `startcoreqk`.
unfoldable pub startcoreqk : Setup → Operation → Option Operation
unfolding armcoreq startedopk
startcoreqk setup op = and_then (armcoreq setup.arming op) (startedopk setup.waits)

-- The macro `startcohdlk` with the loop given, and without it, where the setup arms nothing.
unfoldable pub startcohdlk : Setup → HandleType → Operation → Option Operation
unfolding armcohdl startedopk
startcohdlk setup type op = and_then (armcohdl setup.arming type op) (startedopk setup.waits)

unfoldable pub yieldresetk : Suspension → Operation → Option Operation
yieldresetk at op = asserting (not op.pending) (some (record op { pending = true; at = at }))

pub data OpStatus : Type 0 where
  freeop sameop waitop : OpStatus

-- `type` is `none` where 0 is passed, for a request.
unfoldable pub checkreset : Option HandleType → Operation → OpStatus × Operation
checkreset type op =
    if op.request
    then (if op.active then (waitop, op) else (freeop, op))
    else if not op.cleanup && not op.closing
    then (if elim type [ none ↦ false | some t ↦ same_type t op.type ]
        then (sameop, op)
        else (waitop, closehdl op))
    else (waitop, op)

unfoldable pub resetcoreqk : Setup → Operation → Option Operation
resetcoreqk setup op0 =
    let (status, op) = checkreset none op0 in
    elim status [
      | freeop ↦ startcoreqk setup op
      | waitop ↦ yieldresetk in_reset_request op
      | sameop ↦ none
    ]

unfoldable pub resetcohdlk : HandleType → Setup → Operation → Option Operation
resetcohdlk type setup op0 =
    let (status, op) = checkreset (some type) op0 in
    elim status [
      | freeop ↦ startcohdlk setup type op
      | sameop ↦ startedopk setup.waits op
      | waitop ↦ yieldresetk (in_reset_handle type) op
    ]
