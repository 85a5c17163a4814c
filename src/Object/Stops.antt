-- ===== src/Object/Stops.antt =====
-- How often the handle of an object is stopped (src/loperaux.c).
use coutil.Prelude.{
  ℕ, ◌+◌, ◌≡◌, Bool, true, false, ◌&&◌, ◌||◌, not, Option, none, some, arith, if◌then◌else◌,
}
use coutil.Object.{
  UdataHandle, stopudhdl, resetudhdlk, k_endudhdlk_halted, closeudhdl, closedudhdl, resumeudhdl,
  resumeudhdl_end,
}

-- `n` counts the active operations of others.
pub record IsBalanced (n : ℕ) (h : UdataHandle) : Type 0 where
  pub counted : h.nactive ≡ n + (if h.started then 1 else 0)
  pub saved : h.started ≡ true → h.saved ≡ true
  pub kept : h.saved ≡ true → (h.started || h.handle_closed) ≡ true
  pub waiting : h.waiting ≡ true → (h.started ≡ true) × (h.handle_closed ≡ false)
  pub ending : h.started ≡ true → (h.waiting || h.in_callback) ≡ true
  pub serving : h.in_callback ≡ true → h.started ≡ true

abbrev pub is_some : Option UdataHandle → Bool
is_some none = false
is_some (some _) = true

abbrev pub result : Option UdataHandle → UdataHandle → UdataHandle
result none h = h
result (some h') h = h'

pub data Event : Type 0 where
  call : (has_ref fails : Bool) → Event  -- an operation of an open object is called
  halt : (fails : Bool) → Event  -- the coroutine that waits is resumed by another one
  close : (fails : Bool) → Event
  closed : Event  -- libuv has closed the handle
  notify : (has_ref more : Bool) → Event  -- the callback of the handle
  return : (fails : Bool) → Event  -- the resumed coroutine returns to it

abbrev pub can_happen : Event → UdataHandle → Bool
can_happen (call has_ref fails) h = not h.handle_closed
can_happen (halt fails) h = h.waiting && not h.in_callback
can_happen (close fails) h = not (h.waiting && h.in_callback)
can_happen closed h = h.handle_closed && not h.in_callback
can_happen (notify has_ref more) h = h.waiting && not h.in_callback
can_happen (return fails) h = h.in_callback

unfoldable pub happen : Event → UdataHandle → Option UdataHandle
happen (call has_ref fails) h = resetudhdlk has_ref fails h
happen (halt fails) h = k_endudhdlk_halted fails h
happen (close fails) h = closeudhdl fails h
happen closed h = some (closedudhdl h)
happen (notify has_ref more) h = resumeudhdl has_ref more h
happen (return fails) h = resumeudhdl_end fails h

-- The events that fail no assertion: a coroutine is suspended only on a handle that counts for the loop,
-- and a handle that the failing stop of a coroutine has closed is not closed again.
abbrev pub succeeds : Event → UdataHandle → Bool
succeeds (call has_ref fails) h = h.waiting || (not h.started && fails) || has_ref
succeeds (halt fails) h = true
succeeds (close fails) h = not (h.waiting && fails)
succeeds closed h = true
succeeds (notify has_ref more) h = not more || has_ref
succeeds (return fails) h = true

-- Of the events of an object's handle, the halt and the close of a coroutine that waits in the callback
-- of the handle itself left out, these alone fail an assertion: the start of an operation, or its
-- going on, that leaves a handle that libuv does not count as a reason to go on, and the close of an
-- object for which a coroutine waits and which cannot be stopped, where the handle is closed twice.
-- All others keep the object and the scheduler in balance: the scheduler counts the object exactly
-- while it is started, and the object is in the Lua registry while it is started, and else only to be
-- closed.
pub happen-IsBalanced :
    (n : ℕ) (h : UdataHandle) (e : Event)
    → IsBalanced n h
    → can_happen e h ≡ true
    → (is_some (happen e h) ≡ succeeds e h) × IsBalanced n (result (happen e h) h)
unfolding happen resetudhdlk closedudhdl k_endudhdlk_halted closeudhdl resumeudhdl resumeudhdl_end
    stopudhdl
happen-IsBalanced n h (call has_ref fails) v c = ground arith
happen-IsBalanced n h (halt fails) v c = ground arith
happen-IsBalanced n h (close fails) v c = ground arith
happen-IsBalanced n h closed v c = ground arith
happen-IsBalanced n h (notify has_ref more) v c = ground arith
happen-IsBalanced n h (return fails) v c = ground arith

-- Where a coroutine that waits for an object is closed with it in the callback of the handle, the
-- object is stopped twice: the scheduler counts one operation less than there are.
closed_in_callback :
    (n : ℕ) (h : UdataHandle)
    → IsBalanced (n + 1) h
    → h.waiting ≡ true
    → h.in_callback ≡ true
    → (let h' = result (closeudhdl false h) h in (result (resumeudhdl_end false h') h').nactive) ≡ n
unfolding closeudhdl k_endudhdlk_halted resumeudhdl_end stopudhdl
closed_in_callback n h v w c = ground arith
