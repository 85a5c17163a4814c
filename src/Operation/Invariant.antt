-- ===== src/Operation/Invariant.antt =====
-- What holds of the operation of a coroutine in every reachable state, and that no assertion of
-- src/loperaux.c fails.
use coutil.Prelude.{
  ℕ, ◌+◌, ◌≡◌, refl, Bool, true, false, ◌&&◌, ◌||◌, not, Option, none, some, arith, if◌then◌else◌,
  Bool-cases, inl, inr,
}
use coutil.Operation.{
  startcoreqk, startcohdlk, startedopk, yieldresetk, checkreset, Operation, HandleType, is_async,
  Suspension, none_of_ours, in_end, in_reset_request, in_reset_handle, Callback, outside,
  request_callback, handle_callback, Setup, Arming, not_called, failed, armed, cancelop, closehdl,
  resetcoreqk, resetcohdlk,
}
use coutil.Operation.Events.{
  call_request, call_handle, halted, can_happen, is_sound, is_free, is_outside, halt,
}

-- The operation is with libuv: an active request, or a handle that was not reported as closed.
abbrev pub is_live : Operation → Bool
is_live op = if op.request then op.active else true

abbrev pub is_open_async : Operation → Bool
is_open_async op = not op.request && not op.closing && is_async op.type

abbrev pub one_if : Bool → ℕ
one_if true = 1
one_if false = 0

-- Where the coroutine waits, the operation is one that libuv will report on.
abbrev pub Awaited : Suspension → Operation → Type 0
Awaited none_of_ours op = Unit
Awaited in_end op =
    (op.cleanup ≡ false) × ((if op.request then op.active else not op.closing) ≡ true)
Awaited in_reset_request op = (if op.request then op.active else (op.closing || op.cleanup)) ≡ true
Awaited (in_reset_handle _) op =
    (if op.request then op.active else (op.closing || op.cleanup)) ≡ true

abbrev pub in_handle_callback : Callback → Bool
in_handle_callback outside = false
in_handle_callback request_callback = false
in_handle_callback handle_callback = true

-- `n` and `m` count the active and the async handles of the other operations.
pub record IsValid (n m : ℕ) (op : Operation) : Type 0 where
  pub nactive : op.nactive ≡ n + one_if (is_live op)
  pub nasync : op.nasync ≡ m + one_if (is_open_async op)
  pub pending : op.pending ≡ not (is_free op.at)
  pub cleaning : op.cleanup ≡ true → is_open_async op ≡ true
  pub live_anchored : is_live op ≡ true → op.anchored ≡ true
  pub anchored : op.anchored ≡ true → (op.thrsaved || not op.request) ≡ true
  pub saved : op.thrsaved ≡ true → (op.request ≡ true) × (op.anchored ≡ true)
  pub saved_active : op.request ≡ true → op.active ≡ true → op.thrsaved ≡ true
  pub saved_outside : is_outside op.callback ≡ true → op.thrsaved ≡ true → op.active ≡ true
  pub serving :
      op.request ≡ false
      → op.closing ≡ false
      → (op.pending || op.cleanup || in_handle_callback op.callback) ≡ true
  pub still_handle : in_handle_callback op.callback ≡ true → op.request ≡ false
  pub awaited : Awaited op.at op

-- The state that a function leaves, where no assertion fails.
abbrev pub result : Option Operation → Operation → Operation
result none op = op
result (some op') op = op'

abbrev pub setup : Arming → Bool → Setup
setup arming waits = record { arming = arming; waits = waits }

abbrev pub is_some : Option Operation → Bool
is_some none = false
is_some (some _) = true

-- No assertion fails, and the invariant holds behind.
abbrev pub Safe : (n m : ℕ) → Option Operation → Operation → Type 0
Safe n m o op = (is_some o ≡ true) × IsValid n m (result o op)

pub cancelop-Safe :
    (n m : ℕ) (op op0 : Operation)
    → IsValid n m op
    → op.cleanup ≡ false
    → op.pending ≡ false
    → Safe n m (cancelop op) op0
unfolding cancelop
cancelop-Safe n m op op0 v c p = ground arith

module _ (n m : ℕ) (op : Operation) (v : IsValid n m op) where
  pub halt-Safe :
      (cancels : Bool) (at : Suspension)
      → op.at ≡ at
      → can_happen (halted cancels) op ≡ true
      → Safe n m (halt cancels at op) op
  unfolding can_happen halt
  halt-Safe cancels none_of_ours e h = ground arith
  halt-Safe cancels in_end e h = ground arith
  halt-Safe cancels in_reset_request e h = ground arith
  halt-Safe cancels (in_reset_handle t) e h = ground arith

-- The operation is idle and the coroutine is in control: a setup may arm it.
pub record IsReady (op : Operation) : Type 0 where
  pub request : op.request ≡ true
  pub inactive : op.active ≡ false
  pub running : op.pending ≡ false

module _ (n m : ℕ) (op op0 : Operation) (v : IsValid n m op) (r : IsReady op) where
  pub startcoreqk-Safe :
      (arming : Arming) (waits : Bool)
      → is_sound (setup arming waits) ≡ true
      → Safe n m (startcoreqk (setup arming waits) op) op0
  unfolding startcoreqk
  startcoreqk-Safe not_called waits h = ground arith
  startcoreqk-Safe failed waits h = ground arith
  startcoreqk-Safe armed waits h = ground arith

  pub startcohdlk-Safe :
      (type : HandleType) (arming : Arming) (waits : Bool)
      → is_sound (setup arming waits) ≡ true
      → Safe n m (startcohdlk (setup arming waits) type op) op0
  unfolding startcohdlk
  startcohdlk-Safe type not_called waits h = ground arith
  startcohdlk-Safe type failed waits h = ground arith
  startcohdlk-Safe type armed true h = ground arith
  startcohdlk-Safe type armed false h = ground arith

abbrev pub is_reset : Suspension → Bool
is_reset none_of_ours = false
is_reset in_end = false
is_reset in_reset_request = true
is_reset (in_reset_handle _) = true

module _ (n m : ℕ) (op : Operation) (v : IsValid n m op) where
  -- A call that finds another operation in the way.
  sameop-Safe :
      (waits : Bool)
      → op.pending ≡ false
      → op.request ≡ false
      → op.cleanup ≡ false
      → op.closing ≡ false
      → Safe n m (startedopk waits op) op
  unfolding startedopk
  sameop-Safe waits p r c o = ground arith

  waitop-Safe :
      (at : Suspension)
      → op.pending ≡ false
      → Awaited at op
      → is_free at ≡ false
      → Safe n m (yieldresetk at op) op
  unfolding yieldresetk
  waitop-Safe at p w f = ground arith

  closehdl-Safe :
      (at : Suspension)
      → op.pending ≡ false
      → op.request ≡ false
      → op.cleanup ≡ false
      → op.closing ≡ false
      → is_reset at ≡ true
      → Safe n m (yieldresetk at (closehdl op)) op
  unfolding yieldresetk closehdl
  closehdl-Safe none_of_ours p r c o f = cc
  closehdl-Safe in_end p r c o f = cc
  closehdl-Safe in_reset_request p r c o f = ground arith
  closehdl-Safe (in_reset_handle t) p r c o f = ground arith

module _ (n m : ℕ) (op : Operation) (v : IsValid n m op) where
  pub resetcoreqk-Safe :
      (arming : Arming) (waits : Bool)
      → can_happen (call_request (setup arming waits)) op ≡ true
      → Safe n m (resetcoreqk (setup arming waits) op) op
  unfolding can_happen resetcoreqk checkreset
  resetcoreqk-Safe arming waits h =
      let running : op.pending ≡ false = ground arith in
      elim (Bool-cases op.request) [
        | inl req ↦ elim (Bool-cases op.active) [
          | inl act ↦
              ground (arith, waitop-Safe n m op v in_reset_request running (ground arith) refl)
          | inr idle ↦
              let r : IsReady op = record { request = req; inactive = idle; running = running } in
              ground (arith, startcoreqk-Safe n m op op v r arming waits (ground arith))
        ]
        | inr hdl ↦ elim (Bool-cases (not op.cleanup && not op.closing)) [
          | inl open_ ↦ ground (
            arith,
            closehdl-Safe n m op v in_reset_request running hdl (ground arith) (ground arith) refl,
          )
          | inr shut ↦
              ground (arith, waitop-Safe n m op v in_reset_request running (ground arith) refl)
        ]
      ]

  pub resetcohdlk-Safe :
      (type : HandleType) (arming : Arming) (waits : Bool)
      → can_happen (call_handle type (setup arming waits)) op ≡ true
      → Safe n m (resetcohdlk type (setup arming waits) op) op
  unfolding can_happen resetcohdlk checkreset
  resetcohdlk-Safe type arming waits h =
      let running : op.pending ≡ false = ground arith in
      let at = in_reset_handle type in
      elim (Bool-cases op.request) [
        | inl req ↦ elim (Bool-cases op.active) [
          | inl act ↦ ground (arith, waitop-Safe n m op v at running (ground arith) refl)
          | inr idle ↦
              let r : IsReady op = record { request = req; inactive = idle; running = running } in
              ground (arith, startcohdlk-Safe n m op op v r type arming waits (ground arith))
        ]
        | inr hdl ↦ elim (Bool-cases (not op.cleanup && not op.closing)) [
          | inl open_ ↦ ground (
            arith,
            sameop-Safe n m op v waits running hdl (ground arith) (ground arith),
            closehdl-Safe n m op v at running hdl (ground arith) (ground arith) refl,
          )
          | inr shut ↦ ground (arith, waitop-Safe n m op v at running (ground arith) refl)
        ]
      ]
