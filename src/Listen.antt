-- ===== src/Listen.antt =====
-- Passive sockets of src/lcommunf.c: listening, and the coroutine that accepts connections, on the
-- handles of objects that Object models. The socket is open. A failed assertion is `none`.
pub mod Counts
pub mod Accepts
use coutil.Prelude.{
  ℕ, ◌+◌, ◌-◌, ◌*◌, Bool, true, false, ◌&&◌, ◌||◌, not, Option, none, some, ltb, leb, if◌then◌else◌,
}
use coutil.Prelude.Int.{ℤ, pos, negsuc}
use coutil.Object.{
  UdataHandle, stopudhdl, resetudhdlk, k_endudhdlk_halted, resumeudhdl, resumeudhdl_end,
}

-- LISTENCONN_UNIT: the flags above the ones of the handle count in units of it.
abbrev pub listenconn_unit : ℕ
listenconn_unit = 4

abbrev pub int_max : ℕ
int_max = 2147483647

-- `flags`, the handle, whether libuv counts it as a reason to go on (`uv_has_ref`), and the connections
-- that libuv has announced and that `uv_accept` was not called for.
pub record Passive : Type 0 where
  pub flags : ℕ
  pub udhdl : UdataHandle
  pub ref : Bool
  pub announced : ℕ

abbrev pub islisteningconn : Passive → Bool
islisteningconn p = leb listenconn_unit p.flags

abbrev pub addlistenedconn : Passive → Passive
addlistenedconn p = record p { flags = p.flags + listenconn_unit }

unfoldable pub picklistenedconn : Passive → Option Passive
picklistenedconn p =
    if ltb p.flags (2 * listenconn_unit)
    then none
    else some (record p { flags = p.flags - listenconn_unit })

-- What a call returns to Lua; a number is the code of an error of libuv.
pub data Result : Type 0 where
  argument_error : Result
  failed : ℕ → Result
  succeeded : Result
  stream : Result  -- the new socket
  suspended : Result

-- `passive_listen`; `listen` is the error of `uv_listen`, if any.
unfoldable pub passive_listen : ℤ → (listen : Option ℕ) → Passive → Result × Passive
passive_listen (negsuc n) listen p = (argument_error, p)
passive_listen (pos backlog) listen p =
    if islisteningconn p
    then (argument_error, p)
    else if ltb int_max backlog
    then (argument_error, p)
    else elim listen [
      | some err ↦ (failed err, p)
      | none ↦ (succeeded, record (addlistenedconn p) { ref = false })
    ]

-- `uv_accept` is a call of libuv: the error that it returns, if any, from the number of connections
-- that it has announced and that were not accepted.
module _ (uv_accept : ℕ → Option ℕ) where
  -- `k_acceptstream`: `status` is the error on the stack, if any, and `newaccept` that of the function.
  unfoldable pub k_acceptstream : (status newaccept : Option ℕ) → Passive → Result × Passive
  k_acceptstream (some err) newaccept p = (failed err, p)
  k_acceptstream none (some err) p = (failed err, addlistenedconn p)
  k_acceptstream none none p = elim (uv_accept p.announced) [
    | some err ↦ (failed err, p)
    | none ↦ (stream, record p { announced = p.announced - 1 })
  ]

  -- `lcuT_resetudhdlk` with `startlisten`, which returns 0.
  unfoldable pub resetlisten : Passive → Option (Result × Passive)
  resetlisten p =
      let ref = if p.udhdl.started then p.ref else true in
      if p.udhdl.waiting then some (argument_error, p) else elim (resetudhdlk ref false p.udhdl) [
        | none ↦ none
        | some h ↦ some (suspended, record p { udhdl = h; ref = ref })
      ]

  unfoldable pub listen_accept : (newaccept : Option ℕ) → Passive → Option (Result × Passive)
  listen_accept newaccept p =
      if not (islisteningconn p) then some (argument_error, p) else elim (picklistenedconn p) [
        | some p' ↦ some (k_acceptstream none newaccept p')
        | none ↦ resetlisten p
      ]

  -- `uv_onconnection` up to where the waiting coroutine goes on, with the result that it gets, if one
  -- waits.
  unfoldable pub onconnection :
      (status newaccept : Option ℕ) → Passive → Option (Option Result × Passive)
  onconnection status newaccept p =
      let (result, p') = k_acceptstream status newaccept p in
      if p.udhdl.waiting
      then elim (resumeudhdl p.ref false p.udhdl) [
        | none ↦ none
        | some h ↦ some (some result, record p' { udhdl = h })
      ]
      else some (none, addlistenedconn p)

-- What `stopudhdl` does with `stoplisten`, which returns 0: `uv_unref`.
abbrev pub stoplisten : Passive → Option UdataHandle → Option Passive
stoplisten p none = none
stoplisten p (some h) =
    some (record p { udhdl = h; ref = if p.udhdl.started && not h.started then false else p.ref })

-- `k_endudhdlk` of a coroutine that another one resumes.
unfoldable pub haltlisten : Passive → Option Passive
haltlisten p = stoplisten p (k_endudhdlk_halted false p.udhdl)

-- `uv_onconnection` behind the resume, with the end of `lcuU_resumeudhdl`.
unfoldable pub onconnection_end : Passive → Option Passive
onconnection_end p = elim (stoplisten p (resumeudhdl_end false p.udhdl)) [
  | none ↦ none
  | some p' ↦
      if not p'.udhdl.waiting
      then some (record p' { ref = false })
      else if p'.ref
      then some p'
      else none
]
