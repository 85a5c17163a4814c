-- ===== src/Request.antt =====
-- The requests of objects (`lcu_UdataRequest` of src/loperaux.c): one request of libuv in an object
-- of Lua, and the coroutine that waits for it. The object is followed with the counter of active
-- operations of its scheduler; the results of the request are left out. A failed assertion is `none`.
pub mod Runs
use coutil.Prelude.{ℕ, ◌+◌, ◌-◌, Bool, true, false, ◌&&◌, Option, none, some, if◌then◌else◌}

-- UV_UNKNOWN_REQ, UV_REQ_TYPE_MAX, and any type that libuv gives to a request that it has.
pub data RequestType : Type 0 where
  unknown type_max active : RequestType

abbrev pub is_unknown : RequestType → Bool
is_unknown unknown = true
is_unknown type_max = false
is_unknown active = false

abbrev pub is_type_max : RequestType → Bool
is_type_max unknown = false
is_type_max type_max = true
is_type_max active = false

abbrev pub is_active : RequestType → Bool
is_active unknown = false
is_active type_max = false
is_active active = true

-- Where the coroutine in `request->data` is suspended; `nowhere` is for no coroutine.
pub data Continuation : Type 0 where
  nowhere k_endudreq k_resetudreqk : Continuation

abbrev pub is_waiting : Continuation → Bool
is_waiting nowhere = false
is_waiting k_endudreq = true
is_waiting k_resetudreqk = true

pub record UdataRequest : Type 0 where
  pub type : RequestType
  pub data_ : Continuation
  pub saved : Bool  -- the object is kept in the Lua registry
  pub nactive : ℕ  -- of the scheduler
  pub in_callback : Bool  -- `lcuU_resumeudreq` is on the stack

abbrev pub asserting : Bool → UdataRequest → Option UdataRequest
asserting true r = some r
asserting false r = none

unfoldable pub freeudreq : UdataRequest → Option UdataRequest
freeudreq r =
    asserting (is_type_max r.type) (record r { data_ = nowhere; saved = false; type = unknown })

-- `waits` is whether the setup has given the request to libuv; else it returns its results.
unfoldable pub startedudreqk : Bool → UdataRequest → Option UdataRequest
unfolding freeudreq
startedudreqk waits r =
    if waits
    then asserting (is_active r.type) (record r { nactive = r.nactive + 1; data_ = k_endudreq })
    else freeudreq r

abbrev pub set_up : Bool → UdataRequest → UdataRequest
set_up waits r = if waits then record r { type = active } else r

-- `lcuT_resetudreqk`; a request that is in use is left as it is, with an error.
unfoldable pub resetudreqk : Bool → UdataRequest → Option UdataRequest
unfolding startedudreqk
resetudreqk waits r0 =
    let r = if is_unknown r0.type then record r0 { saved = true; type = type_max } else r0 in
    if is_waiting r0.data_
    then some r0
    else if is_type_max r.type
    then startedudreqk waits (set_up waits r)
    else some (record r { data_ = k_resetudreqk })

-- A coroutine that waits is resumed by the loop: `k_endudreq` or `k_resetudreqk`.
unfoldable pub resumeudreq : Bool → Continuation → UdataRequest → Option UdataRequest
unfolding startedudreqk
resumeudreq waits nowhere r = some r
resumeudreq waits k_endudreq r = some (record r { data_ = nowhere })
resumeudreq waits k_resetudreqk r =
    if is_unknown r.type then startedudreqk waits (set_up waits r) else none

-- It is resumed by another coroutine; `uv_cancel` leaves it to libuv when the request completes.
unfoldable pub haltudreq : UdataRequest → UdataRequest
haltudreq r = record r { data_ = nowhere }

-- `lcuU_endudreq`, and `lcuU_resumeudreq` if it returns a coroutine, up to the return of that.
unfoldable pub endudreq : Bool → UdataRequest → Option UdataRequest
unfolding freeudreq resumeudreq
endudreq waits r0 =
    let r = record r0 { type = type_max; nactive = r0.nactive - 1 } in
    if is_active r0.type
    then (if is_waiting r.data_
        then resumeudreq waits r.data_ (record r { in_callback = true })
        else freeudreq r)
    else none

-- The rest of `lcuU_resumeudreq`.
unfoldable pub resumeudreq_end : UdataRequest → Option UdataRequest
unfolding freeudreq
resumeudreq_end r0 =
    let r = record r0 { in_callback = false } in if is_type_max r.type then freeudreq r else some r
