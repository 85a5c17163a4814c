-- ===== src/StateQ.antt =====
-- The intrusive queue of Lua states of src/lchaux.c (`lcu_StateQ`). A queued state keeps the next
-- one in its own Lua registry, under `REGKEY_NEXTSTATE`: `Registries` gives that field for every
-- state. A pointer is a number and `null` is 0. Each state that is queued belongs to a Lua state of
-- its own, so no two of them share a registry.
pub mod Chain
pub mod Refinement
pub mod Removal
use coutil.Prelude.{ℕ, zero, suc, Bool, true, false, Option, none, some, ◌==◌, if◌then◌else◌}

abbrev pub Ptr : Type 0
Ptr = ℕ

abbrev pub null : Ptr
null = 0

-- The `REGKEY_NEXTSTATE` field of each state; `null` where it is nil.
abbrev pub Registries : Type 0
Registries = Ptr → Ptr

pub record StateQ : Type 0 where
  pub head : Ptr
  pub tail : Ptr

abbrev pub state_q : Ptr → Ptr → StateQ
state_q h t = record { head = h; tail = t }

abbrev pub getnextstateq : Registries → Ptr → Ptr
getnextstateq r l = r l

unfoldable pub setnextstateq : Registries → Ptr → Ptr → Registries
setnextstateq r l value a = if a == l then value else r a

-- The functions return the registries with the queue that the pointer argument leads to.
pub appendstateq : Registries → StateQ → StateQ → Registries × StateQ
appendstateq r q q2 =
    if q.head == null
    then (r, state_q q2.head q2.tail)
    else (setnextstateq r q.tail q2.head, state_q q.head q2.tail)

abbrev pub initstateq : StateQ
initstateq = state_q null null

pub emptystateq : StateQ → Bool
emptystateq q = q.head == null

pub enqueuestateq : Registries → StateQ → Ptr → Registries × StateQ
unfolding appendstateq
enqueuestateq r q l = appendstateq r q (state_q l l)

pub dequeuestateq : Registries → StateQ → Ptr × Registries × StateQ
dequeuestateq r q = if q.head == null then (null, r, q) else (
  q.head,
  setnextstateq r q.head null,
  if q.head == q.tail then initstateq else state_q (getnextstateq r q.head) q.tail,
)

-- What the loop of `lcuCS_removestateq` does at the node `l` behind `prev`.
unlink : Registries → StateQ → Ptr → Ptr → Ptr × Registries × StateQ
unlink r q prev l =
    if l == q.tail
    then (l, setnextstateq (setnextstateq r prev null) l null, state_q q.head prev)
    else (l, setnextstateq (setnextstateq r prev (getnextstateq r l)) l null, q)

-- The `while` of `lcuCS_removestateq`; `none` means that the fuel ran out.
remove_loop : ℕ → Registries → StateQ → Ptr → Ptr → Option (Ptr × Registries × StateQ)
remove_loop zero r q l prev = none
remove_loop (suc fuel) r q l prev =
    let rest = remove_loop fuel r q l (getnextstateq r prev) in
    if prev == q.tail
    then some (null, r, q)
    else if getnextstateq r prev == l
    then some (unlink r q prev l)
    else rest

pub removestateq : ℕ → Registries → StateQ → Ptr → Option (Ptr × Registries × StateQ)
unfolding remove_loop unlink
removestateq fuel r q l =
    if q.head == null
    then some (null, r, q)
    else if l == q.head
    then some (dequeuestateq r q)
    else remove_loop fuel r q l q.head
