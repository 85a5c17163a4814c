-- ===== src/Examples/StateQueues.antt =====
-- Runs of the queue of src/lchaux.c: the states 5, 6 and 7, queued in this order.
use coutil.Prelude.{◌≡◌, [], ◌∷◌, some, arith, if◌then◌else◌, has, erase, ◌==◌}
use coutil.StateQ.{Ptr, null, Registries, StateQ, state_q, removestateq}
use coutil.StateQ.Chain.{IsQueue}
use coutil.StateQ.Removal.{removestateq-IsQueue}

abbrev no_links : Registries
no_links a = null

abbrev five_six_seven : Registries
five_six_seven a = if a == 5 then 6 else if a == 6 then 7 else null

three : IsQueue five_six_seven (state_q 5 7) (5 ∷ 6 ∷ 7 ∷ [])
three = record { links = ground arith; distinct = ground arith }

one : IsQueue five_six_seven (state_q 9 9) (9 ∷ [])
one = record { links = ground arith; distinct = ground arith }

removestateq-IsQueue_example :
    (out : Ptr × Registries × StateQ) × (removestateq 3 five_six_seven (state_q 5 7) 6 ≡ some out)
    × (out.0 ≡ (if has 6 (5 ∷ 6 ∷ 7 ∷ []) then 6 else null))
    × IsQueue out.1 out.2 (erase 6 (5 ∷ 6 ∷ 7 ∷ []))
removestateq-IsQueue_example =
    removestateq-IsQueue 3 five_six_seven (state_q 5 7) (5 ∷ 6 ∷ 7 ∷ []) 6 three (omega arith)
