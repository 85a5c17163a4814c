-- ===== src/Examples/Tasks.antt =====
-- A pool of src/lthreadm.c that is closed by its object, and a chunk with one argument.
use coutil.Prelude.{◌≡◌, refl, true, none, some, [], ◌∷◌}
use coutil.Channel.Swap.{Stack, nil, integer, string, lightuserdata, movefrom, canmove}
use coutil.Threads.{Threads, dochunk, threads_create}
use coutil.Threads.Tasks.{Taken, dochunk-Taken}

-- `threads:dostring(chunk, nil, nil, 5)` with the loaded chunk on the new stack.
abbrev call : Stack
call = lightuserdata 1 ∷ string [] ∷ nil ∷ nil ∷ integer 5 ∷ []

abbrev chunk : Stack
chunk = lightuserdata 2 ∷ []

given : (dochunk true none call chunk 4).task ≡ some (lightuserdata 2 ∷ integer 5 ∷ [])
unfolding dochunk movefrom canmove
given = refl

dochunk-Taken_example :
    Taken true chunk
      (integer 5 ∷ [])
      (lightuserdata 1 ∷ string [] ∷ nil ∷ nil ∷ [])
      []
      (dochunk true none call chunk 4)
dochunk-Taken_example = dochunk-Taken true none call chunk 4

abbrev pool : Threads
pool = record { ref = true; sentinel = true; closings = 0 }

created : (threads_create none true none).1 ≡ some pool
unfolding threads_create
created = refl
