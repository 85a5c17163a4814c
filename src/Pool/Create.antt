-- ===== src/Pool/Create.antt =====
-- `lcuTP_createtpool` of src/lthpool.c, and what it has acquired where it fails. The allocator and
-- the constructors of libuv are parameters: each answers 0 or an error number, the allocator whether
-- there is memory.
use coutil.Prelude.{
  ℕ, ◌≡◌, ◌≢◌, ◌⊎◌, Bool, true, false, Option, none, some, List, [], ◌∷◌, ◌++◌, arith, ◌==◌,
  if◌then◌else◌,
}
use coutil.Pool.{ThreadPool, new_pool}

pub data Resource : Type 0 where
  memory mutex onwork onterm : Resource

pub data Call : Type 0 where
  acquire : Resource → Call
  release : Resource → Call

pub record Answers : Type 0 where
  pub allocated : Bool
  pub mutex_init : ℕ
  pub onwork_init : ℕ
  pub onterm_init : ℕ

pub record Created : Type 0 where
  pub err : ℕ
  pub pool : Option ThreadPool
  pub calls : List Call

-- The labels of the function, each with what follows it up to `return err`.
abbrev alloc_err : ℕ → List Call → Created
alloc_err err calls = record { err = err; pool = none; calls = calls }

abbrev mutex_err : ℕ → List Call → Created
mutex_err err calls = alloc_err err (calls ++ release memory ∷ [])

abbrev onworkcond_err : ℕ → List Call → Created
onworkcond_err err calls = mutex_err err (calls ++ release mutex ∷ [])

abbrev ontermcond_err : ℕ → List Call → Created
ontermcond_err err calls = onworkcond_err err (calls ++ release onwork ∷ [])

unfoldable pub createtpool : (enomem : ℕ) → Answers → Created
createtpool enomem a =
    if a.allocated
    then (if a.mutex_init == 0
        then (if a.onwork_init == 0
            then (if a.onterm_init == 0
                then record {
                  err = 0;
                  pool = some new_pool;
                  calls = acquire memory ∷ acquire mutex ∷ acquire onwork ∷ acquire onterm ∷ [];
                }
                else ontermcond_err a.onterm_init
                    (acquire memory ∷ acquire mutex ∷ acquire onwork ∷ []))
            else onworkcond_err a.onwork_init (acquire memory ∷ acquire mutex ∷ []))
        else mutex_err a.mutex_init (acquire memory ∷ []))
    else alloc_err enomem []

-- What is held after a sequence of calls, the last acquired first; `none` if something is released
-- that is not on top.
abbrev same : Resource → Resource → Bool
same memory memory = true
same mutex mutex = true
same onwork onwork = true
same onterm onterm = true
same _ _ = false

unfoldable pub held : List Resource → List Call → Option (List Resource)
held rs [] = some rs
held rs (acquire r ∷ calls) = held (r ∷ rs) calls
held [] (release r ∷ calls) = none
held (s ∷ rs) (release r ∷ calls) = let rest = held rs calls in if same s r then rest else none

-- `lcuTP_createtpool` either returns 0 with an empty open pool that holds the memory, the mutex and
-- both conditions, or it returns the error of the step that failed, no pool, and has released all
-- that it acquired, in the opposite order.
createtpool_balanced :
    (enomem : ℕ) (a : Answers)
    → enomem ≢ 0
    → (((createtpool enomem a).err ≡ 0)
        × ((createtpool enomem a).pool ≡ some new_pool)
        × (held [] (createtpool enomem a).calls ≡ some (onterm ∷ onwork ∷ mutex ∷ memory ∷ [])))
      ⊎ (((createtpool enomem a).err ≢ 0)
          × ((createtpool enomem a).pool ≡ none)
          × (held [] (createtpool enomem a).calls ≡ some []))
unfolding createtpool held
createtpool_balanced enomem a h = ground arith
