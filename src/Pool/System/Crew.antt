-- ===== src/Pool/System/Crew.antt =====
-- How many workers of a pool stand where.
use coutil.Prelude.{ℕ, ◌+◌, ◌*◌, ◌≡◌, List, [], ◌∷◌, ◌++◌, arith}
use coutil.Pool.{Effect, spawn}
use coutil.Pool.Worker.{Pc, starting, waiting, busy, parked, gone}
use coutil.Pool.System.{recruit}

abbrev pub is_alive : Pc → ℕ
is_alive gone = 0
is_alive starting = 1
is_alive waiting = 1
is_alive (busy _) = 1
is_alive parked = 1

abbrev pub is_waiting : Pc → ℕ
is_waiting waiting = 1
is_waiting starting = 0
is_waiting (busy _) = 0
is_waiting parked = 0
is_waiting gone = 0

abbrev pub is_busy : Pc → ℕ
is_busy (busy _) = 1
is_busy starting = 0
is_busy waiting = 0
is_busy parked = 0
is_busy gone = 0

abbrev pub is_parked : Pc → ℕ
is_parked parked = 1
is_parked starting = 0
is_parked waiting = 0
is_parked (busy _) = 0
is_parked gone = 0

abbrev pub number_of : (Pc → ℕ) → List Pc → ℕ
number_of f [] = 0
number_of f (pc ∷ crew) = f pc + number_of f crew

-- The new threads among the calls of a function.
abbrev pub spawned : List Effect → ℕ
spawned [] = 0
spawned (spawn ∷ effects) = 1 + spawned effects
spawned (_ ∷ effects) = spawned effects

pub number_of-middle :
    (f : Pc → ℕ) (before : List Pc) (pc : Pc) (after : List Pc)
    → number_of f (before ++ pc ∷ after) ≡ number_of f (before ++ after) + f pc
number_of-middle f [] pc after = omega arith
number_of-middle f (p ∷ before) pc after = omega (arith, number_of-middle f before pc after)

pub number_of-recruit :
    (f : Pc → ℕ) (effects : List Effect) (crew : List Pc)
    → number_of f (recruit effects crew) ≡ spawned effects * f starting + number_of f crew
number_of-recruit f [] crew = omega arith
number_of-recruit f (spawn ∷ effects) crew = ground (arith, number_of-recruit f effects crew)
number_of-recruit f (e ∷ effects) crew = ground (arith, number_of-recruit f effects crew)
