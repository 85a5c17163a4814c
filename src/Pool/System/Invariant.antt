-- ===== src/Pool/System/Invariant.antt =====
-- The counters of a pool count: true of a new pool, and kept by every step.
use coutil.Prelude.{
  ℕ, zero, suc, ◌+◌, ◌≤◌, ◌≡◌, true, false, some, List, [], ◌∷◌, arith, length, length-append,
  Option-cases, inl, inr,
}
use coutil.StateQ.{null}
use coutil.Pool.{ThreadPool, Effect, is_closed}
use coutil.Pool.Worker.{
  Turn, ended, picked, waits, Pc, inner_loop, thread_end, settle, turn, after_run, awake,
}
use coutil.Pool.System.{Move, begin, wake, requeue, finish, park, back}
use coutil.Pool.System.Crew.{is_alive, is_waiting, is_busy, is_parked}

-- `alive`, `idlers`, `active` and `handed` workers, and `away` tasks that neither the queue nor a
-- worker has.
pub record Counts (pool : ThreadPool) (alive idlers active handed away : ℕ) : Type 0 where
  pub threads : pool.threads ≡ alive
  pub idle : pool.idle ≡ idlers
  pub running : pool.running ≡ active + handed
  pub pending : pool.pending ≡ length pool.queue
  pub tasks : pool.tasks ≡ pool.pending + active + away
  pub room : is_closed pool.status ≡ true → pool.threads ≤ pool.size
  pub drained : is_closed pool.status ≡ true → pool.pending + active + handed ≡ 0

-- What holds where the inner loop is left; the worker itself is one of those alive.
abbrev AfterLoop : (a w b k y : ℕ) → Turn → ThreadPool → Type 0
AfterLoop a w b k y ended pool = Counts pool (suc a) w b k y
AfterLoop a w b k y (picked _) pool = Counts pool (suc a) w (suc b) k y
AfterLoop a w b k y waits pool = Counts pool (suc a) (suc w) b k y

module _ {w b k y : ℕ} where
  thread_end-Counts :
      (a self : ℕ) (pool : ThreadPool)
      → Counts pool (suc a) w b k y
      → Counts (thread_end self pool).0 a w b k y
  unfolding thread_end
  thread_end-Counts a self pool c = ground arith

  inner_loop-AfterLoop :
      (a fuel : ℕ) (pool : ThreadPool) (t : Turn) (pool' : ThreadPool)
      → Counts pool (suc a) w b k y
      → inner_loop fuel pool ≡ some (t, pool')
      → AfterLoop a w b k y t pool'
  unfolding inner_loop
  inner_loop-AfterLoop a zero pool t pool' c e = cc
  inner_loop-AfterLoop a (suc fuel) pool ended pool' c e =
      ground (arith, inner_loop-AfterLoop a fuel (record pool { size = 0 }) ended pool')
  inner_loop-AfterLoop a (suc fuel) pool (picked l) pool' c e =
      ground (arith, inner_loop-AfterLoop a fuel (record pool { size = 0 }) (picked l) pool')
  inner_loop-AfterLoop a (suc fuel) pool waits pool' c e =
      ground (arith, inner_loop-AfterLoop a fuel (record pool { size = 0 }) waits pool')

-- What holds at the program counter where the mutex is given up.
abbrev AfterTurn : (a w b k y : ℕ) → Pc → ThreadPool → Type 0
AfterTurn a w b k y pc pool =
    Counts pool (a + is_alive pc) (w + is_waiting pc) (b + is_busy pc) (k + is_parked pc) y

module _ (w b k y : ℕ) where
  settle-AfterTurn :
      (a self : ℕ) (t : Turn) (pool : ThreadPool)
      → AfterLoop a w b k y t pool
      → AfterTurn a w b k y (settle self (t, pool)).0 (settle self (t, pool)).1
  unfolding settle
  settle-AfterTurn a self ended pool c = let c' = thread_end-Counts a self pool c in ground arith
  settle-AfterTurn a self (picked l) pool c = ground arith
  settle-AfterTurn a self waits pool c = ground arith

  -- A turn that a worker takes, itself alive and counted nowhere else.
  turn-AfterTurn :
      (a self : ℕ) (pool : ThreadPool) (pc : Pc) (pool' : ThreadPool) {effects : List Effect}
      → Counts pool (suc a) w b k y
      → turn self pool ≡ some (pc, pool', effects)
      → AfterTurn a w b k y pc pool'
  unfolding turn
  turn-AfterTurn a self pool pc pool' c e = elim (Option-cases (inner_loop 2 pool)) [
    | inl stuck ↦ ground arith
    | inr ((t, pool''), got) ↦
        let h = settle-AfterTurn a self t pool'' (inner_loop-AfterLoop a 2 pool t pool'' c got) in
        ground arith
  ]

-- What a worker's move makes of the counters, where `a`, `w`, `b` and `k` count the other workers.
abbrev AfterMove : (a w b k y d : ℕ) → Pc → ThreadPool → Type 0
AfterMove a w b k y d pc pool =
    Counts pool (a + is_alive pc) (w + is_waiting pc) (b + is_busy pc) (k + is_parked pc) (y + d)

pub Move-Counts :
    (a w b k d : ℕ) {self y y' : ℕ} {pool pool' : ThreadPool} {pc pc' : Pc}
    → Move self pool y pc pc' pool' y'
    → AfterMove a w b k y d pc pool
    → AfterMove a w b k y' d pc' pool'
unfolding awake after_run
Move-Counts a w b k d {self} {y} {y'} {pool} (begin {pc} {pool'} e) c =
    turn-AfterTurn w b k (y + d) a self pool pc pool' (ground arith) e
Move-Counts a w b k d {self} {y} {y'} {pool} (wake {pc} {pool'} e) c =
    turn-AfterTurn w b k (y + d) a self (awake pool) pc pool' (ground arith) e
Move-Counts a w b k d {self} {y} {y'} {pool} (requeue {l} {pc} {pool'} e) c =
    turn-AfterTurn w b k (y + d) a self (after_run true true pool l) pc pool'
      (ground (arith, length-append pool.queue (l ∷ []))) e
Move-Counts a w b k d {self} {y} {y'} {pool} (finish {l} {pc} {pool'} e) c =
    turn-AfterTurn w b k (y + d) a self (after_run false false pool l) pc pool' (ground arith) e
Move-Counts a w b k d park c = ground arith
Move-Counts a w b k d {self} {y} {y'} {pool} (back {pc} {pool'} e) c =
    turn-AfterTurn w b k (y + d) a self (after_run false true pool null) pc pool' (ground arith) e
