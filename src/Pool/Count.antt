-- ===== src/Pool/Count.antt =====
-- `threads:count` (src/lthreadm.c) and `lcuTP_counttpool` (src/lthpool.c).
pub mod Options
use coutil.Prelude.{
  ℕ, suc, ◌+◌, ◌<◌, ◌≡◌, Bool, true, false, ◌||◌, Option, none, some, List, [], ◌∷◌, ◌++◌, arith,
  length, ltb, ◌==◌, if◌then◌else◌,
}
use coutil.Prelude.Int.{ℤ, pos, sub_ℕ}
use coutil.Pool.{ThreadPool}

-- `lcu_ThreadCount`; `none` is a field that nothing was stored in.
pub record ThreadCount : Type 0 where
  pub expected : Option ℤ
  pub actual : Option ℤ
  pub running : Option ℤ
  pub pending : Option ℤ
  pub suspended : Option ℤ
  pub numoftasks : Option ℤ

abbrev pub garbage : ThreadCount
garbage = record {
  expected = none;
  actual = none;
  running = none;
  pending = none;
  suspended = none;
  numoftasks = none;
}

-- The `switch` of `lcuTP_counttpool` at one character.
unfoldable pub store : ThreadPool → ThreadCount → ℕ → ThreadCount
store pool count c =
    if c == b'e'
    then record count { expected = some (pos pool.size) }
    else if c == b'a'
    then record count { actual = some (pos pool.threads) }
    else if c == b'r'
    then record count { running = some (pos pool.running) }
    else if c == b'p'
    then record count { pending = some (pos pool.pending) }
    else if c == b's'
    then record count { suspended = some (sub_ℕ pool.tasks (pool.running + pool.pending)) }
    else if c == b'n'
    then record count { numoftasks = some (pos pool.tasks) }
    else count

unfoldable pub counttpool : ThreadPool → ThreadCount → List ℕ → ThreadCount
counttpool pool count [] = count
counttpool pool count (c ∷ what) = counttpool pool (store pool count c) what

pub data Counted : Type 0 where
  values : List ℤ → Counted
  bad_option : ℕ → Counted  -- `luaL_error` with the character
  undefined : Counted  -- a field that was not stored is read

-- What one character asks for: `none` if it is no option.
unfoldable pub field : ThreadCount → ℕ → Option (Option ℤ)
field count c =
    if c == b'e'
    then some count.expected
    else if c == b'a'
    then some count.actual
    else if c == b'r'
    then some count.running
    else if c == b'p'
    then some count.pending
    else if c == b's'
    then some count.suspended
    else if c == b'n'
    then some count.numoftasks
    else none

abbrev pub push : ℤ → Counted → Counted
push v (values vs) = values (v ∷ vs)
push v (bad_option c) = bad_option c
push v undefined = undefined

-- The loop of `threads_count` that pushes the values.
unfoldable pub push_fields : ThreadCount → List ℕ → Counted
push_fields count [] = values []
push_fields count (c ∷ opt) =
    let rest = push_fields count opt in
    elim (field count c) [
      | none ↦ bad_option c
      | some none ↦ undefined
      | some (some v) ↦ push v rest
    ]

abbrev pub all_options : List ℕ
all_options = b'e' ∷ b'a' ∷ b'r' ∷ b'p' ∷ b's' ∷ b'n' ∷ []

unfoldable pub threads_count : ThreadPool → List ℕ → Counted
threads_count pool opt =
    push_fields (counttpool pool garbage (if ltb (length opt) 6 then opt else all_options)) opt
