-- ===== src/Pool/Count/Options.antt =====
-- What `threads:count` returns for an option string.
use coutil.Prelude.{
  ℕ, ◌+◌, ◌≡◌, refl, ◌⊎◌, inl, inr, Option, none, some, List, [], ◌∷◌, arith, length, ltb, ◌==◌,
  if◌then◌else◌, ◌∈◌, Bool-cases,
}
use coutil.Prelude.Int.{ℤ, pos, sub_ℕ}
use coutil.Pool.{ThreadPool}
use coutil.Pool.Count.{
  ThreadCount, garbage, store, counttpool, Counted, values, bad_option, field, push, push_fields,
  all_options, threads_count,
}

-- The number that a character stands for.
unfoldable pub counter : ThreadPool → ℕ → Option ℤ
counter pool c =
    if c == b'e'
    then some (pos pool.size)
    else if c == b'a'
    then some (pos pool.threads)
    else if c == b'r'
    then some (pos pool.running)
    else if c == b'p'
    then some (pos pool.pending)
    else if c == b's'
    then some (sub_ℕ pool.tasks (pool.running + pool.pending))
    else if c == b'n'
    then some (pos pool.tasks)
    else none

-- One number for each character, up to the first that stands for none.
unfoldable pub counters : ThreadPool → List ℕ → Counted
counters pool [] = values []
counters pool (c ∷ opt) =
    let rest = counters pool opt in
    elim (counter pool c) [ none ↦ bad_option c | some v ↦ push v rest ]

abbrev stored : Option ℤ → Option (Option ℤ)
stored none = none
stored (some v) = some (some v)

field-store_self :
    (pool : ThreadPool) (count : ThreadCount) (c : ℕ)
    → field (store pool count c) c ≡ stored (counter pool c)
unfolding field store counter
field-store_self pool count c = ground arith

field-store_keeps :
    (pool : ThreadPool) (count : ThreadCount) (c d : ℕ)
    → field count c ≡ stored (counter pool c)
    → field (store pool count d) c ≡ stored (counter pool c)
unfolding field store counter
field-store_keeps pool count c d h = ground arith

field-counttpool_keeps :
    (pool : ThreadPool) (what : List ℕ) (count : ThreadCount) (c : ℕ)
    → field count c ≡ stored (counter pool c)
    → field (counttpool pool count what) c ≡ stored (counter pool c)
unfolding counttpool
field-counttpool_keeps pool [] count c h = h
field-counttpool_keeps pool (d ∷ what) count c h =
    field-counttpool_keeps pool what (store pool count d) c (field-store_keeps pool count c d h)

-- `lcuTP_counttpool` stores what each of its characters asks for.
field-counttpool :
    (pool : ThreadPool) (what : List ℕ) (count : ThreadCount) (c : ℕ)
    → c ∈ what
    → field (counttpool pool count what) c ≡ stored (counter pool c)
unfolding counttpool
field-counttpool pool [] count c h = cc
field-counttpool pool (d ∷ what) count c h = elim (Bool-cases (c == d)) [
  | inl same ↦
      let e : c ≡ d = ground arith in
      field-counttpool_keeps pool what (store pool count d) c (rw e (field-store_self pool count d))
  | inr other ↦ field-counttpool pool what (store pool count d) c (ground arith)
]

-- The other characters ask for nothing.
field-unknown :
    (pool : ThreadPool) (count : ThreadCount) (c : ℕ)
    → c ∈ all_options ⊎ (field count c ≡ stored (counter pool c))
unfolding field counter
field-unknown pool count c = ground arith

push_fields-counters :
    (pool : ThreadPool) (count : ThreadCount) (opt : List ℕ)
    → ((c : ℕ) → c ∈ opt → field count c ≡ stored (counter pool c))
    → push_fields count opt ≡ counters pool opt
unfolding push_fields counters
push_fields-counters pool count [] h = refl
push_fields-counters pool count (c ∷ opt) h =
    let first : field count c ≡ stored (counter pool c) = h c (ground arith) in
    let rest = push_fields-counters pool count opt (λ d m. h d (ground arith)) in ground arith

-- `threads:count` returns one number for each character of its option string, or an error that
-- names the first character that is no option. It never reads a field of the structure that
-- `lcuTP_counttpool` did not fill, although only the options of a short string are filled.
pub threads_count-counters :
    (pool : ThreadPool) (opt : List ℕ) → threads_count pool opt ≡ counters pool opt
unfolding threads_count
threads_count-counters pool opt = elim (Bool-cases (ltb (length opt) 6)) [
  | inl short ↦ rw short (
      push_fields-counters pool (counttpool pool garbage opt) opt
        (λ c m. field-counttpool pool opt garbage c m))
  | inr long ↦ rw long (
      push_fields-counters pool (counttpool pool garbage all_options) opt (λ c m.
        elim (field-unknown pool (counttpool pool garbage all_options) c) [
          | inl known ↦ field-counttpool pool all_options garbage c known
          | inr unknown ↦ unknown
        ]))
]
