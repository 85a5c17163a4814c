-- ===== src/Threads/Once.antt =====
-- A pool is closed once (src/lthreadm.c).
use coutil.Prelude.{
  ℕ, zero, suc, ◌+◌, ◌≡◌, ◌∙◌, ap, Bool, true, false, Option, none, some, arith, if◌then◌else◌,
}
use coutil.Threads.{Threads, tpoolgc_gc, threads_close, threads_create}

-- What is done with a pool until its state closes: `threads:close` or `__close`, and at the end the
-- finalizer of the sentinel, if it is there.
abbrev pub closes : ℕ → Threads → Threads
closes zero t = t
closes (suc n) t = closes n (threads_close t).1

abbrev pub state_closes : Threads → Threads
state_closes t = if t.sentinel then tpoolgc_gc t else t

-- The pool is open as long as its state has the sentinel, and as an object refers to it; else it was
-- closed once.
pub record IsOwned (t : Threads) : Type 0 where
  pub once : t.closings + (if t.sentinel then 1 else 0) ≡ 1
  pub referred : t.ref ≡ t.sentinel

threads_close-IsOwned : (t : Threads) → IsOwned t → IsOwned (threads_close t).1
unfolding threads_close
threads_close-IsOwned t v = ground arith

closes-IsOwned : (n : ℕ) (t : Threads) → IsOwned t → IsOwned (closes n t)
closes-IsOwned zero t v = v
closes-IsOwned (suc n) t v = closes-IsOwned n (threads_close t).1 (threads_close-IsOwned t v)

state_closes-closings : (t : Threads) → IsOwned t → (state_closes t).closings ≡ 1
unfolding tpoolgc_gc
state_closes-closings t v = ground arith

threads_create-IsOwned :
    (create : Option ℕ) (positive : Bool) (resize : Option ℕ) (t : Threads)
    → (threads_create create positive resize).1 ≡ some t
    → IsOwned t
unfolding threads_create
threads_create-IsOwned (some err) positive resize t e = ground arith
threads_create-IsOwned none false resize t e = ground arith
threads_create-IsOwned none true none t e = ground arith
threads_create-IsOwned none true (some err) t e = ground arith

-- Every pool that `threads.create` makes, also where the call fails behind that, is closed exactly
-- once, however often `threads:close` is called before the state of Lua closes; and an object refers
-- to it only while it is open.
threads_create-closings :
    (create : Option ℕ) (positive : Bool) (resize : Option ℕ) (t : Threads) (n : ℕ)
    → (threads_create create positive resize).1 ≡ some t
    → ((state_closes (closes n t)).closings ≡ 1)
      × ((closes n t).closings + (if (closes n t).ref then 1 else 0) ≡ 1)
threads_create-closings create positive resize t n e =
    let v = closes-IsOwned n t (threads_create-IsOwned create positive resize t e) in
    (
      state_closes-closings (closes n t) v,
      ap (λ b. (closes n t).closings + (if b then 1 else 0)) v.referred ∙ v.once,
    )
