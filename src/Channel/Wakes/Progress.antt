-- ===== src/Channel/Wakes/Progress.antt =====
-- What was sent to a task is handled in the end (src/lchaux.c): the threads on the way and the event
-- loop of the task have no wait for anything else.
use coutil.Prelude.{
  ℕ, zero, suc, ◌+◌, ◌≡◌, ◌∙◌, sym, refl, Bool, true, false, ◌||◌, ltb, arith, Bool-cases, inl, inr,
}
use coutil.Prelude.Int.{pos}
use coutil.Channel.Wakes.{System, Step, send, get, synced, suspend, enabled, take_step}
use coutil.Channel.Wakes.Wakeup.{IsWakeful, take_step-IsWakeful, Reach, Reach-IsWakeful}

-- Only the steps that were due already: no new handle, and no new wait of the task.
abbrev is_due : Step → Bool
is_due send = false
is_due get = true
is_due synced = true
is_due (suspend l) = false

-- Steps that are due lead from a state to another.
pub data Leads : ℕ → System → System → Type 0 where
  here : {s : System} → Leads 0 s s
  due :
      {n : ℕ} {s t : System} (p : Step)
      → is_due p ≡ true
      → enabled p s ≡ true
      → Leads n (take_step p s) t
      → Leads (suc n) s t

-- Nothing is on the way, nothing is counted, and the task is not asleep if `woken`.
pub record IsQuiet (woken : Bool) (s : System) : Type 0 where
  pub sent : s.sending ≡ 0
  pub handled : s.unhandled ≡ 0
  pub wakes : s.task.wakes ≡ pos 0
  pub awake : s.awake ≡ woken

handles :
    (k : ℕ) (s : System)
    → IsWakeful s
    → s.sending ≡ 0
    → s.unhandled ≡ k
    → s.awake ≡ true
    → (t : System) × Leads k s t × IsQuiet true t
unfolding take_step
handles zero s v e f a =
    (s, here, record { sent = e; handled = f; wakes = ground (arith, v.counted); awake = a })
handles (suc k) s v e f a =
    let can : enabled synced s ≡ true = ground arith in
    let (t, run, quiet) =
      handles k (take_step synced s) (take_step-IsWakeful s synced v can) (ground arith)
        (ground arith) (ground arith) in
    (t, due synced refl can run, quiet)

-- The threads on the way go first.
delivers :
    (k n : ℕ) (w : Bool) (s : System)
    → IsWakeful s
    → s.sending ≡ k
    → n ≡ k + s.unhandled
    → (s.awake || ltb 0 s.unhandled) ≡ w
    → (t : System) × Leads n s t × IsQuiet w t
unfolding take_step
delivers zero n w s v e count woken = elim (Bool-cases s.awake) [
  | inl a ↦
      let true_ : true ≡ w = ground arith in
      rw (sym true_) (handles n s v e (omega (arith, count)) a)
  | inr a ↦
      let f : s.unhandled ≡ 0 = v.asleep a ∙ e in
      let none_ : n ≡ 0 = omega arith in
      let false_ : false ≡ w = ground arith in
      rw (none_, sym false_)
        (s, here, record { sent = e; handled = f; wakes = ground (arith, v.counted); awake = a })
]
delivers (suc k) zero w s v e count woken = absurd (omega (arith, count))
delivers (suc k) (suc n) w s v e count woken =
    let can : enabled get s ≡ true = ground arith in
    let same : ((take_step get s).awake || ltb 0 s.unhandled) ≡ w =
      ground (arith, v.given, v.asleep) in
    let (t, run, quiet) =
      delivers k n w (take_step get s) (take_step-IsWakeful s get v can) (ground arith)
        (omega (arith, count)) same in
    (t, due get refl can run, quiet)

-- From every state that steps can lead to, as many steps that are due as there are threads on the way
-- and sent handles lead to a state with none of either and with `wakes` 0, in which the task is
-- awake if it was so before or a handle was sent to it.
pub Reach-Leads :
    {s : System}
    → Reach s
    → (t : System) × Leads (s.sending + s.unhandled) s t × IsQuiet (s.awake || ltb 0 s.unhandled) t
Reach-Leads {s} r =
    delivers s.sending (s.sending + s.unhandled) (s.awake || ltb 0 s.unhandled) s
      (Reach-IsWakeful r) refl refl refl
