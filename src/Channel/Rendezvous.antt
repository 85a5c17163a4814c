-- ===== src/Channel/Rendezvous.antt =====
-- Who is matched with whom on a channel (`lcuCS_matchchsync` of src/lchaux.c).
use Prim.Native.Nat.{bit_and}
use mathlib.Core.Path.{subst}
use coutil.Prelude.{
  ap, sym, ◌∙◌, not, ◌==◌, ℕ, ◌≡◌, refl, Bool, true, false, Option, none, some, List, [], ◌∷◌, ◌++◌,
  Bool-cases, inl, inr,
}
use coutil.StateQ.{Ptr}
use coutil.Channel.{
  Endpoint, chsync_in, chsync_out, chsync_any, bits, ChannelSync, Outcome, matched, enqueued,
  declined, expecting, match_in, matchchsync, enqueue,
}

-- Two endpoints that meet: one gives and one takes, or one of them does not care.
abbrev pub opposite : Endpoint → Endpoint → Bool
opposite chsync_in chsync_in = false
opposite chsync_out chsync_out = false
opposite _ _ = true

-- A state that waits, with the endpoint that it came with.
pub record Waiter : Type 0 where
  pub state : Ptr
  pub endpoint : Endpoint

abbrev pub states : List Waiter → List Ptr
states [] = []
states (w ∷ ws) = w.state ∷ states ws

-- What a waiter with this endpoint makes the channel expect.
abbrev pub awaits : Endpoint → ℕ
awaits chsync_in = 2
awaits chsync_out = 1
awaits chsync_any = 3

-- All waiters behind one with endpoint `e` came with `e` as well, and behind `any` there are none.
abbrev pub Alike : Endpoint → List Waiter → Type 0
Alike e [] = Unit
Alike e (w ∷ ws) = (w.endpoint ≡ e) × (opposite e e ≡ false) × Alike e ws

abbrev pub Expected : ℕ → List Waiter → Type 0
Expected x [] = Unit
Expected x (w ∷ ws) = (x ≡ awaits w.endpoint) × Alike w.endpoint ws

-- The channel's queue holds the states of the waiters, and `expected` is what they wait for.
pub record IsChannel (sync : ChannelSync) (ws : List Waiter) : Type 0 where
  pub queued : sync.queue ≡ states ws
  pub expects : Expected sync.expected ws

-- The rule of the rendezvous: the oldest waiter goes with an opposite newcomer; else the newcomer
-- (the state `c` that stands for it) waits behind all others.
abbrev pub meets : List Waiter → Endpoint → Bool
meets [] e = false
meets (w ∷ ws) e = opposite w.endpoint e

abbrev pub waiting_state : Option (Option Ptr) → Ptr → Option Ptr
waiting_state none l = some l
waiting_state (some c) l = c

abbrev pub Rule : List Waiter → Endpoint → Option Ptr → Outcome → List Waiter → Type 0
Rule ws e c (matched s) ws' =
    (w : Waiter) × (ws ≡ w ∷ ws') × (w.state ≡ s) × (opposite w.endpoint e ≡ true)
Rule ws e c (enqueued s) ws' =
    (meets ws e ≡ false) × (c ≡ some s) × (ws' ≡ ws ++ record { state = s; endpoint = e } ∷ [])
Rule ws e c declined ws' = (meets ws e ≡ false) × (c ≡ none) × (ws' ≡ ws)

meets_test : (o e : Endpoint) → (bit_and (awaits o) (bits e) == 0) ≡ not (opposite o e)
meets_test chsync_in chsync_in = refl
meets_test chsync_in chsync_out = refl
meets_test chsync_in chsync_any = refl
meets_test chsync_out chsync_in = refl
meets_test chsync_out chsync_out = refl
meets_test chsync_out chsync_any = refl
meets_test chsync_any chsync_in = refl
meets_test chsync_any chsync_out = refl
meets_test chsync_any chsync_any = refl

expecting-awaits : (sync : ChannelSync) (e : Endpoint) → (expecting sync e).expected ≡ awaits e
expecting-awaits sync chsync_in = refl
expecting-awaits sync chsync_out = refl
expecting-awaits sync chsync_any = refl

states-append : (ws : List Waiter) (w : Waiter) → states (ws ++ w ∷ []) ≡ states ws ++ w.state ∷ []
states-append [] w = refl
states-append (v ∷ ws) w = ap (λ (xs : List Ptr). v.state ∷ xs) (states-append ws w)

Alike-append :
    (o e : Endpoint) (ws : List Waiter) (s : Ptr)
    → Alike o ws
    → opposite o e ≡ false
    → Alike o (ws ++ record { state = s; endpoint = e } ∷ [])
Alike-append chsync_in chsync_in [] s a h = (refl, refl, tt)
Alike-append chsync_out chsync_out [] s a h = (refl, refl, tt)
Alike-append o e (w ∷ ws) s a h = (a.0, a.1, Alike-append o e ws s a.2 h)
Alike-append o e [] s a h = cc

Alike-Expected : (o : Endpoint) (ws : List Waiter) → Alike o ws → Expected (awaits o) ws
Alike-Expected o [] a = tt
Alike-Expected o (w ∷ ws) a = (ap awaits (sym a.0), subst (λ x. Alike x ws) (sym a.0) a.2)

-- The waiters behind the call, by the outcome.
abbrev after : List Waiter → Endpoint → Outcome → List Waiter
after [] e (matched s) = []
after (w ∷ ws) e (matched s) = ws
after ws e (enqueued s) = ws ++ record { state = s; endpoint = e } ∷ []
after ws e declined = ws

-- The rule holds of an outcome, and the invariant of the channel behind it.
abbrev Follows : List Waiter → Endpoint → Option Ptr → Outcome × ChannelSync → Type 0
Follows ws e c (outcome, sync) =
    Rule ws e c outcome (after ws e outcome) × IsChannel sync (after ws e outcome)

match_in-nil :
    (sync : ChannelSync) (e : Endpoint) (l : Ptr) (g : Option (Option Ptr))
    → IsChannel sync []
    → Follows [] e (waiting_state g l) (match_in sync [] e l g)
unfolding match_in
match_in-nil sync e l none v = (
  (refl, refl, refl),
  record {
    queued = ap (λ (q : List Ptr). q ++ l ∷ []) v.queued;
    expects = (expecting-awaits sync e, tt);
  },
)
match_in-nil sync e l (some none) v =
    ((refl, refl, refl), record { queued = v.queued; expects = tt })
match_in-nil sync e l (some (some c)) v = (
  (refl, refl, refl),
  record {
    queued = ap (λ (q : List Ptr). q ++ c ∷ []) v.queued;
    expects = (expecting-awaits sync e, tt);
  },
)

-- A state joins waiters that it does not meet.
join-IsChannel :
    (sync : ChannelSync) (w : Waiter) (ws : List Waiter) (e : Endpoint) (c : Ptr)
    → IsChannel sync (w ∷ ws)
    → opposite w.endpoint e ≡ false
    → IsChannel
        (record sync { queue = sync.queue ++ c ∷ [] })
        (w ∷ ws ++ record { state = c; endpoint = e } ∷ [])
join-IsChannel sync w ws e c v h = record {
  queued =
      ap (λ (q : List Ptr). q ++ c ∷ []) v.queued
      ∙ sym (states-append (w ∷ ws) (record { state = c; endpoint = e }));
  expects = (v.expects.0, Alike-append w.endpoint e ws c v.expects.1 h);
}

enqueue-Follows :
    (sync : ChannelSync) (w : Waiter) (ws : List Waiter) (e : Endpoint) (l : Ptr)
    (g : Option (Option Ptr))
    → IsChannel sync (w ∷ ws)
    → opposite w.endpoint e ≡ false
    → Follows (w ∷ ws) e (waiting_state g l) (enqueue sync g l)
enqueue-Follows sync w ws e l none v h = ((h, refl, refl), join-IsChannel sync w ws e l v h)
enqueue-Follows sync w ws e l (some none) v h = ((h, refl, refl), v)
enqueue-Follows sync w ws e l (some (some c)) v h =
    ((h, refl, refl), join-IsChannel sync w ws e c v h)

module _ (sync : ChannelSync) (w : Waiter) (ws : List Waiter) (e : Endpoint) (l : Ptr)
    (g : Option (Option Ptr)) (v : IsChannel sync (w ∷ ws)) where
  test : (bit_and sync.expected (bits e) == 0) ≡ not (opposite w.endpoint e)
  test = ap (λ x. bit_and x (bits e) == 0) v.expects.0 ∙ meets_test w.endpoint e

  match_in-meets :
      (opposite w.endpoint e) ≡ true
      → match_in sync (states (w ∷ ws)) e l g ≡ (matched w.state, record sync { queue = states ws })
  unfolding match_in
  match_in-meets h =
      let passed : (bit_and sync.expected (bits e) == 0) ≡ false = test ∙ ap not h in rw passed

  match_in-joins :
      (opposite w.endpoint e) ≡ false → match_in sync (states (w ∷ ws)) e l g ≡ enqueue sync g l
  unfolding match_in
  match_in-joins h =
      let passed : (bit_and sync.expected (bits e) == 0) ≡ true = test ∙ ap not h in rw passed

  match_in-Follows : Follows (w ∷ ws) e (waiting_state g l) (match_in sync (states (w ∷ ws)) e l g)
  match_in-Follows = elim (Bool-cases (opposite w.endpoint e)) [
    | inl h ↦ subst (Follows (w ∷ ws) e (waiting_state g l)) (sym (match_in-meets h)) (
      (w, refl, refl, h),
      record {
        queued = refl;
        expects =
            subst (λ x. Expected x ws) (sym v.expects.0) (Alike-Expected w.endpoint ws v.expects.1);
      },
    )
    | inr h ↦
        subst (Follows (w ∷ ws) e (waiting_state g l)) (sym (match_in-joins h))
          (enqueue-Follows sync w ws e l g v h)
  ]

match_in-all :
    (sync : ChannelSync) (ws : List Waiter) (e : Endpoint) (l : Ptr) (g : Option (Option Ptr))
    → IsChannel sync ws
    → Follows ws e (waiting_state g l) (match_in sync (states ws) e l g)
match_in-all sync [] e l g v = match_in-nil sync e l g v
match_in-all sync (w ∷ ws) e l g v = match_in-Follows sync w ws e l g v

-- On a channel whose queue and `expected` fit its waiters, `lcuCS_matchchsync` follows the rule of the
-- rendezvous: the caller goes with the waiter that came first if their endpoints are opposite; else
-- it waits behind all others, or the state that `getstate` gives does, unless that is NULL. Behind
-- the call the queue and `expected` fit the waiters again, so no two waiters ever have opposite
-- endpoints.
pub matchchsync-Rule :
    (sync : ChannelSync) (ws : List Waiter) (e : Endpoint) (l : Ptr) (g : Option (Option Ptr))
    → IsChannel sync ws
    → (ws' : List Waiter) × Rule ws e (waiting_state g l) (matchchsync sync e l g).0 ws'
      × IsChannel (matchchsync sync e l g).1 ws'
unfolding matchchsync
matchchsync-Rule sync ws e l g v =
    let r =
      subst (λ q. Follows ws e (waiting_state g l) (match_in sync q e l g)) (sym v.queued)
        (match_in-all sync ws e l g v) in
    (after ws e (matchchsync sync e l g).0, r.0, r.1)
