-- ===== src/Request/Runs.antt =====
-- What holds of the request of an object in every run, and the one assertion that fails
-- (src/loperaux.c).
use mathlib.Core.Path.{subst}
use coutil.Prelude.{ℕ, ◌+◌, ◌≡◌, ◌↔◌, refl, Bool, true, false, ◌&&◌, not, Option, none, some, arith}
use coutil.Request.{
  unknown, is_unknown, is_type_max, is_active, Continuation, nowhere, k_endudreq, k_resetudreqk,
  is_waiting, UdataRequest, resetudreqk, haltudreq, endudreq, resumeudreq_end,
}

pub data Event : Type 0 where
  call : (waits : Bool) → Event  -- a coroutine calls the operation of the object
  halt : Event  -- the coroutine that waits is resumed by another one
  complete : (waits : Bool) → Event  -- libuv ends the request
  return : Event  -- the resumed coroutine returns to the callback

abbrev pub can_happen : Event → UdataRequest → Bool
can_happen (call waits) r = true
can_happen halt r = is_waiting r.data_
can_happen (complete waits) r = is_active r.type && not r.in_callback
can_happen return r = r.in_callback

unfoldable pub happen : Event → UdataRequest → Option UdataRequest
happen (call waits) r = resetudreqk waits r
happen halt r = some (haltudreq r)
happen (complete waits) r = endudreq waits r
happen return r = resumeudreq_end r

abbrev pub one_if : Bool → ℕ
one_if true = 1
one_if false = 0

-- `n` counts the active operations of other objects.
pub record IsRequest (n : ℕ) (r : UdataRequest) : Type 0 where
  pub counted : r.nactive ≡ n + one_if (is_active r.type)
  pub saved : r.saved ≡ not (is_unknown r.type)
  pub waiting : is_waiting r.data_ ≡ true → is_active r.type ≡ true
  pub ending : is_type_max r.type ≡ true → r.in_callback ≡ true

abbrev pub is_reset : Continuation → Bool
is_reset nowhere = false
is_reset k_endudreq = false
is_reset k_resetudreqk = true

-- The assertion that fails.
abbrev pub ends_in_reset : Event → UdataRequest → Bool
ends_in_reset (call waits) r = false
ends_in_reset halt r = false
ends_in_reset (complete waits) r = is_reset r.data_
ends_in_reset return r = false

abbrev pub is_none : Option UdataRequest → Bool
is_none none = true
is_none (some _) = false

abbrev pub result : Option UdataRequest → UdataRequest → UdataRequest
result none r = r
result (some r') r = r'

abbrev Next : ℕ → Event → UdataRequest → Type 0
Next n e r = IsRequest n (result (happen e r) r) × (is_none (happen e r) ≡ ends_in_reset e r)

complete-Next :
    (n : ℕ) (r : UdataRequest) (waits : Bool) (c : Continuation)
    → r.data_ ≡ c
    → IsRequest n r
    → can_happen (complete waits) r ≡ true
    → Next n (complete waits) r
unfolding happen endudreq
complete-Next n r waits nowhere e v h = ground arith
complete-Next n r waits k_endudreq e v h = ground arith
complete-Next n r waits k_resetudreqk e v h = ground arith

happen-Next :
    (n : ℕ) (r : UdataRequest) (e : Event) → IsRequest n r → can_happen e r ≡ true → Next n e r
unfolding happen resetudreqk haltudreq resumeudreq_end
happen-Next n r (call waits) v h = ground arith
happen-Next n r halt v h = ground arith
happen-Next n r (complete waits) v h = complete-Next n r waits r.data_ refl v h
happen-Next n r return v h = ground arith

-- A run of an object's request, which is created with no coroutine.
pub data Run (n : ℕ) : UdataRequest → Type 0 where
  created :
      Run n (record {
        type = unknown;
        data_ = nowhere;
        saved = false;
        nactive = n;
        in_callback = false;
      })
  happens :
      {r r' : UdataRequest} (e : Event)
      → Run n r
      → can_happen e r ≡ true
      → happen e r ≡ some r'
      → Run n r'

-- In every run: the scheduler counts the request exactly while libuv has it; the object is in the Lua
-- registry exactly while the request has a type, so it is not collected before libuv ends it; a
-- coroutine waits only for a request that libuv has; and a request that was ended is freed when its
-- callback returns.
pub Run-IsRequest : {n : ℕ} {r : UdataRequest} → Run n r → IsRequest n r
Run-IsRequest created = ground arith
Run-IsRequest {n} (happens {r} {r'} e u can h) =
    subst (λ o. IsRequest n (result o r)) h (happen-Next n r e (Run-IsRequest u) can).0

none_iff : (o : Option UdataRequest) (b : Bool) → is_none o ≡ b → (o ≡ none) ↔ (b ≡ true)
none_iff none b h = (λ x. cc, λ x. refl)
none_iff (some r) b h = (λ x. cc, λ x. cc)

-- In every run one assertion fails, and only that: when libuv ends a request that a coroutine has
-- found in use and waits for in `k_resetudreqk`. All other calls return a state.
pub happen-none_iff :
    {n : ℕ} {r : UdataRequest}
    → Run n r
    → (e : Event) → can_happen e r ≡ true
    → (happen e r ≡ none) ↔ (ends_in_reset e r ≡ true)
happen-none_iff {n} {r} u e can =
    none_iff (happen e r) (ends_in_reset e r) (happen-Next n r e (Run-IsRequest u) can).1
