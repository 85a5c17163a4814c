-- ===== src/Listen/Counts.antt =====
-- The flags of a passive socket count the connections that wait to be accepted (src/lcommunf.c).
use coutil.Prelude.{
  ℕ, ◌+◌, ◌-◌, ◌*◌, ◌≡◌, ◌≤◌, ◌<◌, Bool, true, false, ◌&&◌, ◌||◌, not, Option, none, some, arith,
  ltb, if◌then◌else◌, refl, ap, ◌∙◌, Bool-cases, inl, inr,
}
use coutil.Prelude.Int.{ℤ, pos, negsuc}
use coutil.Object.{
  stopudhdl, resetudhdlk, k_endudhdlk_halted, resumeudhdl, resumeudhdl_end, scheduleudhdlk,
  k_endudhdlk_resumed,
}
use coutil.Object.Stops.{IsBalanced}
use coutil.Listen.{
  Passive, islisteningconn, passive_listen, k_acceptstream, listen_accept, onconnection,
  onconnection_end, haltlisten, resetlisten, picklistenedconn,
}

-- `n` counts the active operations of others, and `low` is the flags of the handle.
pub record IsCounted (n low : ℕ) (p : Passive) : Type 0 where
  pub balanced : IsBalanced n p.udhdl
  pub is_open : p.udhdl.handle_closed ≡ false
  pub small : low < 4
  pub counts : p.flags ≡ low + (if islisteningconn p then 4 * (p.announced + 1) else 0)
  pub quiet : islisteningconn p ≡ false → (p.udhdl.started ≡ false) × (p.announced ≡ 0)
  pub referred : islisteningconn p ≡ true → p.ref ≡ p.udhdl.started
  pub none_left : p.udhdl.waiting ≡ true → p.announced ≡ 0

pub data Event : Type 0 where
  listen : (backlog : ℤ) → (err : Option ℕ) → Event
  accept : (newaccept : Option ℕ) → Event
  connection : (status newaccept : Option ℕ) → Event  -- `status` is the error, if any
  return : Event  -- the resumed coroutine returns to the callback
  halt : Event  -- another coroutine resumes the one that waits

abbrev pub is_none : Option ℕ → Bool
is_none none = true
is_none (some _) = false

-- The loop enters no callback inside another one. Two cases of the code are left out: an error that
-- is announced while no coroutine waits, for which see Accepts, and a halt inside the callback that
-- resumed the coroutine, after which the assertion of `resumeudhdl` can fail.
abbrev pub can_happen : Event → Passive → Bool
can_happen (listen backlog err) p = true
can_happen (accept newaccept) p = true
can_happen (connection status newaccept) p =
    islisteningconn p && not p.udhdl.in_callback && (is_none status || p.udhdl.waiting)
can_happen return p = p.udhdl.in_callback
can_happen halt p = p.udhdl.waiting && not p.udhdl.in_callback

abbrev pub second {ℓ} : {A : Type ℓ} → Option (A × Passive) → Option Passive
second none = none
second (some r) = some r.1

-- libuv announces a connection.
abbrev pub announce : Option ℕ → Passive → Passive
announce (some err) p = p
announce none p = record p { announced = p.announced + 1 }

module _ (uv_accept : ℕ → Option ℕ) where
  unfoldable pub happen : Event → Passive → Option Passive
  happen (listen backlog err) p = some (passive_listen backlog err p).1
  happen (accept newaccept) p = second (listen_accept uv_accept newaccept p)
  happen (connection status newaccept) p =
      second (onconnection uv_accept status newaccept (announce status p))
  happen return p = onconnection_end p
  happen halt p = haltlisten p

  -- As libuv documents it, `uv_accept` succeeds as often as connections are announced.
  module _ (accepts : (n : ℕ) → uv_accept (n + 1) ≡ none) (n low : ℕ) where
    abbrev Counted : Option Passive → Type 0
    Counted none = ⊥
    Counted (some p) = IsCounted n low p

    listen-Counted :
        (backlog : ℤ) (err : Option ℕ) (p : Passive)
        → IsCounted n low p
        → Counted (some (passive_listen backlog err p).1)
    unfolding passive_listen
    listen-Counted (negsuc k) err p v = v
    listen-Counted (pos backlog) (some e) p v = ground arith
    listen-Counted (pos backlog) none p v = ground arith

    -- Behind a connection that is picked.
    k_acceptstream-Counted :
        (newaccept : Option ℕ) (p : Passive)
        → IsCounted n low p
        → 8 ≤ p.flags
        → IsCounted n low
            (k_acceptstream uv_accept none newaccept (record p { flags = p.flags - 4 })).1
    unfolding k_acceptstream
    k_acceptstream-Counted (some e) p v h = ground arith
    k_acceptstream-Counted none p v h =
        let some_ : (1 ≤ p.announced) = ground arith in
        let ok : uv_accept p.announced ≡ none =
          ap uv_accept (omega (arith, some_)) ∙ accepts (p.announced - 1) in
        ground arith

    resetlisten-Counted :
        (p : Passive)
        → IsCounted n low p
        → islisteningconn p ≡ true
        → p.announced ≡ 0
        → Counted (second (resetlisten uv_accept p))
    unfolding resetlisten resetudhdlk scheduleudhdlk
    resetlisten-Counted p v l a = ground arith

    accept-Counted :
        (newaccept : Option ℕ) (p : Passive)
        → IsCounted n low p
        → Counted (second (listen_accept uv_accept newaccept p))
    unfolding listen_accept picklistenedconn
    accept-Counted newaccept p v = elim (Bool-cases (islisteningconn p)) [
      | inr l ↦ simp (listen_accept, l) v
      | inl l ↦ elim (Bool-cases (ltb p.flags 8)) [
        | inl f ↦
            simp (listen_accept, l, picklistenedconn, f) (resetlisten-Counted p v l (ground arith))
        | inr f ↦
            simp (listen_accept, l, picklistenedconn, f)
              (k_acceptstream-Counted newaccept p v (ground arith))
      ]
    ]

    connection-Counted :
        (status newaccept : Option ℕ) (p : Passive)
        → IsCounted n low p
        → can_happen (connection status newaccept) p ≡ true
        → Counted (second (onconnection uv_accept status newaccept (announce status p)))
    unfolding onconnection k_acceptstream resumeudhdl k_endudhdlk_resumed
    connection-Counted (some e) newaccept p v h = ground arith
    connection-Counted none (some e) p v h = ground arith
    connection-Counted none none p v h = let ok = accepts 0 in ground arith

    return-Counted :
        (p : Passive)
        → IsCounted n low p
        → p.udhdl.in_callback ≡ true
        → Counted (onconnection_end p)
    unfolding onconnection_end resumeudhdl_end stopudhdl
    return-Counted p v h = ground arith

    halt-Counted :
        (p : Passive) → IsCounted n low p → can_happen halt p ≡ true → Counted (haltlisten p)
    unfolding haltlisten k_endudhdlk_halted stopudhdl
    halt-Counted p v h = ground arith

    happen-Counted :
        (e : Event) (p : Passive) → IsCounted n low p → can_happen e p ≡ true → Counted (happen e p)
    unfolding happen
    happen-Counted (listen backlog err) p v h = listen-Counted backlog err p v
    happen-Counted (accept newaccept) p v h = accept-Counted newaccept p v
    happen-Counted (connection status newaccept) p v h = connection-Counted status newaccept p v h
    happen-Counted return p v h = return-Counted p v h
    happen-Counted halt p v h = halt-Counted p v h

    found : (o : Option Passive) → Counted o → (p : Passive) × (o ≡ some p) × IsCounted n low p
    found none v = elim v [ ]
    found (some p) v = (p, refl, v)

    -- No event of an open passive socket fails an assertion, unless libuv announces an error while no
    -- coroutine waits, or the coroutine that waits is halted inside the callback that resumes it, and
    -- closing the socket is no event here. Behind the event again: the flags above those of the handle are one unit for
    -- listening and one for each connection that is announced and not accepted, a coroutine waits only
    -- if there is none, and libuv counts the socket as a reason to go on exactly while it is started
    -- to accept.
    pub happen-IsCounted :
        (e : Event) (p : Passive)
        → IsCounted n low p
        → can_happen e p ≡ true
        → (p' : Passive) × (happen e p ≡ some p') × IsCounted n low p'
    happen-IsCounted e p v h = found (happen e p) (happen-Counted e p v h)
