-- ===== src/Listen/Accepts.antt =====
-- What a call that accepts connections gets (src/lcommunf.c).
use coutil.Prelude.{
  ℕ, ◌+◌, ◌-◌, ◌*◌, ◌≡◌, ◌≤◌, true, false, ◌==◌, Option, none, some, arith, ltb, if◌then◌else◌,
  refl, sym, ap, ◌∙◌, Bool-cases, inl, inr,
}
use coutil.Object.{resetudhdlk, scheduleudhdlk}
use coutil.Listen.{
  Passive, Result, stream, failed, suspended, islisteningconn, k_acceptstream, listen_accept,
  onconnection, resetlisten, picklistenedconn, addlistenedconn,
}
use coutil.Listen.Counts.{IsCounted}

module _ (uv_accept : ℕ → Option ℕ) where
  -- What a call returns: it waits if no connection is there, and else gets the new socket, or the error
  -- of its creation.
  abbrev pub given : (newaccept : Option ℕ) → (announced : ℕ) → Result
  given newaccept announced =
      if announced == 0 then suspended else elim newaccept [ none ↦ stream | some err ↦ failed err ]

  abbrev pub left : (newaccept : Option ℕ) → (announced : ℕ) → ℕ
  left newaccept announced = elim newaccept [ none ↦ announced - 1 | some err ↦ announced ]

  -- A coroutine waits.
  abbrev suspended_in : Passive → Passive
  suspended_in p = record p {
    ref = true;
    udhdl = record (p.udhdl) {
      waiting = true;
      started = true;
      saved = true;
      nactive = p.udhdl.nactive + (if p.udhdl.started then 0 else 1);
    };
  }

  listen_accept-suspended :
      (n low : ℕ) (newaccept : Option ℕ) (p : Passive)
      → IsCounted n low p
      → islisteningconn p ≡ true
      → p.udhdl.waiting ≡ false
      → p.announced ≡ 0
      → listen_accept uv_accept newaccept p ≡ some (suspended, suspended_in p)
  unfolding listen_accept picklistenedconn resetlisten resetudhdlk scheduleudhdlk
  listen_accept-suspended n low newaccept p v l w a =
      let few : ltb p.flags 8 ≡ true = ground arith in
      simp (listen_accept, l, picklistenedconn, few) (ground arith)

  listen_accept-picked :
      (accepts : (n : ℕ) → uv_accept (n + 1) ≡ none)
      → (n low : ℕ) (newaccept : Option ℕ) (p : Passive) → IsCounted n low p
      → islisteningconn p ≡ true
      → 1 ≤ p.announced
      → listen_accept uv_accept newaccept p
        ≡ some (elim newaccept [
          | none ↦ (stream, record p { flags = p.flags - 4; announced = p.announced - 1 })
          | some err ↦ (failed err, p)
        ])
  unfolding listen_accept picklistenedconn k_acceptstream
  listen_accept-picked accepts n low none p v l a =
      let many : ltb p.flags 8 ≡ false = ground arith in
      let ok : uv_accept p.announced ≡ none =
        ap uv_accept (omega (arith, a)) ∙ accepts (p.announced - 1) in
      simp (listen_accept, l, picklistenedconn, many, k_acceptstream, ok) refl
  listen_accept-picked accepts n low (some err) p v l a =
      let many : ltb p.flags 8 ≡ false = ground arith in
      let back : p.flags - 4 + 4 ≡ p.flags = ground arith in
      simp (listen_accept, l, picklistenedconn, many, k_acceptstream, back) refl

  left-zero : (newaccept : Option ℕ) (k : ℕ) → k ≡ 0 → k ≡ left newaccept k
  left-zero none k e = omega (arith, e)
  left-zero (some err) k e = refl

  -- If no coroutine waits for a listening socket, a call to accept waits exactly if no connection is
  -- announced. Else it gets the new socket and one connection less is left, or the error of the
  -- creation of that, and the connection is left for the next call: the flags that this reads count
  -- what is left.
  pub listen_accept-given :
      (accepts : (n : ℕ) → uv_accept (n + 1) ≡ none)
      → (n low : ℕ) (newaccept : Option ℕ) (p : Passive) → IsCounted n low p
      → islisteningconn p ≡ true
      → p.udhdl.waiting ≡ false
      → (p' : Passive) × (listen_accept uv_accept newaccept p
          ≡ some (given newaccept p.announced, p'))
        × (p'.announced ≡ left newaccept p.announced)
        × (p'.flags ≡ low + 4 * (p'.announced + 1))
        × (p'.udhdl.waiting ≡ (p.announced == 0))
  unfolding listen_accept picklistenedconn k_acceptstream
  listen_accept-given accepts n low newaccept p v l w = elim (Bool-cases (p.announced == 0)) [
    | inl a ↦
        let zero_ : p.announced ≡ 0 = ground arith in
        (
          suspended_in p,
          simp a (listen_accept-suspended n low newaccept p v l w zero_),
          left-zero newaccept p.announced zero_,
          ground arith,
          sym a,
        )
    | inr a ↦ picked newaccept a
  ]
    where
      picked :
          (newaccept : Option ℕ)
          → (p.announced == 0) ≡ false
          → (p' : Passive) × (listen_accept uv_accept newaccept p
              ≡ some (given newaccept p.announced, p'))
            × (p'.announced ≡ left newaccept p.announced)
            × (p'.flags ≡ low + 4 * (p'.announced + 1))
            × (p'.udhdl.waiting ≡ (p.announced == 0))
      picked none a =
          let one : 1 ≤ p.announced = ground arith in
          (
            record p { flags = p.flags - 4; announced = p.announced - 1 },
            simp a (listen_accept-picked accepts n low none p v l one),
            refl,
            ground arith,
            w ∙ sym a,
          )
      picked (some err) a =
          let one : 1 ≤ p.announced = ground arith in
          (
            p,
            simp a (listen_accept-picked accepts n low (some err) p v l one),
            refl,
            ground arith,
            w ∙ sym a,
          )

  -- An error that libuv announces while no coroutine waits is counted as a connection: if no other one
  -- is announced, the next call to accept does not wait, and returns the error of `uv_accept` that no
  -- connection is there, in place of the one that was announced.
  pub error_announced :
      (n low err again : ℕ) (p : Passive)
      → IsCounted n low p
      → islisteningconn p ≡ true
      → p.udhdl.waiting ≡ false
      → p.announced ≡ 0
      → uv_accept 0 ≡ some again
      → (p' : Passive) × (onconnection uv_accept (some err) none p ≡ some (none, p'))
        × (listen_accept uv_accept none p' ≡ some (failed again, p))
  unfolding onconnection listen_accept picklistenedconn k_acceptstream
  error_announced n low err again p v l w a u =
      let listens : islisteningconn (addlistenedconn p) ≡ true = ground arith in
      let many : ltb (p.flags + 4) 8 ≡ false = ground arith in
      let back : p.flags + 4 - 4 ≡ p.flags = omega arith in
      (
        addlistenedconn p,
        ground arith,
        simp (listen_accept, listens, picklistenedconn, many, back, k_acceptstream, a, u)
            (ap (λ k. some (failed again, record p { announced = k })) (sym a)),
      )
