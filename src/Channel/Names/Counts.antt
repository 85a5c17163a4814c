-- ===== src/Channel/Names/Counts.antt =====
-- The reference counts of the channels of src/lchaux.c: no channel is freed while it is in use, and
-- none is kept that is not.
use Prim.Native.String.{String}
use text.Mathlib.Text.{◌==◌ as str_eq}
use mathlib.Core.Path.{subst}
use coutil.Prelude.{
  ap, ℕ, ◌+◌, ◌-◌, ltb, ◌≡◌, refl, Bool, true, false, ◌&&◌, Option, none, some, List, [], ◌∷◌, ◌==◌,
  if◌then◌else◌, arith, Bool-cases, inl, inr,
}
use coutil.StateQ.{Ptr}
use coutil.Channel.{Endpoint, ChannelSync, matchchsync, match_in}
use coutil.Channel.Names.{ChannelMap, setglobal, emptystates, getchsync, freechsync}

-- Who uses a channel: how often it is held, since a `LuaChannel` holds its channel, and so does a thread
-- of a pool while it puts a task on it, and the states that wait on it.
pub record Held : Type 0 where
  pub holders : ℕ
  pub states : List Ptr

abbrev pub Holders : Type 0
Holders = String → Held

abbrev pub unheld : Held
unheld = record { holders = 0; states = [] }

abbrev pub held : Holders → String → Held → Holders
held hs name h k = if str_eq k name then h else hs k

abbrev pub more : Held → Held
more h = record h { holders = h.holders + 1 }

abbrev pub less : Held → Held
less h = record h { holders = h.holders - 1 }

abbrev pub waits : List Ptr → Held → Held
waits queue h = record h { states = queue }

-- A name of the map has a channel that counts its holders and has the states that wait on it, and
-- there are some of one or the other; a name that the map has not is neither held nor waited on.
abbrev pub Counted : Held → Option ChannelSync → Type 0
Counted h none = (h.holders ≡ 0) × (h.states ≡ [])
Counted h (some sync) =
    (sync.refcount ≡ h.holders)
    × (sync.queue ≡ h.states)
    × (((h.holders == 0) && emptystates h.states) ≡ false)

abbrev pub IsCounted : Holders → ChannelMap → Type 0
IsCounted hs map = (k : String) → Counted (hs k) (map k)

-- The states that wait where one of them has stopped to.
abbrev pub without : Ptr → List Ptr → List Ptr
without l [] = []
without l (w ∷ ws) = if w == l then ws else w ∷ without l ws

-- What is done with channels: they are got, freed by a holder, and used by one that matches an
-- endpoint or takes back a state that waits.
pub data Use : Holders → ChannelMap → Type 0 where
  unused : Use (λ k. unheld) (λ k. none)
  got :
      {hs : Holders} {map map' : ChannelMap} (allocated : Bool) (name : String)
      → Use hs map
      → getchsync allocated map name ≡ (true, map')
      → Use (held hs name (more (hs name))) map'
  refused :
      {hs : Holders} {map map' : ChannelMap} (allocated : Bool) (name : String)
      → Use hs map
      → getchsync allocated map name ≡ (false, map')
      → Use hs map'
  freed :
      {hs : Holders} {map : ChannelMap} (name : String)
      → Use hs map
      → ltb 0 (hs name).holders ≡ true
      → Use (held hs name (less (hs name))) (freechsync map name)
  used :
      {hs : Holders} {map : ChannelMap} (name : String) (sync : ChannelSync) (endpoint : Endpoint)
      (l : Ptr) (getstate : Option (Option Ptr))
      → Use hs map
      → ltb 0 (hs name).holders ≡ true
      → map name ≡ some sync
      → Use
          (held hs name (waits (matchchsync sync endpoint l getstate).1.queue (hs name)))
          (setglobal map name (some (matchchsync sync endpoint l getstate).1))
  canceled :
      {hs : Holders} {map : ChannelMap} (name : String) (sync : ChannelSync) (l : Ptr)
      → Use hs map
      → ltb 0 (hs name).holders ≡ true
      → map name ≡ some sync
      → Use
          (held hs name (waits (without l (hs name).states) (hs name)))
          (setglobal map name (some (record sync { queue = without l sync.queue })))

-- A name is set, and its holders are counted again.
held-setglobal :
    (hs : Holders) (map : ChannelMap) (name : String) (h : Held) (o : Option ChannelSync)
    → IsCounted hs map
    → Counted h o
    → IsCounted (held hs name h) (setglobal map name o)
held-setglobal hs map name h o v c k = elim (Bool-cases (str_eq k name)) [
  | inl e ↦ rw e c
  | inr e ↦ rw e (v k)
]

Counted_some :
    (h : Held) (o : Option ChannelSync) (sync : ChannelSync)
    → o ≡ some sync
    → Counted h o
    → Counted h (some sync)
Counted_some h o sync e c = subst (Counted h) e c

-- `lcuCS_matchchsync` does not touch the count.
match_in-refcount :
    (sync : ChannelSync) (e : Endpoint) (l : Ptr) (g : Option (Option Ptr)) (q : List Ptr)
    → (match_in sync q e l g).1.refcount ≡ sync.refcount
unfolding match_in
match_in-refcount sync e l none [] = refl
match_in-refcount sync e l (some none) [] = refl
match_in-refcount sync e l (some (some c)) [] = refl
match_in-refcount sync e l none (w ∷ ws) = ground arith
match_in-refcount sync e l (some none) (w ∷ ws) = ground arith
match_in-refcount sync e l (some (some c)) (w ∷ ws) = ground arith

Counted-used :
    (h : Held) (sync sync' : ChannelSync)
    → sync'.refcount ≡ sync.refcount
    → ltb 0 h.holders ≡ true
    → Counted h (some sync)
    → Counted (waits sync'.queue h) (some sync')
Counted-used h sync sync' e p c = ground arith

got-IsCounted :
    (hs : Holders) (map : ChannelMap) (allocated : Bool) (name : String) (o : Option ChannelSync)
    → map name ≡ o
    → IsCounted hs map
    → IsCounted
        (if (getchsync allocated map name).0 then held hs name (more (hs name)) else hs)
        (getchsync allocated map name).1
unfolding getchsync
got-IsCounted hs map allocated name (some sync) e v =
    let c = Counted_some (hs name) (map name) sync e (v name) in
    rw (getchsync, e)
      (held-setglobal hs map name (more (hs name))
        (some (record sync { refcount = sync.refcount + 1 })) v (ground arith))
got-IsCounted hs map true name none e v =
    let c : Counted (hs name) none = subst (Counted (hs name)) e (v name) in
    rw (getchsync, e)
      (held-setglobal hs map name (more (hs name))
        (some (record { refcount = 1; expected = 0; queue = [] })) v (ground arith))
got-IsCounted hs map false name none e v = rw (getchsync, e) v

freed-IsCounted :
    (hs : Holders) (map : ChannelMap) (name : String) (o : Option ChannelSync)
    → map name ≡ o
    → ltb 0 (hs name).holders ≡ true
    → IsCounted hs map
    → IsCounted (held hs name (less (hs name))) (freechsync map name)
unfolding freechsync
freed-IsCounted hs map name none e p v =
    let c : Counted (hs name) none = subst (Counted (hs name)) e (v name) in ground arith
freed-IsCounted hs map name (some sync) e p v =
    let c = Counted_some (hs name) (map name) sync e (v name) in
    let sync' = record sync { refcount = sync.refcount - 1 } in
    elim (Bool-cases ((sync'.refcount == 0) && emptystates sync.queue)) [
      | inl f ↦
          rw (freechsync, e, f) (held-setglobal hs map name (less (hs name)) none v (ground arith))
      | inr f ↦
          rw (freechsync, e, f)
            (held-setglobal hs map name (less (hs name)) (some sync') v (ground arith))
    ]

used-IsCounted :
    (hs : Holders) (map : ChannelMap) (name : String) (sync : ChannelSync) (endpoint : Endpoint)
    (l : Ptr) (getstate : Option (Option Ptr))
    → ltb 0 (hs name).holders ≡ true
    → map name ≡ some sync
    → IsCounted hs map
    → IsCounted
        (held hs name (waits (matchchsync sync endpoint l getstate).1.queue (hs name)))
        (setglobal map name (some (matchchsync sync endpoint l getstate).1))
unfolding matchchsync
used-IsCounted hs map name sync endpoint l getstate p e v =
    let c = Counted_some (hs name) (map name) sync e (v name) in
    let sync' = (matchchsync sync endpoint l getstate).1 in
    held-setglobal hs map name (waits sync'.queue (hs name)) (some sync') v (
      Counted-used (hs name) sync sync' (match_in-refcount sync endpoint l getstate sync.queue) p c)

canceled-IsCounted :
    (hs : Holders) (map : ChannelMap) (name : String) (sync : ChannelSync) (l : Ptr)
    → ltb 0 (hs name).holders ≡ true
    → map name ≡ some sync
    → IsCounted hs map
    → IsCounted
        (held hs name (waits (without l (hs name).states) (hs name)))
        (setglobal map name (some (record sync { queue = without l sync.queue })))
canceled-IsCounted hs map name sync l p e v =
    let (count, queue, kept) = Counted_some (hs name) (map name) sync e (v name) in
    held-setglobal hs map name (waits (without l (hs name).states) (hs name))
      (some (record sync { queue = without l sync.queue })) v
      (count, ap (without l) queue, ground (arith, p))

-- However channels are got, freed and used by those who hold them: a name has a channel in the map
-- exactly if it is held or states wait on it, and this channel counts its holders and has the states
-- that wait, in their order. So no channel is freed that is held or on which states wait, and none is
-- kept that is not.
pub Use-IsCounted : {hs : Holders} {map : ChannelMap} → Use hs map → IsCounted hs map
Use-IsCounted unused = λ k. (refl, refl)
Use-IsCounted (got {hs} {map} {map'} allocated name u h) =
    subst (λ r. IsCounted (if r.0 then held hs name (more (hs name)) else hs) r.1) h
      (got-IsCounted hs map allocated name (map name) refl (Use-IsCounted u))
Use-IsCounted (refused {hs} {map} {map'} allocated name u h) =
    subst (λ r. IsCounted (if r.0 then held hs name (more (hs name)) else hs) r.1) h
      (got-IsCounted hs map allocated name (map name) refl (Use-IsCounted u))
Use-IsCounted (freed {hs} {map} name u p) =
    freed-IsCounted hs map name (map name) refl p (Use-IsCounted u)
Use-IsCounted (used {hs} {map} name sync endpoint l getstate u p e) =
    used-IsCounted hs map name sync endpoint l getstate p e (Use-IsCounted u)
Use-IsCounted (canceled {hs} {map} name sync l u p e) =
    canceled-IsCounted hs map name sync l p e (Use-IsCounted u)
