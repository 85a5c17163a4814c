-- ===== src/Channel/Names/Whole.antt =====
-- The map of channels as a whole (src/lchaux.c, src/lchannem.c): its creation, the names that it has,
-- and its end. `keys` are the names in the order in which `lua_next` gives them.
use Prim.Native.String.{String}
use text.Mathlib.TextEquality.{eq_iff}
use text.Mathlib.Text.{◌==◌ as str_eq}
use coutil.Prelude.{
  append_assoc, ◌≡◌, ◌∙◌, sym, ap, refl, Bool, true, false, ◌||◌, Option, none, some, List, [], ◌∷◌,
  ◌++◌, if◌then◌else◌, Bool-cases, inl, inr,
}
use coutil.StateQ.{Ptr}
use coutil.Channel.{ChannelSync}
use coutil.Channel.Names.{ChannelMap, emptystates}

-- `lcuCS_tochannelmap` where the registry has no map: whether it returns one. The second component is
-- what its finalizer finds, if it is called: none for no state and a mutex that is not initialised.
unfoldable pub tochannelmap : (newstate : Bool) → Bool × Option ChannelMap
tochannelmap newstate = if newstate then (true, some (λ k. none)) else (false, none)

-- A table of Lua with booleans by names.
abbrev pub Table : Type 0
Table = String → Option Bool

abbrev pub setfield : Table → String → Option Bool → Table
setfield t name v k = if str_eq k name then v else t k

abbrev pub in_map : ChannelMap → String → Option Bool
in_map map name = elim (map name) [ none ↦ none | some sync ↦ some true ]

-- The loop of `channel_getnames` over the keys of the table, or of the map.
unfoldable pub getnames : ChannelMap → (keys : List String) → Table → Table
getnames map [] t = t
getnames map (name ∷ keys) t = getnames map keys (setfield t name (in_map map name))

-- The loop of `channelmap_gc` over the channels: the states that wait, which it closes behind that in
-- this order, and the channels that are left.
unfoldable pub collect_states : List ChannelSync → List Ptr → List Ptr × List ChannelSync
collect_states [] queue = (queue, [])
collect_states (sync ∷ rest) queue =
    let (queue', left) =
      collect_states rest (if emptystates sync.queue then queue else queue ++ sync.queue) in
    (queue', record sync { queue = [] } ∷ left)

unfoldable pub channelmap_gc : List ChannelSync → List Ptr × List ChannelSync
unfolding collect_states
channelmap_gc syncs = collect_states syncs []

abbrev listed : String → List String → Bool
listed name [] = false
listed name (k ∷ keys) = str_eq name k || listed name keys

-- Behind `channel.getnames` a name that was among the keys has `true` if the map has a channel of the
-- name and nil if not, and every other name has the value that it had.
getnames-listed :
    (map : ChannelMap) (keys : List String) (t : Table) (name : String)
    → getnames map keys t name ≡ (if listed name keys then in_map map name else t name)
unfolding getnames
getnames-listed map [] t name = refl
getnames-listed map (k ∷ keys) t name =
    getnames-listed map keys (setfield t k (in_map map k)) name
    ∙ elim (Bool-cases (str_eq name k)) [
      | inr e ↦ simp e refl
      | inl e ↦ simp e (
          ap (λ n. if listed name keys then in_map map name else in_map map n)
            (sym ((eq_iff name k).0 e))
          ∙ either (listed name keys) (in_map map name))
    ]
  where
    either : (b : Bool) (v : Option Bool) → (if b then v else v) ≡ v
    either true v = refl
    either false v = refl

-- All states that wait on channels.
abbrev waiting : List ChannelSync → List Ptr
waiting [] = []
waiting (sync ∷ rest) = sync.queue ++ waiting rest

append_none : (q : List Ptr) → q ++ [] ≡ q
append_none [] = refl
append_none (p ∷ q) = ap (λ (s : List Ptr). p ∷ s) (append_none q)

appended :
    (queue states : List Ptr)
    → (if emptystates states then queue else queue ++ states) ≡ queue ++ states
appended queue [] = sym (append_none queue)
appended queue (p ∷ states) = refl

collect_states-waiting :
    (syncs : List ChannelSync) (queue : List Ptr)
    → (collect_states syncs queue).0 ≡ queue ++ waiting syncs
unfolding collect_states
collect_states-waiting [] queue = sym (append_none queue)
collect_states-waiting (sync ∷ rest) queue =
    ap (λ q. (collect_states rest q).0) (appended queue sync.queue)
    ∙ collect_states-waiting rest (queue ++ sync.queue)
    ∙ append_assoc queue sync.queue (waiting rest)

-- The finalizer of the map closes every state that waits on a channel, as often as it waits, in the
-- order of the channels and of their queues.
channelmap_gc-waiting : (syncs : List ChannelSync) → (channelmap_gc syncs).0 ≡ waiting syncs
unfolding channelmap_gc
channelmap_gc-waiting syncs = collect_states-waiting syncs []
