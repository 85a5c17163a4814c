-- ===== src/Channel/Names.antt =====
-- The map from names to channels of src/lchaux.c: the globals of the map's own Lua state. Each
-- function is one critical section under `map->mutex`.
pub mod Counts
pub mod Whole
use Prim.Native.String.{String}
use text.Mathlib.Text.{◌==◌ as str_eq}
use coutil.Prelude.{
  ◌-◌, ◌+◌, Bool, true, false, ◌&&◌, Option, none, some, List, [], ◌∷◌, ◌==◌, if◌then◌else◌,
}
use coutil.StateQ.{Ptr}
use coutil.Channel.{ChannelSync}

abbrev pub ChannelMap : Type 0
ChannelMap = String → Option ChannelSync

-- `lua_setglobal` of a pointer, or of nil for `none`.
abbrev pub setglobal : ChannelMap → String → Option ChannelSync → ChannelMap
setglobal map name sync k = if str_eq k name then sync else map k

abbrev pub emptystates : List Ptr → Bool
emptystates [] = true
emptystates (_ ∷ _) = false

-- `lcuCS_getchsync`: `allocated` says whether the allocator gives memory. The result is whether the
-- channel was got; it is the one that the map has for the name.
unfoldable pub getchsync : (allocated : Bool) → ChannelMap → String → Bool × ChannelMap
getchsync allocated map name = elim (map name) [
  | some sync ↦ (true, setglobal map name (some (record sync { refcount = sync.refcount + 1 })))
  | none ↦
      if allocated
      then (true, setglobal map name (some (record { refcount = 1; expected = 0; queue = [] })))
      else (false, map)
]

-- `lcuCS_freechsync`
unfoldable pub freechsync : ChannelMap → String → ChannelMap
freechsync map name = elim (map name) [
  | none ↦ map
  | some sync ↦
      let sync' = record sync { refcount = sync.refcount - 1 } in
      if (sync'.refcount == 0) && emptystates sync.queue
      then setglobal map name none
      else setglobal map name (some sync')
]
