-- ===== src/File/Info.antt =====
-- `system.fileinfo` of src/lfilef.c: its mode, the sources that the mode asks for, and the values that
-- each source puts on the stack. Only the results are followed on the stack.
pub mod Sources
pub mod Places
pub mod Values
pub mod Modes
pub mod Results
use Prim.Native.Nat.{bit_and, bit_or}
use coutil.Prelude.{
  ℕ, zero, suc, ◌+◌, ◌-◌, ◌*◌, ◌/◌, ◌^◌, Bool, true, false, ◌&&◌, ◌||◌, not, Option, none, some,
  List, [], ◌∷◌, ◌++◌, ◌==◌, ltb, length, if◌then◌else◌, has,
}
use coutil.Process.{c_string}
use coutil.File.{Value, integer, text, nil, Statbuf, pushfilestat}

abbrev pub info_readlink : ℕ
info_readlink = 1

abbrev pub info_realpath : ℕ
info_realpath = 2

abbrev pub info_statfs : ℕ
info_statfs = 4

abbrev pub info_stat : ℕ
info_stat = 8

abbrev pub info_lstat : ℕ
info_lstat = 16

abbrev pub info_noyield : ℕ
info_noyield = 32

abbrev pub info_srcmask : ℕ
info_srcmask = 15

abbrev pub info_bitcount : ℕ
info_bitcount = 6

abbrev pub noyieldmode : ℕ
noyieldmode = b'~'

abbrev pub stat_letters : List ℕ
stat_letters =
    b'?' ∷ b'U' ∷ b'G' ∷ b'S' ∷ b'r' ∷ b'w' ∷ b'x' ∷ b'R' ∷ b'W' ∷ b'X' ∷ b'4' ∷ b'2' ∷ b'1' ∷ b'M'
    ∷ b'D' ∷ b'#' ∷ b'*' ∷ b'u' ∷ b'g' ∷ b'd' ∷ b'B' ∷ b'i' ∷ b'b' ∷ b'_' ∷ b'v' ∷ b'a' ∷ b'm'
    ∷ b's' ∷ b'c' ∷ []

abbrev pub statfs_letters : List ℕ
statfs_letters = b'@' ∷ b'N' ∷ b'I' ∷ b'T' ∷ b'F' ∷ b'A' ∷ b't' ∷ b'f' ∷ []

abbrev pub sets : ℕ → ℕ → Bool
sets bits flag = not (bit_and bits flag == 0)

-- `toinfosrc`; `none` is an error for a letter that may stand in the begin only. The letters of
-- each source are a text here.
unfoldable pub toinfosrc : ℕ → (mask : ℕ) → Option ℕ
toinfosrc c mask =
    if has c stat_letters
    then some info_stat
    else if has c statfs_letters
    then some info_statfs
    else if c == b'p'
    then some info_realpath
    else if c == b'='
    then some info_readlink
    else if c == b'l'
    then (if sets mask info_lstat then none else some 0)
    else if c == noyieldmode
    then none
    else some 0

-- `checkprefixflags` from `bits`: the flags, and the rest of the mode.
unfoldable pub checkprefixflags : (mask bits : ℕ) → List ℕ → ℕ × List ℕ
checkprefixflags mask bits [] = (bits, [])
checkprefixflags mask bits (c ∷ mode) =
    let yields = checkprefixflags mask (bit_or bits info_noyield) mode in
    let links = checkprefixflags mask (bit_or bits info_lstat) mode in
    if c == noyieldmode
    then yields
    else if c == b'l'
    then (if sets mask info_lstat then links else (bits, c ∷ mode))
    else (bits, c ∷ mode)

-- The loop of `checkinfomode`; `none` is an error.
unfoldable pub addsources : (mask bits : ℕ) → List ℕ → Option ℕ
unfolding toinfosrc
addsources mask bits [] = some bits
addsources mask bits (c ∷ mode) = elim (toinfosrc c mask) [
  | none ↦ none
  | some sel ↦ if sets mask sel then addsources mask (bit_or bits sel) mode else none
]

-- `checkinfomode` for the argument `arg`; a text of C ends at its first zero. `checkstack` says for how
-- many values Lua has room.
unfoldable pub checkinfomode :
    (checkstack : ℕ → Bool) → (arg mask : ℕ) → List ℕ → Option (ℕ × List ℕ)
unfolding checkprefixflags addsources
checkinfomode checkstack arg mask mode =
    let (bits, rest) = checkprefixflags mask 0 (c_string mode) in
    elim (addsources mask bits rest) [
      | none ↦ none
      | some bits' ↦ if checkstack (length rest + arg + 5) then some (bits', rest) else none
    ]

-- `missinfosrc`; `none` is 0.
unfoldable pub missinfosrc : ℕ → (src : ℕ) → Option ℕ
missinfosrc bits src =
    if sets bits src
    then some (bit_or (src * 2 ^ info_bitcount) (bit_and bits (63 - src)))
    else none

-- The choice of `getinfosrc`: the new bits, with the source that is called in their upper part.
unfoldable pub nextsource : ℕ → Option ℕ
unfolding missinfosrc
nextsource bits = elim (missinfosrc bits info_stat) [
  | some b ↦ some b
  | none ↦ elim (missinfosrc bits info_statfs) [
    | some b ↦ some b
    | none ↦ elim (missinfosrc bits info_realpath) [
      | some b ↦ some b
      | none ↦ missinfosrc bits info_readlink
    ]
  ]
]

pub record Statfs : Type 0 where
  pub f_type : ℕ
  pub f_bsize : ℕ
  pub f_blocks : ℕ
  pub f_bfree : ℕ
  pub f_bavail : ℕ
  pub f_files : ℕ
  pub f_ffree : ℕ

-- What libuv answers for a path. For a path that is no link, `uv_fs_readlink` gives EINVAL, which is
-- no error here; `link` is `none` then.
pub record Answers : Type 0 where
  pub stat : (lstat : Bool) → Statbuf
  pub statfs : Statfs
  pub realpath : List ℕ
  pub link : Option (List ℕ)
  pub fails : (source : ℕ) (lstat : Bool) → Bool
  pub type_name : ℕ → List ℕ  -- `pushfiletype`
  pub system_name : ℕ → List ℕ  -- `pushfilesystype`

unfoldable pub statfs_value : Answers → ℕ → Option Value
statfs_value uv c =
    if c == b'@'
    then some (text (uv.system_name uv.statfs.f_type))
    else if c == b'N'
    then some (integer uv.statfs.f_type)
    else if c == b'I'
    then some (integer uv.statfs.f_bsize)
    else if c == b'T'
    then some (integer uv.statfs.f_blocks)
    else if c == b'F'
    then some (integer uv.statfs.f_bfree)
    else if c == b'A'
    then some (integer uv.statfs.f_bavail)
    else if c == b't'
    then some (integer uv.statfs.f_files)
    else if c == b'f'
    then some (integer uv.statfs.f_ffree)
    else none

-- What `pushfileinfo` pushes for a letter, from the current source.
unfoldable pub source_value : Answers → (lstat : Bool) → (source : ℕ) → ℕ → Option Value
unfolding statfs_value pushfilestat
source_value uv lstat source c =
    if source == info_readlink
    then (if c == b'=' then some (elim uv.link [ none ↦ nil | some path ↦ text path ]) else none)
    else if source == info_realpath
    then (if c == b'p' then some (text uv.realpath) else none)
    else if source == info_statfs
    then statfs_value uv c
    else if source == info_stat
    then pushfilestat uv.type_name (uv.stat lstat) c
    else none

abbrev pub nils : ℕ → List Value
nils zero = []
nils (suc n) = nil ∷ nils n

abbrev pub set : List Value → ℕ → Value → List Value
set [] i v = []
set (w ∷ ws) zero v = v ∷ ws
set (w ∷ ws) (suc i) v = w ∷ set ws i v

-- A value is pushed, and `placeat` brings it to the place `i` of the results: `lua_replace`, nothing,
-- or `lua_settop` and `lua_pushvalue`.
unfoldable pub placeat : ℕ → Value → List Value → List Value
placeat i v results =
    let top = length results in
    if ltb i top
    then set results i v
    else if i == top
    then results ++ v ∷ []
    else (results ++ v ∷ []) ++ (nils (i - (top + 1)) ++ v ∷ [])

-- The loops of `pushfileinfo` over the mode from its letter `i` on.
unfoldable pub pushfileinfo : (ℕ → Option Value) → ℕ → List ℕ → List Value → List Value
unfolding placeat
pushfileinfo push i [] results = results
pushfileinfo push i (c ∷ mode) results =
    pushfileinfo push (i + 1) mode (elim (push c) [ none ↦ results | some v ↦ placeat i v results ])

-- The `while` of `system_fileinfo`: `none` if the fuel runs out, and `some none` for an error.
unfoldable pub fileinfo_loop :
    Answers → ℕ → (bits : ℕ) → List ℕ → List Value → Option (Option (List Value))
fileinfo_loop uv zero bits mode results = none
fileinfo_loop uv (suc fuel) bits mode results =
    if sets bits info_srcmask
    then elim (nextsource bits) [
      | none ↦ some none
      | some bits' ↦
          let lstat = sets bits' info_lstat in
          let source = bits' / 2 ^ info_bitcount in
          let rest =
            fileinfo_loop uv fuel bits' mode
              (pushfileinfo (source_value uv lstat source) 0 mode results) in
          if uv.fails source lstat then some none else rest
    ]
    else some (some results)

-- `system_fileinfo` with `~` in its mode. `none` is an error of the mode.
unfoldable pub system_fileinfo :
    (checkstack : ℕ → Bool) → Answers → (fuel : ℕ) → List ℕ → Option (Option (Option (List Value)))
system_fileinfo checkstack uv fuel mode =
    elim (checkinfomode checkstack 2 (bit_or info_lstat info_srcmask) mode) [
      | none ↦ none
      | some (bits, rest) ↦ some (fileinfo_loop uv fuel bits rest [])
    ]
