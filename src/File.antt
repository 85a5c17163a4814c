-- ===== src/File.antt =====
-- Files of src/lfilef.c: the letters of its modes, and what is pushed for them. A text is the list of
-- its bytes up to the zero.
pub mod Temp
pub mod Perm
pub mod Info
pub mod Listing
pub mod Open
use Prim.Native.Nat.{bit_and, bit_or}
use coutil.Prelude.{
  ℕ, ◌≡◌, Bool, true, false, ◌||◌, not, Option, none, some, List, [], ◌∷◌, ◌==◌, if◌then◌else◌,
}

-- The flags of a mode, as the source has them for platforms that define none.
abbrev pub s_isuid : ℕ
s_isuid = 2048

abbrev pub s_isgid : ℕ
s_isgid = 1024

abbrev pub s_isvtx : ℕ
s_isvtx = 512

abbrev pub s_irusr : ℕ
s_irusr = 256

abbrev pub s_iwusr : ℕ
s_iwusr = 128

abbrev pub s_ixusr : ℕ
s_ixusr = 64

abbrev pub s_irgrp : ℕ
s_irgrp = 32

abbrev pub s_iwgrp : ℕ
s_iwgrp = 16

abbrev pub s_ixgrp : ℕ
s_ixgrp = 8

abbrev pub s_iroth : ℕ
s_iroth = 4

abbrev pub s_iwoth : ℕ
s_iwoth = 2

abbrev pub s_ixoth : ℕ
s_ixoth = 1

-- The `switch` of `checkperm`.
unfoldable pub perm_flag : ℕ → Option ℕ
perm_flag c =
    if c == b'U'
    then some s_isuid
    else if c == b'G'
    then some s_isgid
    else if c == b'S'
    then some s_isvtx
    else if c == b'r'
    then some s_irusr
    else if c == b'w'
    then some s_iwusr
    else if c == b'x'
    then some s_ixusr
    else if c == b'R'
    then some s_irgrp
    else if c == b'W'
    then some s_iwgrp
    else if c == b'X'
    then some s_ixgrp
    else if c == b'4'
    then some s_iroth
    else if c == b'2'
    then some s_iwoth
    else if c == b'1'
    then some s_ixoth
    else none

-- The loop of `checkperm` over the rest of the text; `none` is the error for an unknown letter.
unfoldable pub checkperm : ℕ → List ℕ → Option ℕ
checkperm perm [] = some perm
checkperm perm (c ∷ mode) = elim (perm_flag c) [
  | none ↦ none
  | some flag ↦ checkperm (bit_or perm flag) mode
]

-- What is pushed for a letter.
pub data Value : Type 0 where
  boolean : Bool → Value
  integer : ℕ → Value
  number : ℕ → Value  -- a time
  text : List ℕ → Value
  nil : Value

pub record Statbuf : Type 0 where
  pub st_mode : ℕ
  pub st_dev : ℕ
  pub st_ino : ℕ
  pub st_nlink : ℕ
  pub st_uid : ℕ
  pub st_gid : ℕ
  pub st_rdev : ℕ
  pub st_size : ℕ
  pub st_blksize : ℕ
  pub st_blocks : ℕ
  pub st_flags : ℕ
  pub st_gen : ℕ
  pub st_atim : ℕ
  pub st_mtim : ℕ
  pub st_ctim : ℕ
  pub st_birthtim : ℕ

-- `lua_pushboolean` of a flag of the mode.
abbrev pub flag_of : Statbuf → ℕ → Option Value
flag_of stat flag = some (boolean (not (bit_and stat.st_mode flag == 0)))

-- `pushfilestat`, where `type_name` is the text that `pushfiletype` gives for the type of a mode.
unfoldable pub pushfilestat : (type_name : ℕ → List ℕ) → Statbuf → ℕ → Option Value
pushfilestat type_name stat c =
    if c == b'?'
    then some (text (type_name stat.st_mode))
    else if c == b'U'
    then flag_of stat s_isuid
    else if c == b'G'
    then flag_of stat s_isgid
    else if c == b'S'
    then flag_of stat s_isvtx
    else if c == b'r'
    then flag_of stat s_irusr
    else if c == b'w'
    then flag_of stat s_iwusr
    else if c == b'x'
    then flag_of stat s_ixusr
    else if c == b'R'
    then flag_of stat s_irgrp
    else if c == b'W'
    then flag_of stat s_iwgrp
    else if c == b'X'
    then flag_of stat s_ixgrp
    else if c == b'4'
    then flag_of stat s_iroth
    else if c == b'2'
    then flag_of stat s_iwoth
    else if c == b'1'
    then flag_of stat s_ixoth
    else if c == b'M'
    then some (integer stat.st_mode)
    else if c == b'D'
    then some (integer stat.st_dev)
    else if c == b'#'
    then some (integer stat.st_ino)
    else if c == b'*'
    then some (integer stat.st_nlink)
    else if c == b'u'
    then some (integer stat.st_uid)
    else if c == b'g'
    then some (integer stat.st_gid)
    else if c == b'd'
    then some (integer stat.st_rdev)
    else if c == b'B'
    then some (integer stat.st_size)
    else if c == b'i'
    then some (integer stat.st_blksize)
    else if c == b'b'
    then some (integer stat.st_blocks)
    else if c == b'_'
    then some (integer stat.st_flags)
    else if c == b'v'
    then some (integer stat.st_gen)
    else if c == b'a'
    then some (number stat.st_atim)
    else if c == b'm'
    then some (number stat.st_mtim)
    else if c == b's'
    then some (number stat.st_ctim)
    else if c == b'c'
    then some (number stat.st_birthtim)
    else none
