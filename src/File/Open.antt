-- ===== src/File/Open.antt =====
-- Files of src/lfilef.c: the mode of `system.openfile`, and the descriptor that an object of a file
-- holds until it is closed.
pub mod Modes
pub mod Descriptors
use coutil.Prelude.{
  ℕ, ◌+◌, ◌-◌, ◌==◌, Bool, true, false, ◌&&◌, ◌||◌, not, Option, none, some, List, [], ◌∷◌,
  if◌then◌else◌,
}

-- What `system_openfile` reads from the mode: the bits 1 and 2 of `perm`, and the flags; the file
-- system has O_CLOEXEC.
pub record OpenMode : Type 0 where
  pub reads : Bool
  pub writes : Bool
  pub append : Bool
  pub sync : Bool
  pub trunc : Bool
  pub creat : Bool
  pub excl : Bool
  pub cloexec : Bool
  pub noyield : Bool

abbrev pub no_mode : OpenMode
no_mode = record {
  reads = false;
  writes = false;
  append = false;
  sync = false;
  trunc = false;
  creat = false;
  excl = false;
  cloexec = false;
  noyield = false;
}

unfoldable pub open_letter : ℕ → OpenMode → Option OpenMode
open_letter c m =
    if c == b'r'
    then some (record m { reads = true })
    else if c == b'w'
    then some (record m { writes = true })
    else if c == b'a'
    then some (record m { writes = true; append = true })
    else if c == b'f'
    then some (record m { writes = true; sync = true })
    else if c == b't'
    then some (record m { writes = true; trunc = true })
    else if c == b'n'
    then some (record m { creat = true })
    else if c == b'N'
    then some (record m { creat = true; excl = true })
    else if c == b'x'
    then some (record m { cloexec = true })
    else if c == b'~'
    then some (record m { noyield = true })
    else none

unfoldable pub open_letters : List ℕ → OpenMode → Option OpenMode
open_letters [] m = some m
open_letters (c ∷ cs) m = elim (open_letter c m) [ none ↦ none | some m' ↦ open_letters cs m' ]

-- The flag of the access that is added, if any.
pub data Access : Type 0 where
  rdonly wronly rdwr : Access

abbrev pub access : OpenMode → Option Access
access m =
    if m.reads
    then (if m.writes then some rdwr else some rdonly)
    else if m.writes
    then some wronly
    else none

-- The mode that `luaL_optstring` gives.
abbrev pub letters_of : Option (List ℕ) → List ℕ
letters_of none = b'r' ∷ []
letters_of (some s) = s

-- The mode with the access and the permissions, which the third argument has for a file that may be
-- created; `none` is an error.
unfoldable pub with_perm :
    Option OpenMode → (checkperm : Option ℕ) → Option (OpenMode × Option Access × ℕ)
with_perm none checkperm = none
with_perm (some m) none = if m.creat then none else some (m, access m, 0)
with_perm (some m) (some perm) = some (m, access m, if m.creat then perm else 0)

-- `system_openfile` up to the call of `uv_fs_open`. `mode` is `none` where the argument is missing, and
-- `checkperm` is what the function of that name returns for the third argument.
unfoldable pub openfile_mode :
    (mode : Option (List ℕ)) → (checkperm : Option ℕ) → Option (OpenMode × Option Access × ℕ)
openfile_mode mode checkperm = with_perm (open_letters (letters_of mode) no_mode) checkperm

-- An object of a file, and the descriptors of the process that libuv has opened for it.
pub record File : Type 0 where
  pub is_open : Bool  -- `*file >= 0`
  pub has_class : Bool  -- the object has the metatable of files
  pub descriptors : ℕ

-- `returnopenfile`: `opened` is whether the result is not negative.
unfoldable pub returnopenfile : (opened : Bool) → File → Bool × File
returnopenfile opened f =
    if opened then (true, record f { is_open = true; has_class = true }) else (false, f)

-- libuv opens the file, and `on_fileopen` gives the result to a coroutine that still waits.
unfoldable pub on_fileopen : (opened waits : Bool) → File → Bool × File
unfolding returnopenfile
on_fileopen opened waits f =
    let f' = record f { descriptors = f.descriptors + (if opened then 1 else 0) } in
    if waits then returnopenfile opened f' else (false, f')

-- `file_gc`: `closes` is whether `uv_fs_close` succeeds, which closes the descriptor.
unfoldable pub file_gc : (closes : Bool) → File → File
file_gc closes f =
    if f.has_class && f.is_open
    then (if closes then record f { is_open = false; descriptors = f.descriptors - 1 } else f)
    else f

-- `file_close` without yielding, and `k_setupclosef`, where libuv accepts the request or not; `none`
-- is the error of the argument.
unfoldable pub file_close : (closes : Bool) → File → Option Bool × File
file_close closes f =
    if not f.is_open
    then (none, f)
    else if closes
    then (some true, record f { is_open = false; descriptors = f.descriptors - 1 })
    else (some false, f)
