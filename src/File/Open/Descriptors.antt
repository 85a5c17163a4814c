-- ===== src/File/Open/Descriptors.antt =====
-- The descriptors that the objects of files hold (src/lfilef.c).
use coutil.Prelude.{ℕ, ◌+◌, ◌≡◌, Bool, false, ◌&&◌, not, List, [], ◌∷◌, arith, if◌then◌else◌}
use coutil.File.Open.{File, on_fileopen, file_gc, file_close}

-- A new object, before the file is opened.
abbrev pub new : File
new = record { is_open = false; has_class = false; descriptors = 0 }

-- What is done with the object: `__gc` or `__close`, and `file:close`.
pub data Event : Type 0 where
  collect : (closes : Bool) → Event
  close : (closes : Bool) → Event

unfoldable pub happen : Event → File → File
happen (collect closes) f = file_gc closes f
happen (close closes) f = (file_close closes f).1

abbrev pub run : List Event → File → File
run [] f = f
run (e ∷ es) f = run es (happen e f)

abbrev number : Bool → ℕ
number b = if b then 1 else 0

abbrev Holds : (lost : ℕ) → File → Type 0
Holds lost f = f.descriptors ≡ (if f.is_open then 1 else 0) + lost

happen-Holds : (lost : ℕ) (e : Event) (f : File) → Holds lost f → Holds lost (happen e f)
unfolding happen file_gc file_close
happen-Holds lost (collect closes) f v = ground arith
happen-Holds lost (close closes) f v = ground arith

run-Holds : (lost : ℕ) (es : List Event) (f : File) → Holds lost f → Holds lost (run es f)
run-Holds lost [] f v = v
run-Holds lost (e ∷ es) f v = run-Holds lost es (happen e f) (happen-Holds lost e f v)

-- However an object of a file is closed and collected, and whether libuv can close it or not, it holds
-- one descriptor exactly while it is open, and none is closed twice; but one that is opened for a
-- coroutine that does not wait any more is held by no object, and never closed.
pub on_fileopen-descriptors :
    (opened waits : Bool) (es : List Event)
    → (run es (on_fileopen opened waits new).1).descriptors
      ≡ (if (run es (on_fileopen opened waits new).1).is_open then 1 else 0)
        + (if opened && not waits then 1 else 0)
unfolding on_fileopen
on_fileopen-descriptors opened waits es =
    run-Holds (if opened && not waits then 1 else 0) es (on_fileopen opened waits new).1
      (ground arith)
