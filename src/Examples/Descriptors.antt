-- ===== src/Examples/Descriptors.antt =====
-- A file of src/lfilef.c that is closed twice, a listing that fails, and a mode.
use coutil.Prelude.{◌≡◌, ◌+◌, refl, true, false, some, [], ◌∷◌, if◌then◌else◌}
use coutil.File.Open.{
  on_fileopen, file_gc, file_close, openfile_mode, with_perm, open_letters, open_letter, OpenMode,
  wronly,
}
use coutil.File.Open.Descriptors.{collect, close, run, new, happen, on_fileopen-descriptors}
use coutil.File.Listing.{negative, calls, collected, system_listdir, system_listdir-end}

abbrev wrote : OpenMode
wrote = record {
  reads = false;
  writes = true;
  append = true;
  sync = false;
  trunc = false;
  creat = true;
  excl = false;
  cloexec = false;
  noyield = false;
}

appending : openfile_mode (some (b'a' ∷ b'n' ∷ [])) (some 384) ≡ some (wrote, some wronly, 384)
unfolding openfile_mode with_perm open_letters open_letter
appending = refl

closed_once :
    run (close false ∷ close true ∷ close true ∷ collect true ∷ []) (on_fileopen true true new).1
    ≡ record { is_open = false; has_class = true; descriptors = 0 }
unfolding happen on_fileopen file_close file_gc
closed_once = refl

on_fileopen-descriptors_example :
    (run (close true ∷ []) (on_fileopen true false new).1).descriptors
    ≡ (if (run (close true ∷ []) (on_fileopen true false new).1).is_open then 1 else 0) + 1
on_fileopen-descriptors_example = on_fileopen-descriptors true false (close true ∷ [])

system_listdir-end_example :
    collected (calls (true ∷ []) (system_listdir false true false true).1)
    ≡ some (record { result = negative; held = true })
system_listdir-end_example = system_listdir-end false true false true (true ∷ [])
