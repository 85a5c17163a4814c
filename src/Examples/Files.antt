-- ===== src/Examples/Files.antt =====
-- A file of src/lfilef.c that is a link, with the answers of libuv for it.
use coutil.Prelude.{
  ℕ, zero, suc, ◌≡◌, refl, Bool, true, some, List, [], ◌∷◌, ◌==◌, if◌then◌else◌, arith,
}
use coutil.File.{integer, text, Statbuf, perm_flag, checkperm, pushfilestat}
use coutil.Process.{ok}
use coutil.File.Temp.{
  six_letters, copy_prefix, copy_string, callmktmp, add_mode, skip_noyield, system_maketemp,
}
use coutil.File.Temp.Mode.{asked}
use coutil.File.Temp.Template.{system_maketemp-asked}
use coutil.File.Info.{
  Answers, toinfosrc, nextsource, missinfosrc, statfs_value, source_value, placeat, pushfileinfo,
  fileinfo_loop, checkprefixflags, addsources, checkinfomode, system_fileinfo,
}
use coutil.File.Info.Results.{fileinfo, system_fileinfo-fileinfo}

abbrev type_name : ℕ → List ℕ
type_name mode = b'f' ∷ []

abbrev stat_of : Bool → Statbuf
stat_of lstat = record {
  st_mode = 511;
  st_dev = 1;
  st_ino = 2;
  st_nlink = 1;
  st_uid = 1000;
  st_gid = 1000;
  st_rdev = 0;
  st_size = if lstat then 7 else 4096;
  st_blksize = 4096;
  st_blocks = 8;
  st_flags = 0;
  st_gen = 0;
  st_atim = 5;
  st_mtim = 6;
  st_ctim = 7;
  st_birthtim = 4;
}

-- The file system does not answer.
abbrev answers : Answers
answers = record {
  stat = stat_of;
  statfs = record {
    f_type = 61267;
    f_bsize = 4096;
    f_blocks = 100;
    f_bfree = 50;
    f_bavail = 40;
    f_files = 30;
    f_ffree = 20;
  };
  realpath = b'/' ∷ b'a' ∷ [];
  link = some (b'a' ∷ []);
  fails = λ source lstat. source == 4;
  type_name = type_name;
  system_name = λ t. b'e' ∷ [];
}

-- `~lp#B=`: the values of the stat come first, for the third and fourth results.
abbrev mode : List ℕ
mode = b'~' ∷ b'l' ∷ b'p' ∷ b'#' ∷ b'B' ∷ b'=' ∷ []

values_of_link :
    system_fileinfo (λ n. true) answers 5 mode
    ≡ some (some (some (text (b'/' ∷ b'a' ∷ []) ∷ integer 2 ∷ integer 7 ∷ text (b'a' ∷ []) ∷ [])))
unfolding system_fileinfo checkinfomode checkprefixflags addsources toinfosrc fileinfo_loop
    nextsource missinfosrc source_value statfs_value pushfilestat pushfileinfo placeat
values_of_link = refl

system_fileinfo-fileinfo_example :
    system_fileinfo (λ n. true) answers 5 mode ≡ fileinfo (λ n. true) answers mode
system_fileinfo-fileinfo_example =
    system_fileinfo-fileinfo (λ n. true) answers 5 mode (omega arith) refl

checkperm_rwx : checkperm 0 (b'r' ∷ b'w' ∷ b'x' ∷ []) ≡ some 448
unfolding checkperm perm_flag
checkperm_rwx = refl

-- The template before the call.
abbrev zeros : ℕ → List ℕ
zeros zero = []
zeros (suc n) = 0 ∷ zeros n

-- The letter `f` alone is given the scheduler too.
makes_temp :
    system_maketemp (λ n. true) (b't' ∷ []) (b'~' ∷ b'f' ∷ []) (zeros 256)
    ≡ ok (record { noyield = true; mode = true; sched = true; template = b't' ∷ six_letters })
unfolding system_maketemp skip_noyield add_mode callmktmp copy_prefix copy_string
makes_temp = refl

system_maketemp-asked_example :
    system_maketemp (λ n. true) (b't' ∷ []) (b'~' ∷ b'o' ∷ 0 ∷ b'x' ∷ []) (zeros 256)
    ≡ ok (asked (b'~' ∷ b'o' ∷ []) (b't' ∷ six_letters))
system_maketemp-asked_example =
    system_maketemp-asked (λ n. true) (b't' ∷ []) (b'~' ∷ b'o' ∷ 0 ∷ b'x' ∷ []) (zeros 256) refl
