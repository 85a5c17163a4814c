-- ===== src/Examples/Processes.antt =====
-- An environment, the arguments and the signals of a process of src/lprocesf.c.
use coutil.Prelude.{
  ℕ, ◌+◌, ◌*◌, ◌≡◌, refl, none, some, List, [], ◌∷◌, ◌==◌, has, length, if◌then◌else◌,
}
use coutil.Process.{
  c_string, ok, Text, sizeof_pointer, ProcEnv, checkprocenv, fillprocenv, filled, newprocenv,
  unpackenv, findprocenv, procenv_index,
}
use coutil.Process.Env.{entries, newprocenv-unpackenv}
use coutil.Process.Env.Lookup.{lookup, procenv_index-lookup}
use coutil.Process.Args.{
  Command, options, list, getprocargs, arguments_of, Passes, getprocargs-arguments_of,
}
use coutil.Process.Signals.{codes}

-- Two variables, `A` and `BC`.
abbrev tab : List (Text × Text)
tab = (some (codes "A"), some (codes "x=1")) ∷ (some (codes "BC"), some []) ∷ []

abbrev env : ProcEnv
env = record { envl = some 0 ∷ some 6 ∷ none ∷ []; envv = codes "A=x=1\0BC=\0" }

two_variables : newprocenv tab ≡ ok (34, env)
unfolding newprocenv checkprocenv filled fillprocenv
two_variables = refl

newprocenv-unpackenv_example :
    (34 ≡ sizeof_pointer * length env.envl + length env.envv)
    × (unpackenv env.envv env.envl ≡ entries tab)
newprocenv-unpackenv_example = newprocenv-unpackenv tab 34 env two_variables

procenv_index_bc : procenv_index env (codes "BC") ≡ some (some [])
unfolding procenv_index findprocenv
procenv_index_bc = refl

procenv_index-lookup_example :
    procenv_index env (codes "A")
    ≡ (if has b'=' (c_string (codes "A")) then none else some (lookup (codes "A") (entries tab)))
procenv_index-lookup_example = procenv_index-lookup tab 34 env (codes "A") two_variables

abbrev command : Command
command = options (some (codes "ls")) (list (some (codes "-l") ∷ []))

getprocargs-arguments_of_example : Passes (getprocargs command) (arguments_of command)
getprocargs-arguments_of_example = getprocargs-arguments_of command

-- `SIGKILL`, `SIGSTOP`, `SIGINT` and `SIGTERM` as on Linux.
abbrev value : ℕ → ℕ
value i =
    if i == 0
    then 9
    else if i == 1
    then 19
    else if i == 2
    then 2
    else if i == 3
    then 15
    else 100 + i
