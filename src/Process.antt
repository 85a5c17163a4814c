-- ===== src/Process.antt =====
-- Processes of src/lprocesf.c: the environment, the arguments and the signals of a process. A string
-- of Lua is the list of its bytes; one of C ends at the first zero.
pub mod Env
pub mod Args
pub mod Signals
use coutil.Prelude.{
  ℕ, ◌+◌, ◌*◌, ◌/◌, ◌≡◌, Bool, true, false, ◌&&◌, ◌||◌, not, Option, none, some, List, [], ◌∷◌,
  ◌++◌, ◌==◌, length, drop, has, if◌then◌else◌,
}

-- The bytes up to the first zero.
abbrev pub c_string : List ℕ → List ℕ
c_string [] = []
c_string (c ∷ s) = if c == 0 then [] else c ∷ c_string s

-- Equality of texts: `strcmp` for strings of C.
abbrev pub eq_text : List ℕ → List ℕ → Bool
eq_text [] [] = true
eq_text [] (d ∷ t) = false
eq_text (c ∷ s) [] = false
eq_text (c ∷ s) (d ∷ t) = (c == d) && eq_text s t

-- `undefined` is a call of `strlen` with a null pointer, or a write outside of an array.
pub data Outcome {ℓ} (A : Type ℓ) : Type ℓ where
  ok : A → Outcome A
  error : Outcome A
  undefined : Outcome A

-- A key or value of a table; what `lua_tostring` gives for it, `none` for a null pointer. A key that
-- is a number is left out: it would be converted while the table is traversed.
abbrev pub Text : Type 0
Text = Option (List ℕ)

abbrev pub sizeof_pointer : ℕ
sizeof_pointer = 8

-- The block of an environment: pointers into the text behind them, each as its place in the text, and
-- the null pointer as `none`.
pub record ProcEnv : Type 0 where
  pub envl : List (Option ℕ)
  pub envv : List ℕ

-- The first loop of `newprocenv` over the entries that `lua_next` gives, with `envc` and `envsz`.
unfoldable pub checkprocenv : (envc envsz : ℕ) → List (Text × Text) → Outcome (ℕ × ℕ)
checkprocenv envc envsz [] = ok (envc, envsz)
checkprocenv envc envsz ((none, value) ∷ tab) = undefined
checkprocenv envc envsz ((some name, none) ∷ tab) = error
checkprocenv envc envsz ((some name, some value) ∷ tab) =
    let rest =
      checkprocenv (envc + 1)
        (envsz + (sizeof_pointer + (length (c_string name) + 1 + length (c_string value) + 1)))
        tab in
    if has b'=' (c_string name) then error else rest

-- `while (*c) *envv++ = *c++`, and then a byte.
abbrev pub copy_then : ℕ → List ℕ → List ℕ
copy_then last [] = last ∷ []
copy_then last (c ∷ s) = if c == 0 then last ∷ [] else c ∷ copy_then last s

abbrev pub or_empty : Text → List ℕ
or_empty none = []
or_empty (some s) = s

abbrev pub variable : Text → Text → List ℕ
variable name value = copy_then b'=' (or_empty name) ++ copy_then 0 (or_empty value)

-- The second loop, from the place `at` of `envv`.
unfoldable pub fillprocenv : (at : ℕ) → List (Text × Text) → ProcEnv
fillprocenv at [] = record { envl = none ∷ []; envv = [] }
fillprocenv at ((name, value) ∷ tab) =
    let rest = fillprocenv (at + length (variable name value)) tab in
    record { envl = some at ∷ rest.envl; envv = variable name value ++ rest.envv }

unfoldable pub filled : List (Text × Text) → Outcome (ℕ × ℕ) → Outcome (ℕ × ProcEnv)
unfolding fillprocenv
filled tab error = error
filled tab undefined = undefined
filled tab (ok (envc, envsz)) = ok (envsz, fillprocenv 0 tab)

-- `newprocenv`: the size of the block that is allocated, and what is written in it.
unfoldable pub newprocenv : List (Text × Text) → Outcome (ℕ × ProcEnv)
unfolding checkprocenv filled
newprocenv tab = filled tab (checkprocenv 0 sizeof_pointer tab)

-- `strchr`: what stands before the first `=`, and what stands from it on.
abbrev pub split_at : ℕ → List ℕ → List ℕ × List ℕ
split_at d [] = ([], [])
split_at d (c ∷ s) =
    let (before, behind) = split_at d s in if c == d then ([], c ∷ s) else (c ∷ before, behind)

-- The loop of `system_unpackenv`: the names and values that are set, in order.
unfoldable pub unpackenv : List ℕ → List (Option ℕ) → List (List ℕ × List ℕ)
unpackenv envv [] = []
unpackenv envv (none ∷ envl) = []
unpackenv envv (some at ∷ envl) =
    let (name, value) = split_at b'=' (c_string (drop at envv)) in
    (name, drop 1 value) ∷ unpackenv envv envl

-- `strncmp` of the first bytes, as many as `name` has, is zero.
abbrev pub strncmp_eq : List ℕ → List ℕ → Bool
strncmp_eq [] s = true
strncmp_eq (x ∷ name) [] = false
strncmp_eq (x ∷ name) (c ∷ s) =
    if x == c then (if x == 0 then true else strncmp_eq name s) else false

-- The byte at a place is `c`.
abbrev pub byte_is : ℕ → List ℕ → Bool
byte_is c [] = false
byte_is c (d ∷ s) = d == c

-- The loop of `procenv_index`.
unfoldable pub findprocenv : List ℕ → List ℕ → List (Option ℕ) → Option (List ℕ)
findprocenv name envv [] = none
findprocenv name envv (none ∷ envl) = none
findprocenv name envv (some at ∷ envl) =
    let entry = drop at envv in
    let rest = findprocenv name envv envl in
    if strncmp_eq name entry && byte_is b'=' (drop (length name) entry)
    then some (c_string (drop (length name + 1) entry))
    else rest

-- `procenv_index`, where `none` is an error of the name and `some none` no result.
unfoldable pub procenv_index : ProcEnv → List ℕ → Option (Option (List ℕ))
unfolding findprocenv
procenv_index env name =
    if has b'=' (c_string name) then none else some (findprocenv name env.envv env.envl)
