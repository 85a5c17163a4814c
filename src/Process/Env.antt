-- ===== src/Process/Env.antt =====
-- The environment of a process (src/lprocesf.c): its block is filled to the last byte and reads back
-- as the table that it was made of.
pub mod Lookup
use coutil.Prelude.{
  append_assoc, ℕ, zero, suc, ◌+◌, ◌*◌, ◌≡◌, ◌∙◌, sym, ap, refl, Bool, true, false, ◌&&◌, ◌||◌, not,
  Option, none, some, List, [], ◌∷◌, ◌++◌, ◌==◌, map, length, length-append, drop, has,
  if◌then◌else◌, arith, Bool-cases, inl, inr, ==_iff,
}
use coutil.Process.{
  c_string, eq_text, Outcome, ok, error, undefined, Text, sizeof_pointer, ProcEnv, checkprocenv,
  copy_then, or_empty, variable, fillprocenv, filled, newprocenv, split_at, unpackenv, strncmp_eq,
  byte_is, findprocenv, procenv_index,
}

pub copy_then-c_string : (last : ℕ) (s : List ℕ) → copy_then last s ≡ c_string s ++ last ∷ []
copy_then-c_string last [] = refl
copy_then-c_string last (c ∷ s) = ground (arith, copy_then-c_string last s)

length-copy_then : (last : ℕ) (s : List ℕ) → length (copy_then last s) ≡ length (c_string s) + 1
length-copy_then last s =
    ap length (copy_then-c_string last s) ∙ length-append (c_string s) (last ∷ [])

abbrev size_of : Outcome (ℕ × ℕ) → ℕ
size_of (ok r) = r.1
size_of error = 0
size_of undefined = 0

-- What the block of a table has to take, and its size.
size_lem :
    (envc envsz : ℕ) (tab : List (Text × Text)) (envc' envsz' at : ℕ)
    → checkprocenv envc envsz tab ≡ ok (envc', envsz')
    → envsz' + sizeof_pointer
      ≡ envsz
        + (sizeof_pointer * length (fillprocenv at tab).envl + length (fillprocenv at tab).envv)
unfolding checkprocenv fillprocenv
size_lem envc envsz [] envc' envsz' at h = let e : envsz ≡ envsz' = ap size_of h in omega (arith, e)
size_lem envc envsz ((none, value) ∷ tab) envc' envsz' at h = cc
size_lem envc envsz ((some name, none) ∷ tab) envc' envsz' at h = cc
size_lem envc envsz ((some name, some value) ∷ tab) envc' envsz' at h =
    let n = length (variable (some name) (some value)) in
    let one : n ≡ length (c_string name) + 1 + (length (c_string value) + 1) =
      length-append (copy_then b'=' name) (copy_then 0 value)
      ∙ omega (arith, length-copy_then b'=' name, length-copy_then 0 value) in
    let rest = fillprocenv (at + n) tab in
    let sum = length-append (variable (some name) (some value)) rest.envv in
    let size = sizeof_pointer + (length (c_string name) + 1 + length (c_string value) + 1) in
    elim (Bool-cases (has b'=' (c_string name))) [
      | inl e ↦ let f : error ≡ ok (envc', envsz') = rw (checkprocenv, e) at h in cc
      | inr e ↦
          let h' : checkprocenv (envc + 1) (envsz + size) tab ≡ ok (envc', envsz') =
            rw (checkprocenv, e) at h in
          let rec = size_lem (envc + 1) (envsz + size) tab envc' envsz' (at + n) h' in
          omega (arith, rec, sum, one)
    ]

-- The entries of a table as strings of C.
abbrev pub entries : List (Text × Text) → List (List ℕ × List ℕ)
entries [] = []
entries ((name, value) ∷ tab) = (c_string (or_empty name), c_string (or_empty value)) ∷ entries tab

abbrev pub AreNames : List (Text × Text) → Type 0
AreNames [] = Unit
AreNames ((name, value) ∷ tab) = (has b'=' (c_string (or_empty name)) ≡ false) × AreNames tab

pub checkprocenv-AreNames :
    (envc envsz : ℕ) (tab : List (Text × Text)) (r : ℕ × ℕ)
    → checkprocenv envc envsz tab ≡ ok r
    → AreNames tab
unfolding checkprocenv
checkprocenv-AreNames envc envsz [] r h = tt
checkprocenv-AreNames envc envsz ((none, value) ∷ tab) r h = cc
checkprocenv-AreNames envc envsz ((some name, none) ∷ tab) r h = cc
checkprocenv-AreNames envc envsz ((some name, some value) ∷ tab) r h =
    let size = sizeof_pointer + (length (c_string name) + 1 + length (c_string value) + 1) in
    elim (Bool-cases (has b'=' (c_string name))) [
      | inl e ↦ let f : error ≡ ok r = rw (checkprocenv, e) at h in cc
      | inr e ↦
          (e, checkprocenv-AreNames (envc + 1) (envsz + size) tab r (rw (checkprocenv, e) at h))
    ]

drop-append : (xs ys : List ℕ) → drop (length xs) (xs ++ ys) ≡ ys
drop-append [] ys = refl
drop-append (x ∷ xs) ys = drop-append xs ys

c_string_value :
    (value rest : List ℕ) → c_string ((c_string value ++ 0 ∷ []) ++ rest) ≡ c_string value
c_string_value [] rest = refl
c_string_value (c ∷ value) rest = ground (arith, c_string_value value rest)

c_string_name :
    (name value rest : List ℕ)
    → c_string (((c_string name ++ b'=' ∷ []) ++ (c_string value ++ 0 ∷ [])) ++ rest)
      ≡ c_string name ++ b'=' ∷ c_string value
c_string_name [] value rest = ap (λ s. b'=' ∷ s) (c_string_value value rest)
c_string_name (c ∷ name) value rest = elim (Bool-cases (c == 0)) [
  | inl e ↦ rw e (ap (λ s. b'=' ∷ s) (c_string_value value rest))
  | inr e ↦ rw (e, e) (ap (λ s. c ∷ s) (c_string_name name value rest))
]

-- An entry in the text.
pub c_string-entry :
    (name value : List ℕ) (rest : List ℕ)
    → c_string ((copy_then b'=' name ++ copy_then 0 value) ++ rest)
      ≡ c_string name ++ b'=' ∷ c_string value
c_string-entry name value rest =
    ap (λ s. c_string (s ++ rest))
      (ap (λ s. s ++ copy_then 0 value) (copy_then-c_string b'=' name)
        ∙ ap (λ s. (c_string name ++ b'=' ∷ []) ++ s) (copy_then-c_string 0 value))
    ∙ c_string_name name value rest

split_at-entry :
    (name value : List ℕ)
    → has b'=' name ≡ false
    → split_at b'=' (name ++ b'=' ∷ value) ≡ (name, b'=' ∷ value)
split_at-entry [] value h = refl
split_at-entry (c ∷ name) value h =
    let e : (b'=' == c) ≡ false = ground arith in
    let e' : (c == b'=') ≡ false = ground arith in
    let rec = split_at-entry name value (ground arith) in rw (e', rec) refl

-- The text at the place of an entry.
pub entry_at :
    (pre : List ℕ) (at : ℕ) (entry rest : List ℕ) (envv : List ℕ)
    → at ≡ length pre
    → envv ≡ pre ++ (entry ++ rest)
    → drop at envv ≡ entry ++ rest
entry_at pre at entry rest envv a e = rw (a, e) (drop-append pre (entry ++ rest))

unpackenv_lem :
    (pre : List ℕ) (at : ℕ) (tab : List (Text × Text)) (envv : List ℕ)
    → at ≡ length pre
    → envv ≡ pre ++ (fillprocenv at tab).envv
    → AreNames tab
    → unpackenv envv (fillprocenv at tab).envl ≡ entries tab
unfolding unpackenv fillprocenv
unpackenv_lem pre at [] envv a e names = refl
unpackenv_lem pre at ((name, value) ∷ tab) envv a e names =
    let entry = variable name value in
    let rest = (fillprocenv (at + length entry) tab).envv in
    let here = entry_at pre at entry rest envv a e in
    let text = c_string-entry (or_empty name) (or_empty value) rest in
    let split = split_at-entry (c_string (or_empty name)) (c_string (or_empty value)) names.0 in
    let rec =
      unpackenv_lem (pre ++ entry) (at + length entry) tab envv
        (sym (length-append pre entry ∙ omega (arith, a))) (e ∙ sym (append_assoc pre entry rest))
        names.1 in
    rw (unpackenv, here, text, split, rec) refl

-- A table that is accepted.
pub newprocenv-ok :
    (tab : List (Text × Text)) (envsz : ℕ) (env : ProcEnv)
    → newprocenv tab ≡ ok (envsz, env)
    → (fillprocenv 0 tab ≡ env)
      × (envc : ℕ) × (checkprocenv 0 sizeof_pointer tab ≡ ok (envc, envsz))
unfolding newprocenv filled
newprocenv-ok tab envsz env h = go (checkprocenv 0 sizeof_pointer tab) h refl
  where
    go :
        (o : Outcome (ℕ × ℕ))
        → filled tab o ≡ ok (envsz, env)
        → checkprocenv 0 sizeof_pointer tab ≡ o
        → (fillprocenv 0 tab ≡ env)
          × (envc : ℕ) × (checkprocenv 0 sizeof_pointer tab ≡ ok (envc, envsz))
    go error h e = cc
    go undefined h e = cc
    go (ok (envc, size)) h e = let s : size ≡ envsz = cc in (cc, envc, e ∙ ap (λ n. ok (envc, n)) s)

-- If a table is accepted, the block has the size of its pointers and its text, and unpacking it gives
-- the names and values of the table, as strings of C and in the order of the table.
pub newprocenv-unpackenv :
    (tab : List (Text × Text)) (envsz : ℕ) (env : ProcEnv)
    → newprocenv tab ≡ ok (envsz, env)
    → (envsz ≡ sizeof_pointer * length env.envl + length env.envv)
      × (unpackenv env.envv env.envl ≡ entries tab)
newprocenv-unpackenv tab envsz env h =
    let (same, envc, e) = newprocenv-ok tab envsz env h in
    rw (sym same) (
      omega (arith, size_lem 0 sizeof_pointer tab envc envsz 0 e),
      unpackenv_lem [] 0 tab (fillprocenv 0 tab).envv refl refl
          (checkprocenv-AreNames 0 sizeof_pointer tab (envc, envsz) e),
    )
