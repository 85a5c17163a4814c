-- ===== src/Process/Env/Lookup.antt =====
-- What `procenv_index` of src/lprocesf.c finds in an environment.
use coutil.Prelude.{
  append_assoc, ℕ, suc, ◌+◌, ◌≡◌, ◌∙◌, sym, ap, refl, true, false, ◌&&◌, Option, none, some, List,
  [], ◌∷◌, ◌++◌, ◌==◌, length, length-append, drop, has, if◌then◌else◌, arith, Bool-cases, inl, inr,
}
use coutil.Process.{
  c_string, eq_text, ok, Text, sizeof_pointer, ProcEnv, copy_then, or_empty, variable, fillprocenv,
  newprocenv, strncmp_eq, byte_is, findprocenv, procenv_index,
}
use coutil.Process.Env.{
  copy_then-c_string, AreNames, checkprocenv-AreNames, entry_at, newprocenv-ok, entries,
}

-- The value of the first entry with a name.
abbrev pub lookup : List ℕ → List (List ℕ × List ℕ) → Option (List ℕ)
lookup name [] = none
lookup name ((n, v) ∷ es) = if eq_text name n then some v else lookup name es

has_zero-c_string : (s : List ℕ) → has 0 (c_string s) ≡ false
has_zero-c_string [] = refl
has_zero-c_string (c ∷ s) = elim (Bool-cases (c == 0)) [
  | inl e ↦ rw e refl
  | inr e ↦ rw e (ground (arith, has_zero-c_string s))
]

-- The test of the loop of `procenv_index` at an entry.
matches :
    (name n tail : List ℕ)
    → has b'=' (c_string name) ≡ false
    → has b'=' n ≡ false
    → has 0 n ≡ false
    → (strncmp_eq name (n ++ b'=' ∷ tail) && byte_is b'=' (drop (length name) (n ++ b'=' ∷ tail)))
      ≡ eq_text name n
matches [] [] tail h k z = refl
matches [] (c ∷ n) tail h k z = ground arith
matches (x ∷ name) [] tail h k z = ground arith
matches (x ∷ name) (c ∷ n) tail h k z = elim (Bool-cases (x == c)) [
  | inr e ↦ rw e refl
  | inl e ↦
      let nonzero : (x == 0) ≡ false = ground arith in
      let h' : has b'=' (c_string name) ≡ false =
        let u : has b'=' (x ∷ c_string name) ≡ false = rw nonzero at h in ground arith in
      rw (e, nonzero) (matches name n tail h' (ground arith) (ground arith))
]

entry_text :
    (name value rest : List ℕ)
    → (copy_then b'=' name ++ copy_then 0 value) ++ rest
      ≡ c_string name ++ b'=' ∷ (c_string value ++ 0 ∷ rest)
entry_text name value rest =
    rw
      (
        copy_then-c_string b'=' name,
        copy_then-c_string 0 value,
        append_assoc (c_string name ++ b'=' ∷ []) (c_string value ++ 0 ∷ []) rest,
        append_assoc (c_string name) (b'=' ∷ []) ((c_string value ++ 0 ∷ []) ++ rest),
        append_assoc (c_string value) (0 ∷ []) rest,
      )
      refl

c_string_ended : (s rest : List ℕ) → c_string (c_string s ++ 0 ∷ rest) ≡ c_string s
c_string_ended [] rest = refl
c_string_ended (c ∷ s) rest = elim (Bool-cases (c == 0)) [
  | inl e ↦ rw e refl
  | inr e ↦ rw (e, e) (ap (λ t. c ∷ t) (c_string_ended s rest))
]

-- What the loop of `procenv_index` pushes for an entry.
value_at :
    (name key value rest : List ℕ)
    → eq_text name key ≡ true
    → c_string (drop (length name + 1) (key ++ b'=' ∷ (c_string value ++ 0 ∷ rest)))
      ≡ c_string value
value_at [] [] value rest h = c_string_ended value rest
value_at [] (d ∷ key) value rest h = cc
value_at (c ∷ name) [] value rest h = cc
value_at (c ∷ name) (d ∷ key) value rest h =
    let shift : suc (length name) + 1 ≡ suc (length name + 1) = omega arith in
    rw shift (value_at name key value rest (ground arith))

findprocenv_lem :
    (name pre : List ℕ) (at : ℕ) (tab : List (Text × Text)) (envv : List ℕ)
    → has b'=' (c_string name) ≡ false
    → at ≡ length pre
    → envv ≡ pre ++ (fillprocenv at tab).envv
    → AreNames tab
    → findprocenv name envv (fillprocenv at tab).envl ≡ lookup name (entries tab)
unfolding findprocenv fillprocenv
findprocenv_lem name pre at [] envv good a e names = refl
findprocenv_lem name pre at ((n, value) ∷ tab) envv good a e names =
    let entry = variable n value in
    let rest = (fillprocenv (at + length entry) tab).envv in
    let key = c_string (or_empty n) in
    let tail = c_string (or_empty value) ++ 0 ∷ rest in
    let here : drop at envv ≡ key ++ b'=' ∷ tail =
      entry_at pre at entry rest envv a e ∙ entry_text (or_empty n) (or_empty value) rest in
    let test = matches name key tail good names.0 (has_zero-c_string (or_empty n)) in
    let rec =
      findprocenv_lem name (pre ++ entry) (at + length entry) tab envv good
        (sym (length-append pre entry ∙ omega (arith, a))) (e ∙ sym (append_assoc pre entry rest))
        names.1 in
    elim (Bool-cases (eq_text name key)) [
      | inr f ↦ rw (findprocenv, here, test, f, rec) refl
      | inl f ↦
          rw (findprocenv, here, test, f) (ap some (value_at name key (or_empty value) rest f))
    ]

-- A name with an `=` (before its first zero) is an error; another one gives the value of the first
-- entry of the table with that name, or nothing.
pub procenv_index-lookup :
    (tab : List (Text × Text)) (envsz : ℕ) (env : ProcEnv) (name : List ℕ)
    → newprocenv tab ≡ ok (envsz, env)
    → procenv_index env name
      ≡ (if has b'=' (c_string name) then none else some (lookup name (entries tab)))
unfolding procenv_index
procenv_index-lookup tab envsz env name h =
    let (same, envc, e) = newprocenv-ok tab envsz env h in
    rw (sym same) (elim (Bool-cases (has b'=' (c_string name))) [
      | inl bad ↦ rw bad refl
      | inr good ↦ rw good (
          ap some (
            findprocenv_lem name [] 0 tab (fillprocenv 0 tab).envv good refl refl
              (checkprocenv-AreNames 0 sizeof_pointer tab (envc, envsz) e)))
    ])
