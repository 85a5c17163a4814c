-- ===== src/Process/Args.antt =====
-- The arguments of a process: the array `args` of `getprocopts` (src/lprocesf.c).
use coutil.Prelude.{
  append_assoc, ℕ, zero, suc, ◌+◌, ◌-◌, ◌≡◌, ◌<◌, ◌∙◌, sym, ap, refl, Option, none, some, List, [],
  ◌∷◌, ◌++◌, ltb, length, length-append, map, if◌then◌else◌, arith, Bool-cases, Option-cases, inl,
  inr,
}
use coutil.Process.{Outcome, ok, error, undefined, Text}

abbrev pub execargcount : ℕ
execargcount = 255

-- A place of the array.
pub data Slot : Type 0 where
  unset : Slot
  null : Slot
  str : List ℕ → Slot

-- The field `arguments`: a table with as many entries as it has for `lua_len`, or a value of another
-- type.
pub data ArgumentsField : Type 0 where
  absent : ArgumentsField
  list : List Text → ArgumentsField
  other : ArgumentsField

-- What `system.execute` is called with: the texts that `lua_tostring` gives.
pub data Command : Type 0 where
  strings : List Text → Command
  options : (execfile : Text) → ArgumentsField → Command

abbrev pub unsets : ℕ → List Slot
unsets zero = []
unsets (suc n) = unset ∷ unsets n

-- The array on the stack, or a new one of `argc + 1` places.
abbrev pub new_args : ℕ → List Slot
new_args argc = if ltb execargcount argc then unsets (argc + 1) else unsets (execargcount + 1)

-- `args[i] = x`; `none` if it is behind the array.
abbrev pub store : ℕ → Slot → List Slot → Option (List Slot)
store i x [] = none
store zero x (y ∷ args) = some (x ∷ args)
store (suc i) x (y ∷ args) = elim (store i x args) [ none ↦ none | some args' ↦ some (y ∷ args') ]

abbrev pub stored : Option (List Slot) → Outcome (List Slot)
stored none = undefined
stored (some args) = ok args

-- The loops over the texts, from the place `i`. Both branches of the last one fail where a text is
-- a null pointer.
unfoldable pub store_args : ℕ → List Text → List Slot → Outcome (List Slot)
store_args i [] args = ok args
store_args i (none ∷ texts) args = error
store_args i (some s ∷ texts) args = elim (store i (str s) args) [
  | none ↦ undefined
  | some args' ↦ store_args (i + 1) texts args'
]

-- `args[0] = file`, where that is behind the loop, and `args[argc] = NULL`.
abbrev pub close_args : ℕ → Outcome (List Slot) → Outcome (List Slot)
close_args argc error = error
close_args argc undefined = undefined
close_args argc (ok args) = stored (store argc null args)

abbrev pub set_file : List ℕ → Outcome (List Slot) → Outcome (List Slot)
set_file file error = error
set_file file undefined = undefined
set_file file (ok args) = stored (store 0 (str file) args)

-- The array that `getprocopts` makes.
unfoldable pub getprocargs : Command → Outcome (List Slot)
unfolding store_args
getprocargs (strings texts) =
    close_args (length texts) (store_args 0 texts (new_args (length texts)))
getprocargs (options none arguments) = error
getprocargs (options (some file) absent) = close_args 0 (set_file file (ok (new_args 0)))
getprocargs (options (some file) (list texts)) =
    let argc = 1 + length texts in
    close_args argc (set_file file (store_args 1 texts (new_args argc)))
getprocargs (options (some file) other) = error

-- What the process gets: the texts up to the null pointer, or `none` if it would read a place that
-- is not set.
unfoldable pub argv : List Slot → Option (List (List ℕ))
argv [] = none
argv (unset ∷ args) = none
argv (null ∷ args) = some []
argv (str s ∷ args) = elim (argv args) [ none ↦ none | some texts ↦ some (s ∷ texts) ]

-- The texts, if none is a null pointer.
abbrev pub all_texts : List Text → Option (List (List ℕ))
all_texts [] = some []
all_texts (none ∷ texts) = none
all_texts (some s ∷ texts) = elim (all_texts texts) [ none ↦ none | some ss ↦ some (s ∷ ss) ]

-- The arguments of a command: with options but no field `arguments` there are none, not even the
-- name of the program.
abbrev pub arguments_of : Command → Option (List (List ℕ))
arguments_of (strings texts) = all_texts texts
arguments_of (options none arguments) = none
arguments_of (options (some file) absent) = some []
arguments_of (options (some file) (list texts)) = all_texts (some file ∷ texts)
arguments_of (options (some file) other) = none

abbrev pub Passes : Outcome (List Slot) → Option (List (List ℕ)) → Type 0
Passes o none = o ≡ error
Passes o (some texts) = (args : List Slot) × (o ≡ ok args) × (argv args ≡ some texts)

store-behind :
    (pre : List Slot) (x y : Slot) (rest : List Slot)
    → store (length pre) x (pre ++ y ∷ rest) ≡ some (pre ++ x ∷ rest)
store-behind [] x y rest = refl
store-behind (z ∷ pre) x y rest = rw (store-behind pre x y rest) refl

-- The loop fills as many places as there are texts.
store_args_lem :
    (pre : List Slot) (texts : List Text) (i n : ℕ)
    → i ≡ length pre
    → length texts < n
    → store_args i texts (pre ++ unsets n) ≡ elim (all_texts texts) [
      | none ↦ error
      | some ss ↦ ok (pre ++ (map str ss ++ unsets (n - length texts)))
    ]
unfolding store_args
store_args_lem pre [] i n e h = let all : n - 0 ≡ n = omega arith in rw all refl
store_args_lem pre (none ∷ texts) i n e h = refl
store_args_lem pre (some s ∷ texts) i zero e h = absurd (omega arith)
store_args_lem pre (some s ∷ texts) i (suc n) e h =
    let here : store i (str s) (pre ++ unset ∷ unsets n) ≡ some ((pre ++ str s ∷ []) ++ unsets n) =
      rw e (
        store-behind pre (str s) unset (unsets n)
        ∙ ap some (sym (append_assoc pre (str s ∷ []) (unsets n)))) in
    let rec =
      store_args_lem (pre ++ str s ∷ []) texts (i + 1) n
        (sym (length-append pre (str s ∷ []) ∙ omega (arith, e))) (omega arith) in
    let left : suc n - suc (length texts) ≡ n - length texts = omega arith in
    rw (store_args, here, rec)
      (elim (Option-cases (all_texts texts)) [
        | inl f ↦ rw f refl
        | inr (ss, f) ↦
            rw (f, left)
              (ap ok (append_assoc pre (str s ∷ []) (map str ss ++ unsets (n - length texts))))
      ])

argv-closed : (ss : List (List ℕ)) (rest : List Slot) → argv (map str ss ++ null ∷ rest) ≡ some ss
unfolding argv
argv-closed [] rest = refl
argv-closed (s ∷ ss) rest = rw (argv-closed ss rest) refl

new_args_lem : (argc : ℕ) → (n : ℕ) × (new_args argc ≡ unsets n) × (argc < n)
new_args_lem argc = elim (Bool-cases (ltb execargcount argc)) [
  | inl e ↦ (argc + 1, rw e refl, omega arith)
  | inr e ↦ (execargcount + 1, rw e refl, ground arith)
]

all_texts-length :
    (texts : List Text) (ss : List (List ℕ))
    → all_texts texts ≡ some ss
    → length (map str ss) ≡ length texts
all_texts-length [] ss h = let e : [] ≡ ss = cc in rw (sym e) refl
all_texts-length (none ∷ texts) ss h = cc
all_texts-length (some s ∷ texts) ss h = elim (Option-cases (all_texts texts)) [
  | inl e ↦ let f : none ≡ some ss = rw (all_texts, e) at h in cc
  | inr (rest, e) ↦
      let f : some (s ∷ rest) ≡ some ss = rw (all_texts, e) at h in
      let same : s ∷ rest ≡ ss = cc in rw (sym same) (omega (arith, all_texts-length texts rest e))
]

-- The null pointer behind the texts.
close_args_lem :
    (ss : List (List ℕ)) (argc k : ℕ)
    → argc ≡ length (map str ss)
    → 0 < k
    → Passes (close_args argc (ok (map str ss ++ unsets k))) (some ss)
close_args_lem ss argc zero e h = absurd (omega arith)
close_args_lem ss argc (suc k) e h = (
  map str ss ++ null ∷ unsets k,
  rw (close_args, e, store-behind (map str ss) null unset (unsets k)) refl,
  argv-closed ss (unsets k),
)

-- No write is behind the array, the call fails exactly if a text is a null pointer, and otherwise the
-- process gets the texts of the command up to the null pointer: none at all if there are options
-- but no field `arguments`.
pub getprocargs-arguments_of :
    (command : Command) → Passes (getprocargs command) (arguments_of command)
unfolding getprocargs argv
getprocargs-arguments_of (strings texts) =
    let (n, e, lt) = new_args_lem (length texts) in
    let loop = store_args_lem [] texts 0 n refl lt in
    elim (Option-cases (all_texts texts)) [
      | inl f ↦ rw (getprocargs, e, loop, f) refl
      | inr (ss, f) ↦
          rw (getprocargs, e, loop, f)
            (close_args_lem ss (length texts) (n - length texts) (sym (all_texts-length texts ss f))
              (omega arith))
    ]
getprocargs-arguments_of (options none arguments) = refl
getprocargs-arguments_of (options (some file) absent) = (null ∷ unsets execargcount, refl, refl)
getprocargs-arguments_of (options (some file) (list texts)) =
    let (n, e, lt) = new_args_lem (1 + length texts) in
    let n' = n - 1 in
    let more : n ≡ suc n' = omega arith in
    let loop = store_args_lem (unset ∷ []) texts 1 n' refl (omega arith) in
    elim (Option-cases (all_texts texts)) [
      | inl f ↦ rw (getprocargs, e, more, loop, f) refl
      | inr (ss, f) ↦
          rw (getprocargs, e, more, loop, f)
            (close_args_lem (file ∷ ss) (1 + length texts) (n' - length texts)
              (omega (arith, all_texts-length texts ss f)) (omega arith))
    ]
getprocargs-arguments_of (options (some file) other) = refl
