-- ===== src/Process/Signals.antt =====
-- The names of signals (src/lprocesf.c), on a platform that defines all of them.
use Prim.Native.Char.{code}
use Prim.Native.String.{String}
use coutil.Prelude.{
  ℕ, ◌+◌, ◌≡◌, refl, Bool, true, false, ◌&&◌, ◌||◌, not, Option, none, some, List, [], ◌∷◌, ◌==◌,
  ==_iff, ap, ◌∙◌, has, drop, if◌then◌else◌, arith, Bool-cases, inl, inr,
}
use coutil.Process.{c_string, eq_text}

-- The bytes of a text.
abbrev pub codes : String → List ℕ
codes String.[] = []
codes (String.◌∷◌ c s) = code c ∷ codes s

abbrev pub signal_names : List (List ℕ)
signal_names =
    codes "TERMINATE"
    ∷ codes "STOP"
    ∷ codes "interrupt"
    ∷ codes "terminate"
    ∷ codes "stop"
    ∷ codes "continue"
    ∷ codes "hangup"
    ∷ codes "stdinoff"
    ∷ codes "stdoutoff"
    ∷ codes "winresize"
    ∷ codes "quit"
    ∷ codes "child"
    ∷ codes "abort"
    ∷ codes "brokenpipe"
    ∷ codes "urgentsock"
    ∷ codes "userdef1"
    ∷ codes "userdef2"
    ∷ codes "trap"
    ∷ codes "filelimit"
    ∷ codes "clocktime"
    ∷ codes "cpulimit"
    ∷ codes "cputotal"
    ∷ codes "cputime"
    ∷ codes "polling"
    ∷ codes "sysargerr"
    ∷ codes "break"
    ∷ []

abbrev pub catchable_index : ℕ
catchable_index = 2

abbrev pub number_from : (ℕ → ℕ) → ℕ → List (List ℕ) → List (List ℕ × ℕ)
number_from value i [] = []
number_from value i (name ∷ names) = (name, value i) ∷ number_from value (i + 1) names

-- The table `signals`, where `value` has the constants of the platform: `SIGKILL`, `SIGSTOP` and so
-- on, in the order of the names.
abbrev pub signals : (value : ℕ → ℕ) → List (List ℕ × ℕ)
signals value = number_from value 0 signal_names

-- The loops of `pushsignal` and of `checksignal`.
unfoldable pub find_name : List (List ℕ × ℕ) → (signum : ℕ) → List ℕ
find_name [] signum = codes "signal"
find_name ((name, v) ∷ table) signum = if v == signum then name else find_name table signum

unfoldable pub find_value : List (List ℕ × ℕ) → (name : List ℕ) → Option ℕ
find_value [] name = none
find_value ((n, v) ∷ table) name = if eq_text n name then some v else find_value table name

-- `pushsignal`: the name that it pushes before the number.
unfoldable pub pushsignal : (value : ℕ → ℕ) → ℕ → List ℕ
pushsignal value signum = find_name (signals value) signum

-- `checksignal`; `none` is an error.
unfoldable pub checksignal : (value : ℕ → ℕ) → (catch : Bool) → List ℕ → Option ℕ
checksignal value catch name =
    find_value (if catch then drop catchable_index (signals value) else signals value)
      (c_string name)

abbrev pub knows : List (List ℕ × ℕ) → ℕ → Bool
knows [] signum = false
knows ((name, v) ∷ table) signum = (v == signum) || knows table signum

-- Which signals can be given: all of the table, or those that can be caught.
abbrev pub accepts : (value : ℕ → ℕ) → (catch : Bool) → ℕ → Bool
accepts value false signum = knows (signals value) signum
accepts value true signum =
    not (value 0 == signum)
    && not (value 1 == signum)
    && knows (drop catchable_index (signals value)) signum

-- No entry behind has the name, and it is not that of an unknown signal.
abbrev fresh : List ℕ → List (List ℕ × ℕ) → Bool
fresh name [] = not (eq_text name (codes "signal"))
fresh name ((n, v) ∷ table) = not (eq_text name n) && fresh name table

abbrev all_fresh : List (List ℕ × ℕ) → Bool
all_fresh [] = true
all_fresh ((name, v) ∷ table) = fresh name table && all_fresh table

eq_text_refl : (s : List ℕ) → eq_text s s ≡ true
eq_text_refl [] = refl
eq_text_refl (c ∷ s) = ground (arith, eq_text_refl s)

eq_text_sym : (s t : List ℕ) → eq_text s t ≡ eq_text t s
eq_text_sym [] [] = refl
eq_text_sym [] (d ∷ t) = refl
eq_text_sym (c ∷ s) [] = refl
eq_text_sym (c ∷ s) (d ∷ t) = ground (arith, eq_text_sym s t)

c_string-plain : (s : List ℕ) → has 0 s ≡ false → c_string s ≡ s
c_string-plain [] h = refl
c_string-plain (c ∷ s) h = ground (arith, c_string-plain s)

abbrev all_plain : List (List ℕ × ℕ) → Bool
all_plain [] = true
all_plain ((name, v) ∷ table) = not (has 0 name) && all_plain table

find_name-plain :
    (table : List (List ℕ × ℕ)) (signum : ℕ)
    → all_plain table ≡ true
    → c_string (find_name table signum) ≡ find_name table signum
unfolding find_name
find_name-plain [] signum h = refl
find_name-plain ((name, v) ∷ table) signum h =
    ground (arith, c_string-plain name, find_name-plain table signum)

fresh-find_name :
    (name : List ℕ) (table : List (List ℕ × ℕ)) (signum : ℕ)
    → fresh name table ≡ true
    → eq_text name (find_name table signum) ≡ false
unfolding find_name
fresh-find_name name [] signum h = ground arith
fresh-find_name name ((n, v) ∷ table) signum h = ground (arith, fresh-find_name name table signum)

fresh-find_value :
    (name : List ℕ) (table : List (List ℕ × ℕ))
    → fresh name table ≡ true
    → find_value table name ≡ none
unfolding find_value
fresh-find_value name [] h = refl
fresh-find_value name ((n, v) ∷ table) h =
    ground (arith, fresh-find_value name table, eq_text_sym name n)

find_value-find_name :
    (table : List (List ℕ × ℕ)) (signum : ℕ)
    → all_fresh table ≡ true
    → find_value table (find_name table signum) ≡ (if knows table signum then some signum else none)
unfolding find_value find_name
find_value-find_name [] signum h = refl
find_value-find_name ((name, v) ∷ table) signum h = elim (Bool-cases (v == signum)) [
  | inl e ↦
      let same : v ≡ signum = (==_iff v signum).0 e in rw (e, eq_text_refl name) (ap some same)
  | inr e ↦
      rw (e, fresh-find_name name table signum (ground arith))
        (find_value-find_name table signum (ground arith))
]

-- The names of the signals that can be caught, behind the first two.
find_value-find_name_behind :
    (n0 n1 : List ℕ) (v0 v1 : ℕ) (table : List (List ℕ × ℕ)) (signum : ℕ)
    → all_fresh ((n0, v0) ∷ (n1, v1) ∷ table) ≡ true
    → find_value table (find_name ((n0, v0) ∷ (n1, v1) ∷ table) signum) ≡ (
        if not (v0 == signum) && not (v1 == signum) && knows table signum
        then some signum
        else none)
unfolding find_name
find_value-find_name_behind n0 n1 v0 v1 table signum h = elim (Bool-cases (v0 == signum)) [
  | inl e ↦ rw e (fresh-find_value n0 table (ground arith))
  | inr e ↦ elim (Bool-cases (v1 == signum)) [
    | inl f ↦ rw (e, f) (fresh-find_value n1 table (ground arith))
    | inr f ↦ rw (e, f) (find_value-find_name table signum (ground arith))
  ]
]

-- A signal that `pushsignal` reports is accepted by its name, as the same number, exactly if it is in
-- the table and, where it has to be one that can be caught, is neither `SIGKILL` nor `SIGSTOP`.
checksignal-pushsignal :
    (value : ℕ → ℕ) (catch : Bool) (signum : ℕ)
    → checksignal value catch (pushsignal value signum)
      ≡ (if accepts value catch signum then some signum else none)
unfolding checksignal pushsignal
checksignal-pushsignal value false signum =
    ap (λ s. find_value (signals value) s) (find_name-plain (signals value) signum refl)
    ∙ find_value-find_name (signals value) signum refl
checksignal-pushsignal value true signum =
    let table = drop catchable_index (signals value) in
    ap (λ s. find_value table s) (find_name-plain (signals value) signum refl)
    ∙ find_value-find_name_behind (codes "TERMINATE") (codes "STOP") (value 0) (value 1) table
        signum refl
