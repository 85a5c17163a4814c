-- ===== src/Channel/Swap/Errors.antt =====
-- What two states get if a value cannot be moved (`pusherrfrom` of src/lchaux.c).
use coutil.Prelude.{
  append_assoc, ◌+◌, ◌≡◌, ◌∙◌, sym, refl, false, [], ◌∷◌, ◌++◌, length, length-append, arith,
}
use coutil.Channel.Swap.{
  Value, boolean, integer, Stack, value_at, push, settop, replace, pushfrom, pusherrfrom,
}
use coutil.Channel.Swap.Stack.{
  take-append, drop-append, value_at_behind, set_value_behind, settop-append, replace-push,
}

-- The state where a value could not be pushed gets `false` and the message that is on its top. The
-- other one gets `false` and the number of results, 2, in place of the message.
pusherrfrom-message :
    (pl l pf : Stack) (z : Value) (rest : Stack) (msg : Value)
    → pusherrfrom (pl ++ l) (length pl) (push msg (pf ++ z ∷ rest)) (length pf) ≡ (
      pl ++ boolean false ∷ integer 2 ∷ integer 2 ∷ [],
      pf ++ boolean false ∷ msg ∷ integer 2 ∷ [],
    )
unfolding pusherrfrom pushfrom
pusherrfrom-message pl l pf z rest msg =
    let put : replace (length pf + 1) (push msg (pf ++ z ∷ rest)) ≡ (pf ++ msg ∷ []) ++ rest =
      replace-push (pf ++ z ∷ rest) msg (length pf + 1)
      ∙ set_value_behind pf z msg rest (length pf + 1) (omega arith)
      ∙ sym (append_assoc pf (msg ∷ []) rest) in
    let cut : settop (length pf + 1) ((pf ++ msg ∷ []) ++ rest) ≡ pf ++ msg ∷ [] =
      settop-append (pf ++ msg ∷ []) rest (length pf + 1) (sym (length-append pf (msg ∷ []))) in
    let first = take-append pf (msg ∷ []) (length pf) refl in
    let behind = drop-append pf (msg ∷ []) (length pf) refl in
    let two = pf ++ boolean false ∷ msg ∷ [] in
    let last : value_at (push (integer 2) two) (length (push (integer 2) two)) ≡ integer 2 =
      value_at_behind two (integer 2) [] (length (push (integer 2) two))
        (length-append two (integer 2 ∷ []) ∙ omega arith) in
    rw
      (
        pusherrfrom,
        put,
        cut,
        first,
        behind,
        settop-append pl l (length pl) refl,
        last,
        append_assoc pl (boolean false ∷ []) (integer 2 ∷ []),
        append_assoc pl (boolean false ∷ integer 2 ∷ []) (integer 2 ∷ []),
        append_assoc pf (boolean false ∷ msg ∷ []) (integer 2 ∷ []),
      )
      refl
