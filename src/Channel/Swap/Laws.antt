-- ===== src/Channel/Swap/Laws.antt =====
-- `swapvalues` of src/lchaux.c exchanges the values of two states.
use coutil.Prelude.{
  ◌==◌, append_assoc, ℕ, zero, suc, ◌+◌, ◌-◌, ◌≡◌, ◌≤◌, ◌∙◌, sym, ap, refl, true, false, [], ◌∷◌,
  ◌++◌, ltb, length, length-append, take, drop, arith, Bool-cases, inl, inr,
}
use coutil.Channel.Swap.{
  Value, boolean, integer, Stack, all_move, canmove, value_at, push, set_value, settop, replace,
  movefrom, next, swap_loop, swap_rest, swap_more, swapvalues, rest_asserts, more_asserts,
  swapvalues_asserts,
}
use coutil.Channel.Swap.Stack.{
  length-take, length-drop, take-drop, take-append, value_at_behind, set_value_behind, pop-append,
  top_values-append, settop-append, replace-push,
}
use coutil.Channel.Swap.Loop.{loop_lem}

all_move-drop : (xs : Stack) (n : ℕ) → all_move xs ≡ true → all_move (drop n xs) ≡ true
all_move-drop xs zero h = h
all_move-drop [] (suc n) h = refl
all_move-drop (x ∷ xs) (suc n) h = all_move-drop xs n (ground (arith, h))

pub movefrom-moves :
    (to from xs : Stack) (n : ℕ)
    → n ≡ length xs
    → all_move xs ≡ true
    → movefrom to (from ++ xs) n ≡ (true, to ++ xs, from)
unfolding movefrom canmove
movefrom-moves to from xs n e h =
    rw (movefrom, canmove, top_values-append from xs n e, h, pop-append from xs n e) refl

-- The marks of success, at the bottom of the values.
mark :
    (ps : Stack) (x : Value) (xs : Stack) (i : ℕ)
    → i ≡ length ps + 1
    → replace i (push (boolean true) ((ps ++ x ∷ []) ++ xs)) ≡ ps ++ boolean true ∷ xs
mark ps x xs i e =
    replace-push ((ps ++ x ∷ []) ++ xs) (boolean true) i
    ∙ ap (λ s. set_value i (boolean true) s) (append_assoc ps (x ∷ []) xs)
    ∙ set_value_behind ps x (boolean true) xs i (omega (arith, e))

-- What a state has behind an exchange: `true`, the values of the other one, and how many they are.
abbrev pub received : Stack → Stack → Stack
received ps xs = push (integer (length xs + 1)) (ps ++ boolean true ∷ xs)

-- The loop succeeds, and so does the move of what is left.
swap_loop-moves :
    (ps : Stack) (x : Value) (g xs pd : Stack) (y : Value) (h ys : Stack)
    → length ys ≤ length xs
    → all_move xs ≡ true
    → all_move ys ≡ true
    → (src1 : Stack) × (dst1 : Stack) × (src2 : Stack) × (swap_loop
          (length ps)
          (length (ps ++ x ∷ (g ++ xs)) - length xs)
          (length pd)
          (length (pd ++ y ∷ (h ++ ys)) - length ys)
          1
          (length ys)
          (ps ++ x ∷ (g ++ xs))
          (pd ++ y ∷ (h ++ ys))
        ≡ next src1 dst1)
      × (movefrom (settop (length pd + length ys + 1) dst1) src1 (length xs - length ys)
          ≡ (true, (pd ++ y ∷ []) ++ xs, src2))
      × (settop (length ps + length ys + 1) src2 ≡ (ps ++ x ∷ []) ++ ys)
swap_loop-moves ps x g xs pd y h ys le m n =
    let p = ps ++ x ∷ [] in
    let q = pd ++ y ∷ [] in
    let k = length ys in
    let tsrc : length (ps ++ x ∷ (g ++ xs)) - length xs ≡ length ps + 1 + length g =
      omega (arith, length-append ps (x ∷ (g ++ xs)), length-append g xs) in
    let tdst : length (pd ++ y ∷ (h ++ ys)) - length ys ≡ length pd + 1 + length h =
      omega (arith, length-append pd (y ∷ (h ++ ys)), length-append h ys) in
    let (g2, h2, eg, eh, loop) =
      loop_lem p g xs q h ys (length ps) (length ps + 1 + length g) (length pd)
        (length pd + 1 + length h) 1 (length-append ps (x ∷ [])) (length-append pd (y ∷ [])) refl
        refl le m n in
    let cut : settop (length pd + k + 1) (q ++ (take k xs ++ h2)) ≡ q ++ take k xs =
      ap (settop (length pd + k + 1)) (sym (append_assoc q (take k xs) h2))
      ∙ settop-append (q ++ take k xs) h2 (length pd + k + 1) (
          omega
            (arith, length-append q (take k xs), length-append pd (y ∷ []), length-take xs k le)) in
    let split : p ++ (ys ++ (g2 ++ drop k xs)) ≡ (p ++ (ys ++ g2)) ++ drop k xs =
      ap (λ s. p ++ s) (sym (append_assoc ys g2 (drop k xs)))
      ∙ sym (append_assoc p (ys ++ g2) (drop k xs)) in
    let moved =
      movefrom-moves (q ++ take k xs) (p ++ (ys ++ g2)) (drop k xs) (length xs - k)
        (sym (length-drop xs k le)) (all_move-drop xs k m) in
    let whole : (q ++ take k xs) ++ drop k xs ≡ q ++ xs =
      append_assoc q (take k xs) (drop k xs) ∙ ap (λ s. q ++ s) (take-drop xs k) in
    let rest : settop (length ps + k + 1) (p ++ (ys ++ g2)) ≡ p ++ ys =
      ap (settop (length ps + k + 1)) (sym (append_assoc p ys g2))
      ∙ settop-append (p ++ ys) g2 (length ps + k + 1)
          (omega (arith, length-append p ys, length-append ps (x ∷ []))) in
    let start : swap_loop (length ps) (length ps + 1 + length g) (length pd)
          (length pd + 1 + length h) 1 k (ps ++ x ∷ (g ++ xs)) (pd ++ y ∷ (h ++ ys))
        ≡ next (p ++ (ys ++ (g2 ++ drop k xs))) (q ++ (take k xs ++ h2)) =
      rw (sym (append_assoc ps (x ∷ []) (g ++ xs)), sym (append_assoc pd (y ∷ []) (h ++ ys)))
        loop in
    rw (tsrc, tdst)
      (
        p ++ (ys ++ (g2 ++ drop k xs)),
        q ++ (take k xs ++ h2),
        p ++ (ys ++ g2),
        start,
        rw (cut, split) (moved ∙ ap (λ s. (true, s, p ++ (ys ++ g2))) whole),
        rest,
      )

pub swap_more_lem :
    (ps : Stack) (x : Value) (g xs pd : Stack) (y : Value) (h ys : Stack)
    → length ys ≤ length xs
    → all_move xs ≡ true
    → all_move ys ≡ true
    → swap_more
        (length ps)
        (length xs)
        (length pd)
        (length ys)
        (ps ++ x ∷ (g ++ xs))
        (pd ++ y ∷ (h ++ ys))
      ≡ (received ps ys, received pd xs)
unfolding swap_more
swap_more_lem ps x g xs pd y h ys le m n =
    let (src1, dst1, src2, start, moved, rest) = swap_loop-moves ps x g xs pd y h ys le m n in
    rw (swap_more, start)
      (rw
        (
          swap_rest,
          moved,
          rest,
          mark ps x ys (length ps + 1) refl,
          mark pd y xs (length pd + 1) refl,
        )
        refl)

-- No assertion fails if both have a place above the base.
pub more_asserts_lem :
    (ps : Stack) (x : Value) (g xs pd : Stack) (y : Value) (h ys : Stack)
    → length ys ≤ length xs
    → all_move xs ≡ true
    → all_move ys ≡ true
    → more_asserts
        (length ps)
        (length xs)
        (length pd)
        (length ys)
        (ps ++ x ∷ (g ++ xs))
        (pd ++ y ∷ (h ++ ys))
      ≡ true
unfolding more_asserts
more_asserts_lem ps x g xs pd y h ys le m n =
    let (src1, dst1, src2, start, moved, rest) = swap_loop-moves ps x g xs pd y h ys le m n in
    let below : ltb (length ps) (length (ps ++ x ∷ (g ++ xs)) - length xs) ≡ true =
      ground (arith, length-append ps (x ∷ (g ++ xs)), length-append g xs) in
    let below' : ltb (length pd) (length (pd ++ y ∷ (h ++ ys)) - length ys) ≡ true =
      ground (arith, length-append pd (y ∷ (h ++ ys)), length-append h ys) in
    let size : (length (ps ++ boolean true ∷ ys) == length ps + length ys + 1) ≡ true =
      ground (arith, length-append ps (boolean true ∷ ys)) in
    let size' : (length (pd ++ boolean true ∷ xs) == length pd + length xs + 1) ≡ true =
      ground (arith, length-append pd (boolean true ∷ xs)) in
    rw (more_asserts, start, below, below')
      (rw
        (
          rest_asserts,
          moved,
          rest,
          mark ps x ys (length ps + 1) refl,
          mark pd y xs (length pd + 1) refl,
          size,
          size',
        )
        (ground arith))

less : {a b : ℕ} → ltb a b ≡ true → a ≤ b
less e = ground arith

not_less : {a b : ℕ} → ltb a b ≡ false → b ≤ a
not_less e = ground arith

-- The values of a state that waits, under its base and their number.
abbrev pub waiting : Stack → Value → Stack → Stack → Stack
waiting pd y h ys = (pd ++ y ∷ (h ++ ys)) ++ integer (length pd) ∷ integer (length ys) ∷ []

-- If all values can be moved, each of two states that meet gets `true` and the values of the other
-- one in their order, however many there are on either side and wherever they stand above the bases
-- (at least one place above), and its stack below the base stays.
pub swapvalues-received :
    (ps : Stack) (x : Value) (g xs pd : Stack) (y : Value) (h ys : Stack)
    → all_move xs ≡ true
    → all_move ys ≡ true
    → swapvalues (ps ++ x ∷ (g ++ xs)) (length ps) (length xs) (waiting pd y h ys)
      ≡ (received ps ys, received pd xs)
unfolding swapvalues
swapvalues-received ps x g xs pd y h ys m n =
    let dst = pd ++ y ∷ (h ++ ys) in
    let two = integer (length pd) ∷ integer (length ys) ∷ [] in
    let size : length (dst ++ two) ≡ length dst + 2 = length-append dst two in
    let base : value_at (dst ++ two) (length dst + 2 - 1) ≡ integer (length pd) =
      value_at_behind dst (integer (length pd)) (integer (length ys) ∷ []) (length dst + 2 - 1)
        (omega arith) in
    let narg : value_at (dst ++ two) (length dst + 2) ≡ integer (length ys) =
      ap (λ s. value_at s (length dst + 2))
        (sym (append_assoc dst (integer (length pd) ∷ []) (integer (length ys) ∷ [])))
      ∙ value_at_behind (dst ++ integer (length pd) ∷ []) (integer (length ys)) [] (length dst + 2)
          (omega (arith, length-append dst (integer (length pd) ∷ []))) in
    let rest : take (length dst + 2 - 2) (dst ++ two) ≡ dst =
      take-append dst two (length dst + 2 - 2) (omega arith) in
    elim (Bool-cases (ltb (length xs) (length ys))) [
      | inl e ↦
          rw (swapvalues, size, base, narg, rest, e, swap_more_lem pd y h ys ps x g xs (less e) n m)
            refl
      | inr e ↦
          rw
            (
              swapvalues,
              size,
              base,
              narg,
              rest,
              e,
              swap_more_lem ps x g xs pd y h ys (not_less e) m n,
            )
            refl
    ]

-- Nor does any assertion of the exchange fail then.
pub swapvalues_asserts-received :
    (ps : Stack) (x : Value) (g xs pd : Stack) (y : Value) (h ys : Stack)
    → all_move xs ≡ true
    → all_move ys ≡ true
    → swapvalues_asserts (ps ++ x ∷ (g ++ xs)) (length ps) (length xs) (waiting pd y h ys) ≡ true
unfolding swapvalues_asserts
swapvalues_asserts-received ps x g xs pd y h ys m n =
    let dst = pd ++ y ∷ (h ++ ys) in
    let two = integer (length pd) ∷ integer (length ys) ∷ [] in
    let size : length (dst ++ two) ≡ length dst + 2 = length-append dst two in
    let base : value_at (dst ++ two) (length dst + 2 - 1) ≡ integer (length pd) =
      value_at_behind dst (integer (length pd)) (integer (length ys) ∷ []) (length dst + 2 - 1)
        (omega arith) in
    let narg : value_at (dst ++ two) (length dst + 2) ≡ integer (length ys) =
      ap (λ s. value_at s (length dst + 2))
        (sym (append_assoc dst (integer (length pd) ∷ []) (integer (length ys) ∷ [])))
      ∙ value_at_behind (dst ++ integer (length pd) ∷ []) (integer (length ys)) [] (length dst + 2)
          (omega (arith, length-append dst (integer (length pd) ∷ []))) in
    let rest : take (length dst + 2 - 2) (dst ++ two) ≡ dst =
      take-append dst two (length dst + 2 - 2) (omega arith) in
    elim (Bool-cases (ltb (length xs) (length ys))) [
      | inl e ↦
          rw (swapvalues_asserts, size, base, narg, rest, e)
            (more_asserts_lem pd y h ys ps x g xs (less e) n m)
      | inr e ↦
          rw (swapvalues_asserts, size, base, narg, rest, e)
            (more_asserts_lem ps x g xs pd y h ys (not_less e) m n)
    ]
