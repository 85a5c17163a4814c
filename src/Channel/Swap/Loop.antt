-- ===== src/Channel/Swap/Loop.antt =====
-- The loop of `swapvalues` of src/lchaux.c, in place on both stacks.
use coutil.Prelude.{
  append_assoc, ℕ, suc, ◌+◌, ◌≡◌, ◌≤◌, ◌∙◌, sym, ap, refl, true, [], ◌∷◌, ◌++◌, length,
  length-append, take, drop, arith,
}
use coutil.Channel.Swap.{
  Value, Stack, moves, all_move, value_at, push, set_value, pushfrom, next, swap_loop,
}
use coutil.Channel.Swap.Stack.{append_nil, value_at_behind, set_value_behind, replace-push}

-- The values between those that are placed and those that are still to be read.
abbrev window : Stack → Value → Stack
window [] a = []
window (y ∷ g) a = g ++ a ∷ []

length-window : (g : Stack) (a : Value) → length (window g a) ≡ length g
length-window [] a = refl
length-window (y ∷ g) a = length-append g (a ∷ []) ∙ omega arith

-- A value is placed, and one is passed on.
placed :
    (p g : Stack) (a v : Value) (rest : Stack) (i : ℕ)
    → i ≡ suc (length p)
    → set_value i v (p ++ (g ++ a ∷ rest)) ≡ (p ++ v ∷ []) ++ (window g a ++ rest)
placed p [] a v rest i e = set_value_behind p a v rest i e ∙ sym (append_assoc p (v ∷ []) rest)
placed p (y ∷ g) a v rest i e =
    set_value_behind p y v (g ++ a ∷ rest) i e
    ∙ ap (λ s. p ++ v ∷ s) (sym (append_assoc g (a ∷ []) rest))
    ∙ sym (append_assoc p (v ∷ []) ((g ++ a ∷ []) ++ rest))

read_at :
    (p g : Stack) (a : Value) (rest : Stack) (i : ℕ)
    → i ≡ suc (length p + length g)
    → value_at (p ++ (g ++ a ∷ rest)) i ≡ a
read_at p g a rest i e =
    ap (λ s. value_at s i) (sym (append_assoc p g (a ∷ rest)))
    ∙ value_at_behind (p ++ g) a rest i (omega (arith, e, length-append p g))

pushfrom-moves : (to : Stack) (v : Value) → moves v ≡ true → pushfrom to v ≡ (true, push v to)
unfolding pushfrom
pushfrom-moves to v h = rw h refl

pub loop_lem :
    (ps g xs pd h ys : Stack) (bsrc tsrc bdst tdst i : ℕ)
    → length ps ≡ bsrc + i
    → length pd ≡ bdst + i
    → tsrc ≡ bsrc + 1 + length g
    → tdst ≡ bdst + 1 + length h
    → length ys ≤ length xs
    → all_move xs ≡ true
    → all_move ys ≡ true
    → (g2 h2 : Stack) × (length g2 ≡ length g)
      × (length h2 ≡ length h)
      × (swap_loop bsrc tsrc bdst tdst i (length ys) (ps ++ (g ++ xs)) (pd ++ (h ++ ys))
          ≡ next (ps ++ (ys ++ (g2 ++ drop (length ys) xs))) (pd ++ (take (length ys) xs ++ h2)))
unfolding swap_loop
loop_lem ps g xs pd h [] bsrc tsrc bdst tdst i e1 e2 e3 e4 le m n =
    (g, h, refl, refl, rw (append_nil h) refl)
loop_lem ps g [] pd h (d ∷ ys) bsrc tsrc bdst tdst i e1 e2 e3 e4 le m n = absurd (omega (arith, le))
loop_lem ps g (a ∷ xs) pd h (d ∷ ys) bsrc tsrc bdst tdst i e1 e2 e3 e4 le m n =
    let src = ps ++ (g ++ a ∷ xs) in
    let dst = pd ++ (h ++ d ∷ ys) in
    let move_a : moves a ≡ true = ground (arith, m) in
    let move_d : moves d ≡ true = ground (arith, n) in
    let read_d : value_at dst (tdst + i) ≡ d =
      read_at pd h d ys (tdst + i) (omega (arith, e2, e4)) in
    let read_a : value_at (push d src) (tsrc + i) ≡ a =
      ap (λ s. value_at s (tsrc + i))
        (append_assoc ps (g ++ a ∷ xs) (d ∷ [])
          ∙ ap (λ s. ps ++ s) (append_assoc g (a ∷ xs) (d ∷ [])))
      ∙ read_at ps g a (xs ++ d ∷ []) (tsrc + i) (omega (arith, e1, e3)) in
    let (g2, h2, eg, eh, rec) =
      loop_lem (ps ++ d ∷ []) (window g a) xs (pd ++ a ∷ []) (window h d) ys bsrc tsrc bdst tdst
        (i + 1) (length-append ps (d ∷ []) ∙ omega (arith, e1))
        (length-append pd (a ∷ []) ∙ omega (arith, e2)) (omega (arith, e3, length-window g a))
        (omega (arith, e4, length-window h d)) (omega (arith, le)) (ground (arith, m))
        (ground (arith, n)) in
    (
      g2,
      h2,
      eg ∙ length-window g a,
      eh ∙ length-window h d,
      rw
          (
            swap_loop,
            read_d,
            pushfrom-moves src d move_d,
            read_a,
            pushfrom-moves dst a move_a,
            replace-push src d (bsrc + i + 1),
            replace-push dst a (bdst + i + 1),
            placed ps g a d xs (bsrc + i + 1) (omega (arith, e1)),
            placed pd h d a ys (bdst + i + 1) (omega (arith, e2)),
            rec,
            append_assoc ps (d ∷ []) (ys ++ (g2 ++ drop (length ys) xs)),
            append_assoc pd (a ∷ []) (take (length ys) xs ++ h2),
          )
          refl,
    )
