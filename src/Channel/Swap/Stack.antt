-- ===== src/Channel/Swap/Stack.antt =====
-- What the functions of the stack do to a stack that is given in parts.
use coutil.Prelude.{
  ℕ, zero, suc, ◌-◌, ◌≡◌, ◌≤◌, ◌∙◌, ap, refl, [], ◌∷◌, ◌++◌, length, length-append, take, drop,
  arith,
}
use coutil.Channel.Swap.{Value, Stack, value_at, push, set_value, pop, settop, replace, top_values}

pub append_nil : (xs : Stack) → xs ++ [] ≡ xs
append_nil [] = refl
append_nil (x ∷ xs) = ap (λ s. x ∷ s) (append_nil xs)

pub take-append : (xs ys : Stack) (n : ℕ) → n ≡ length xs → take n (xs ++ ys) ≡ xs
take-append [] ys n e = rw e refl
take-append (x ∷ xs) ys zero e = absurd (omega (arith, e))
take-append (x ∷ xs) ys (suc n) e = ap (λ s. x ∷ s) (take-append xs ys n (omega (arith, e)))

pub drop-append : (xs ys : Stack) (n : ℕ) → n ≡ length xs → drop n (xs ++ ys) ≡ ys
drop-append [] ys n e = rw e refl
drop-append (x ∷ xs) ys zero e = absurd (omega (arith, e))
drop-append (x ∷ xs) ys (suc n) e = drop-append xs ys n (omega (arith, e))

pub value_at_behind :
    (pre : Stack) (v : Value) (rest : Stack) (i : ℕ)
    → i ≡ suc (length pre)
    → value_at (pre ++ v ∷ rest) i ≡ v
value_at_behind [] v rest i e = rw e refl
value_at_behind (x ∷ pre) v rest zero e = absurd (omega (arith, e))
value_at_behind (x ∷ pre) v rest (suc zero) e = absurd (omega (arith, e))
value_at_behind (x ∷ pre) v rest (suc (suc i)) e =
    value_at_behind pre v rest (suc i) (omega (arith, e))

pub set_value_behind :
    (pre : Stack) (v w : Value) (rest : Stack) (i : ℕ)
    → i ≡ suc (length pre)
    → set_value i w (pre ++ v ∷ rest) ≡ pre ++ w ∷ rest
set_value_behind [] v w rest i e = rw e refl
set_value_behind (x ∷ pre) v w rest zero e = absurd (omega (arith, e))
set_value_behind (x ∷ pre) v w rest (suc zero) e = absurd (omega (arith, e))
set_value_behind (x ∷ pre) v w rest (suc (suc i)) e =
    ap (λ s. x ∷ s) (set_value_behind pre v w rest (suc i) (omega (arith, e)))

pub pop-append : (xs ys : Stack) (n : ℕ) → n ≡ length ys → pop n (xs ++ ys) ≡ xs
pop-append xs ys n e =
    take-append xs ys (length (xs ++ ys) - n) (omega (arith, e, length-append xs ys))

pub top_values-append : (xs ys : Stack) (n : ℕ) → n ≡ length ys → top_values n (xs ++ ys) ≡ ys
top_values-append xs ys n e =
    drop-append xs ys (length (xs ++ ys) - n) (omega (arith, e, length-append xs ys))

pub settop-append : (xs ys : Stack) (n : ℕ) → n ≡ length xs → settop n (xs ++ ys) ≡ xs
settop-append xs ys n e =
    let none_ : n - length (xs ++ ys) ≡ 0 = omega (arith, e, length-append xs ys) in
    rw (settop, take-append xs ys n e, none_) (append_nil xs)

pub replace-push : (s : Stack) (v : Value) (i : ℕ) → replace i (push v s) ≡ set_value i v s
replace-push s v i =
    rw
      (
        replace,
        value_at_behind s v [] (length (push v s)) (length-append s (v ∷ []) ∙ omega arith),
        pop-append s (v ∷ []) 1 refl,
      )
      refl

pub length-take : (xs : Stack) (n : ℕ) → n ≤ length xs → length (take n xs) ≡ n
length-take xs zero h = refl
length-take [] (suc n) h = absurd (omega (arith, h))
length-take (x ∷ xs) (suc n) h = omega (arith, length-take xs n (omega (arith, h)))

pub length-drop : (xs : Stack) (n : ℕ) → n ≤ length xs → length (drop n xs) ≡ length xs - n
length-drop xs zero h = omega arith
length-drop [] (suc n) h = absurd (omega (arith, h))
length-drop (x ∷ xs) (suc n) h = omega (arith, length-drop xs n (omega (arith, h)))

pub take-drop : (xs : Stack) (n : ℕ) → take n xs ++ drop n xs ≡ xs
take-drop xs zero = refl
take-drop [] (suc n) = refl
take-drop (x ∷ xs) (suc n) = ap (λ s. x ∷ s) (take-drop xs n)
