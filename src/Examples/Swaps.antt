-- ===== src/Examples/Swaps.antt =====
-- An exchange of values on a channel (src/lchaux.c): one state gives two values, the other one gives
-- one.
use coutil.Prelude.{◌≡◌, refl, true, [], ◌∷◌, ◌++◌}
use coutil.Channel.Swap.{
  nil, boolean, integer, Stack, pushfrom, canmove, movefrom, swap_loop, swap_rest, swap_more,
  swapvalues,
}
use coutil.Channel.Swap.Laws.{received, waiting, swapvalues-received}

abbrev below : Stack
below = integer 7 ∷ []

abbrev two : Stack
two = integer 10 ∷ boolean true ∷ []

abbrev one : Stack
one = nil ∷ []

swapped : swapvalues (below ++ nil ∷ two) 1 2 (waiting [] nil (nil ∷ []) one) ≡ (
  integer 7 ∷ boolean true ∷ nil ∷ integer 2 ∷ [],
  boolean true ∷ integer 10 ∷ boolean true ∷ integer 3 ∷ [],
)
unfolding swapvalues swap_more swap_loop swap_rest pushfrom movefrom canmove
swapped = refl

swapvalues-received_example :
    swapvalues (below ++ nil ∷ [] ++ two) 1 2 (waiting [] nil (nil ∷ []) one)
    ≡ (received below one, received [] two)
swapvalues-received_example = swapvalues-received below nil [] two [] nil (nil ∷ []) one refl refl
