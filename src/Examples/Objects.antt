-- ===== src/Examples/Objects.antt =====
-- An object of src/loperaux.c that is closed while a coroutine waits for it.
use coutil.Prelude.{◌≡◌, refl, true, false, none, ◌+◌, arith}
use coutil.Object.{UdataHandle, closeudhdl, k_endudhdlk_halted, stopudhdl}
use coutil.Object.Stops.{IsBalanced, close, happen, happen-IsBalanced, is_some, result}

abbrev waits : UdataHandle
waits = record {
  handle_closed = false;
  started = true;
  waiting = true;
  saved = true;
  nactive = 6;
  in_callback = false;
}

waits-IsBalanced : IsBalanced 5 waits
waits-IsBalanced = ground arith

happen-IsBalanced_example :
    (is_some (happen (close false) waits) ≡ true)
    × IsBalanced 5 (result (happen (close false) waits) waits)
happen-IsBalanced_example = happen-IsBalanced 5 waits (close false) waits-IsBalanced refl

abbrev waits_again : UdataHandle
waits_again = record waits { in_callback = true }

waits_again-IsBalanced : IsBalanced (4 + 1) waits_again
waits_again-IsBalanced = ground arith

-- Where the coroutine cannot be stopped, the handle is closed twice.
closed_twice : happen (close true) waits ≡ none
unfolding happen closeudhdl k_endudhdlk_halted stopudhdl
closed_twice = refl
