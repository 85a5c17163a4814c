-- ===== src/Examples/Coroutines.antt =====
-- A coroutine of src/lcoroutm.c that is collected while it runs.
use coutil.Prelude.{◌≡◌, refl, true, false}
use coutil.Coroutine.{StateCoro}
use coutil.Coroutine.Life.{
  System, Reach, loaded, then_, resume, collect, worked, worked_end, happen, IsAlive, Reach-IsAlive,
}

abbrev at_start : System
at_start = record {
  co = record { l = true; work = false; freepending = false };
  in_callback = false;
  collected = false;
}

abbrev done : System
done = happen worked_end (happen worked (happen collect (happen (resume true true) at_start)))

Reach-done : Reach done
unfolding happen
Reach-done =
    then_ worked_end (then_ worked (then_ collect (then_ (resume true true) loaded refl) refl) refl)
      refl

is_freed : done.co ≡ record { l = false; work = false; freepending = false }
unfolding happen
is_freed = refl

Reach-IsAlive_example : IsAlive done
Reach-IsAlive_example = Reach-IsAlive Reach-done

abbrev ran : StateCoro
ran = record { l = true; work = true; freepending = false }
