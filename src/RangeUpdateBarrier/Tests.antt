-- ===== src/RangeUpdateBarrier/Tests.antt =====
-- Maintenance meets two updates.
use hypertable.Base.{◌<◌, ◌≡◌, refl, true, List, [], ◌∷◌, arith}
use hypertable.RangeUpdateBarrier.{
  asleep, behind, Threads, no_threads, enter, await_quiet, put_up, Event, enters, puts_up, step,
  run,
}
use hypertable.RangeUpdateBarrier.Exclusion.{IsValid, Fits, drain, run-excludes, put_up-returns}

-- Two updates are inside, maintenance waits for them, and a third update sleeps.
abbrev two_inside : Threads
two_inside = record {
  barrier = record { hold_updates = true; update_counter = 2 };
  activator = asleep;
  inside = 2;
  sleeping = 1;
  awake = 0;
}

abbrev two_then_maintenance : List Event
two_then_maintenance = enters ∷ enters ∷ puts_up ∷ enters ∷ []

run_two : run two_then_maintenance no_threads ≡ two_inside
unfolding run step enter put_up await_quiet
run_two = refl

two_inside-IsValid : IsValid two_inside
unfolding Fits
two_inside-IsValid = record {
  counted = refl;
  few = omega arith;
  fits = (refl, omega arith);
  held = λ e. cc;
}

run-excludes_example :
    (two_inside.activator ≡ behind → two_inside.inside ≡ 0)
    × (two_inside.activator ≡ asleep → 0 < two_inside.inside)
    × (0 < two_inside.sleeping → two_inside.barrier.hold_updates ≡ true)
run-excludes_example = run-excludes two_then_maintenance two_inside (omega arith) run_two

put_up-returns_example : (run (drain 2) two_inside).activator ≡ behind
put_up-returns_example = put_up-returns two_inside two_inside-IsValid refl
