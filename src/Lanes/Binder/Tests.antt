-- ===== src/Lanes/Binder/Tests.antt =====
-- Binding the lanes of a replay, on concrete runs.
use interleave.Prelude.{
  ℕ, ◌≡◌, refl, true, false, some, List, [], ◌∷◌, Text, codes, text_eq, lookup, insert, decimal,
}
use interleave.Samples.{alice, bob, two_lanes, unit_at, step_by}
use interleave.Lanes.Labels.{lane_label}
use interleave.Lanes.Resolve.{LiveLane, release}
use interleave.Lanes.Binder.{
  Binder, recorded_for, live_for, bound, refused, not_one_to_one, bind, new_binder, complete_lanes,
  startup,
}
use interleave.Lanes.Replay.{mismatch, resolve}
use interleave.Lanes.Binder.Bijection.{IsBijective, bind-IsBijective, bind-binds}
use interleave.Lanes.Binder.Guards.{Reach, start, bind_step, Reach-IsBijective}
use interleave.Lanes.Binder.Resolution.{IsReleasable, resolve-IsReleasable, bind-resolve}

binder_tests : Unit {0}
unfolding bind new_binder recorded_for live_for resolve mismatch startup complete_lanes text_eq
    lookup insert lane_label decimal
binder_tests = tt

abbrev fresh : Binder
fresh = new_binder two_lanes

-- Alice's recorded connection 0 is bound to her live connection 1.
once : (b : Binder) × (bind fresh alice 0 1 ≡ bound b)
unfolding binder_tests
once = (_, refl)

abbrev after_once : Binder
after_once = once.0

twice : (b : Binder) × (bind after_once alice 1 0 ≡ bound b)
unfolding binder_tests once
twice = (_, refl)

second_time : bind after_once alice 1 1 ≡ refused not_one_to_one
unfolding binder_tests once
second_time = refl

after_once-Reach : Reach two_lanes after_once
after_once-Reach = bind_step alice 0 1 start once.1

fresh-IsBijective : IsBijective fresh
fresh-IsBijective = Reach-IsBijective two_lanes fresh start

Reach-IsBijective_example : IsBijective after_once
Reach-IsBijective_example = Reach-IsBijective two_lanes after_once after_once-Reach

bind-IsBijective_example : IsBijective after_once
bind-IsBijective_example = bind-IsBijective fresh alice 0 1 after_once fresh-IsBijective once.1

bind-binds_example :
    (recorded_for after_once alice 1 ≡ some 0) × (live_for after_once alice 0 ≡ some 1)
bind-binds_example = bind-binds fresh alice 0 1 after_once once.1

after_once-IsBijective : IsBijective after_once
after_once-IsBijective = Reach-IsBijective two_lanes after_once after_once-Reach

first_binding : recorded_for after_once alice 1 ≡ some 0
unfolding binder_tests once
first_binding = refl

abbrev live : Text → ℕ → LiveLane
live actor n = record {
  lane = record { actor = actor; connection = n };
  fingerprint = some (codes "s");
  head = some (unit_at 0);
  running = false;
  closed = false;
}

abbrev lanes : List LiveLane
lanes = live alice 1 ∷ live bob 0 ∷ []

bob_goes :
    resolve after_once (step_by bob 0 0) lanes false 1 true
    ≡ release (record { actor = bob; connection = 0 })
unfolding binder_tests once
bob_goes = refl

resolve-IsReleasable_example :
    IsReleasable (step_by bob 0 0) lanes (record { actor = bob; connection = 0 })
resolve-IsReleasable_example =
    resolve-IsReleasable after_once (step_by bob 0 0) lanes false 1 true
      (record { actor = bob; connection = 0 }) bob_goes

bind-resolve_example : (b : Binder) × (bind after_once bob 0 0 ≡ bound b)
bind-resolve_example =
    bind-resolve after_once (step_by bob 0 0) lanes false 1 true
      (record { actor = bob; connection = 0 }) after_once-IsBijective bob_goes
