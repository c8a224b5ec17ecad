-- ===== src/Search/Tests.antt =====
-- Searches on concrete runs.
use interleave.Prelude.{
  lookup, insert, add, ◌+◌, ◌≤◌, ◌<◌, ◌≡◌, ◌≢◌, refl, true, none, some, [], ◌∷◌, Text, codes,
  text_eq, length, any, if◌then◌else◌, decimal, arith, max, Sub,
}
use interleave.Types.{RunResult, violation}
use interleave.Samples.{two_lanes, bob}
use interleave.Lanes.Labels.{lane_label}
use interleave.Lanes.Plans.{plan_from_trace}
use interleave.Search.Environment.{environment_matches}
use interleave.Search.Minimize.{
  World, Reduction, minimized, minimize, locally_minimal, reproduces, without, pass, reduction,
  begin, fingerprint_of, summarize_hard_failure, judge, try_chunk,
}
use interleave.Search.Minimize.Evidence.{IsEvidence}
use interleave.Search.Minimize.Locality.{IsTried}
use interleave.Search.Minimize.Results.{minimize-IsSound, minimize-IsMinimal}
use interleave.Search.Minimize.Fuel.{reduction-fuel}

search_tests : Unit {0}
unfolding minimize summarize_hard_failure judge try_chunk pass reduction begin reproduces without
    text_eq plan_from_trace decimal lookup insert add lane_label environment_matches
search_tests = tt

abbrev harmless : RunResult
harmless = record two_lanes {
  environment = record two_lanes.environment {
    fixture = some (record {
      version = 1;
      profile = codes "p";
      algorithm = codes "a";
      fingerprint = codes "x";
    });
  };
}

abbrev failing : RunResult
failing = record harmless {
  outcome = violation;
  failure =
      some
        (record { name = codes "Error"; message = codes "lost update"; fingerprint = codes "f" });
}

-- The invariant breaks when bob releases anything.
abbrev counter : World
counter = record {
  run_target = λ n plan. if any (text_eq bob) plan then failing else harmless;
  reasons = λ n. none;
}

shrunk : (t : Reduction) × (minimize counter failing failing 20 ≡ minimized 3 t)
unfolding search_tests
shrunk = (_, refl)

abbrev shrunk_end : Reduction
shrunk_end = shrunk.0

-- The whole plan of three choices shrinks to the one of bob.
shrunk_plan : shrunk_end.plan ≡ codes "bob" ∷ []
unfolding search_tests shrunk
shrunk_plan = refl

shrunk_stop : shrunk_end.stop ≡ locally_minimal
unfolding search_tests shrunk
shrunk_stop = refl

minimize-IsSound_example :
    (fingerprint : Text) × (fingerprint_of failing ≡ some fingerprint)
    × Sub shrunk_end.plan (plan_from_trace failing)
    × (reproduces fingerprint shrunk_end.run ≡ true)
    × IsEvidence counter fingerprint failing.environment 20 failing shrunk_end
    × (shrunk_end.attempts ≤ max 1 20)
minimize-IsSound_example = minimize-IsSound counter failing failing 20 3 shrunk_end shrunk.1

shrunk_long : 0 < length shrunk_end.plan
unfolding search_tests shrunk
shrunk_long = omega arith

minimize-IsMinimal_example :
    (shrunk_end.locally ≡ true)
    × (fingerprint : Text) × (fingerprint_of failing ≡ some fingerprint)
    × IsTried counter fingerprint shrunk_end 0
minimize-IsMinimal_example =
    minimize-IsMinimal counter failing failing 20 3 shrunk_end 0 shrunk.1 shrunk_stop shrunk_long

-- With two attempts the reduction is cut short.
cut : (t : Reduction) × (minimize counter failing failing 2 ≡ minimized 3 t)
unfolding search_tests
cut = (_, refl)

cut_stop : cut.0.stop ≢ locally_minimal
unfolding search_tests cut
cut_stop e = ground arith

reduction-fuel_example :
    reduction counter (codes "f") failing.environment 20 30 (begin failing)
    ≡ reduction counter (codes "f") failing.environment 20 20 (begin failing)
reduction-fuel_example =
    reduction-fuel counter (codes "f") failing.environment 20 30 20 (begin failing) (omega arith)
      (omega arith)

three_long : length (begin failing).plan ≤ 3 + 0
unfolding search_tests
three_long = omega arith
