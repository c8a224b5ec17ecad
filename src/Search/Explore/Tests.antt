-- ===== src/Search/Explore/Tests.antt =====
-- An exploration of two actors that make one step each.
use interleave.Prelude.{
  ◌+◌, ◌≤◌, ◌≡◌, refl, Bool, false, none, some, List, [], ◌∷◌, ◌++◌, Text, codes, text_eq, length,
  if◌then◌else◌, arith, map, take, get_elem?, In, here, there, lookup, insert, add, decimal,
}
use interleave.Types.{RunResult, violation, single_producer}
use interleave.Samples.{two_lanes, alice, bob, traced, step_by}
use interleave.Lanes.Labels.{lane_label, parse_lane_label, parse_plan_entry}
use interleave.Lanes.Plans.{Decision, decisions_from_trace, decision_choices, qualified}
use interleave.Search.Limits.{fifo, frontier_index}
use interleave.Search.Explore.{
  Config, World, State, explore, frontier_exhausted, plan_bytes, plan_eq, offer, offer_each, branch,
  retain, assess, attempt, search_round, search_loop, initial, finish, splice, count_run,
  choice_bytes, escaped_bytes, prefix_bytes, measure,
}
use interleave.Search.Explore.Accounting.{occurrences, sum_of}
use interleave.Search.Explore.Rounds.{run_bytes}
use interleave.Search.Explore.Results.{explore-dispatches_once, explore-bytes, search_loop-fuel}
use interleave.Search.Explore.Coverage.Exhaustion.{explore-exhausted}

explore_tests : Unit {0}
unfolding explore search_loop search_round attempt assess retain branch offer offer_each plan_eq
    plan_bytes initial finish splice count_run choice_bytes escaped_bytes prefix_bytes measure
    text_eq lookup insert add decimal lane_label decisions_from_trace decision_choices qualified
    frontier_index parse_lane_label parse_plan_entry
explore_tests = tt

-- Alice first, then bob, or the other way round, which breaks the invariant.
abbrev alice_first : RunResult
alice_first = record two_lanes {
  limits = record two_lanes.limits { connection_profile = some single_producer };
  trace =
      traced (step_by alice 0 0) 0 (alice ∷ bob ∷ []) ∷ traced (step_by bob 0 0) 1 (bob ∷ []) ∷ [];
}

abbrev bob_first : RunResult
bob_first = record alice_first {
  outcome = violation;
  trace =
      traced (step_by bob 0 0) 0 (alice ∷ bob ∷ [])
      ∷ traced (step_by alice 0 0) 1 (alice ∷ [])
      ∷ [];
}

abbrev starts_with : Text → List Text → Bool
starts_with actor [] = false
starts_with actor (x ∷ xs) = text_eq actor x

abbrev race : World
race = record {
  run_target = λ n plan. if starts_with bob plan then bob_first else alice_first;
  parse_run_artifact = λ run. some (run, 500);
  reasons = λ n. none;
  digest = λ t. 0;
}

abbrev bounds : Config
bounds = record {
  search = fifo;
  most_runs = 10;
  most_candidates = 10;
  most_bytes = 2000;
  overlap = none;
  stop_on_failure = false;
}

abbrev race_end : State
race_end = explore bounds race (codes "race") []

race_stop : race_end.stop ≡ frontier_exhausted
unfolding explore_tests
race_stop = refl

race_plans : race_end.dispatched ≡ [] ∷ (bob ∷ []) ∷ (alice ∷ []) ∷ []
unfolding explore_tests
race_plans = refl

race_bytes : race_end.retained_bytes ≡ 1518
unfolding explore_tests
race_bytes = refl

race_room : plan_bytes [] ≤ bounds.most_bytes
unfolding explore_tests
race_room = omega arith

explore-dispatches_once_example :
    (occurrences (bob ∷ []) race_end.dispatched ≤ 1)
    × (length race_end.dispatched ≡ race_end.explored)
    × (race_end.explored ≡ length race_end.runs + race_end.omitted_runs)
explore-dispatches_once_example =
    explore-dispatches_once bounds race (codes "race") [] (bob ∷ []) race_room

explore-bytes_example :
    race_end.retained_bytes
    ≡ sum_of plan_bytes race_end.seen + sum_of (run_bytes race) race_end.runs
explore-bytes_example = explore-bytes bounds race (codes "race") [] race_room

race_failure : race_end.first_failure ≡ some bob_first
unfolding explore_tests
race_failure = refl

search_loop-fuel_example :
    search_loop bounds race 30 (initial bounds race (codes "race") [])
    ≡ search_loop bounds race 10 (initial bounds race (codes "race") [])
search_loop-fuel_example =
    search_loop-fuel bounds race 30 10 (initial bounds race (codes "race") []) (omega arith)
      (omega arith)

first_run : In alice_first race_end.runs
unfolding explore_tests
first_run = here

abbrev first_decision : Decision
first_decision = record { step = 0; choice = alice; available = alice ∷ bob ∷ [] }

first_found : get_elem? (decisions_from_trace alice_first) 0 ≡ some first_decision
unfolding explore_tests
first_found = refl

bob_offered :
    In bob (decision_choices first_decision.available (qualified alice_first) bounds.overlap)
unfolding explore_tests
bob_offered = there here

bob_other : text_eq bob first_decision.choice ≡ false
unfolding explore_tests
bob_other = refl

explore-exhausted_example :
    occurrences
      (take 0 (map (λ d. d.choice) (decisions_from_trace alice_first)) ++ bob ∷ [])
      race_end.dispatched
    ≡ 1
explore-exhausted_example =
    explore-exhausted bounds race (codes "race") [] alice_first 0 first_decision bob race_stop
      first_run first_found bob_offered bob_other
