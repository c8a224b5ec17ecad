-- ===== src/Lanes/Tests.antt =====
-- Labels, plans and the scheduler's choices on concrete values.
use interleave.Prelude.{
  ℕ, ◌≤◌, ◌≡◌, ◌↔◌, refl, false, none, some, List, [], ◌∷◌, Text, codes, All, here, length, lookup,
  insert, text_eq, decimal, number, add,
}
use interleave.Types.{text, multi_producer, single_producer, pairs}
use interleave.Samples.{alice, bob, two_lanes, unit_at}
use interleave.Lanes.Labels.{
  Lane, PlanEntry, parse_plan_entry, parse_plan_choice, parse_lane_label, lane_label, entry_text,
}
use interleave.Lanes.Labels.Canonical.{entry_text-parse_plan_entry}
use interleave.Lanes.Plans.{
  entries, validate_plan_entries, pair_same, plan_from_trace, decision_choices,
}
use interleave.Lanes.Plans.Validation.{IsChoice, validate_plan_entries_iff}
use interleave.Lanes.Fair.{chosen, fair_lane}
use interleave.Lanes.Fair.Rotation.{IsFair, fair_lane-IsFair, fair_lane_total}
use interleave.Lanes.Resolve.{LiveLane, release, wait, not_queued, resolve_plan_entry}
use interleave.Lanes.Resolve.Soundness.{IsReleasable, resolve_plan_entry-IsReleasable}

lane_tests : Unit {0}
unfolding parse_plan_entry parse_plan_choice parse_lane_label validate_plan_entries plan_from_trace
    decision_choices fair_lane resolve_plan_entry lane_label text_eq decimal number lookup insert
    add
lane_tests = tt

abbrev alice_12 : PlanEntry
alice_12 = record { actor = alice; connection = some 12 }

parses : parse_plan_entry (text (codes "alice#12")) ≡ some alice_12
unfolding lane_tests
parses = refl

no_leading_zero : parse_plan_entry (text (codes "alice#012")) ≡ none
unfolding lane_tests
no_leading_zero = refl

prototype_key : parse_plan_entry (text (codes "constructor")) ≡ none
unfolding lane_tests
prototype_key = refl

pair_choice :
    parse_plan_choice (text (codes "alice+bob"))
    ≡ some (
        record { actor = alice; connection = none }
        ∷ record { actor = bob; connection = none }
        ∷ [])
unfolding lane_tests
pair_choice = refl

entry_text-parse_plan_entry_example : entry_text alice_12 ≡ codes "alice#12"
entry_text-parse_plan_entry_example = entry_text-parse_plan_entry (codes "alice#12") alice_12 parses

plan_of_two_lanes : plan_from_trace two_lanes ≡ codes "alice#0" ∷ codes "bob" ∷ codes "alice#1" ∷ []
unfolding lane_tests
plan_of_two_lanes = refl

validate_plan_entries_iff_example :
    (validate_plan_entries multi_producer
        (some (alice ∷ bob ∷ []))
        none
        (entries (text (codes "alice#1") ∷ text (codes "bob") ∷ []))
      ≡ none)
    ↔ ((length (text (codes "alice#1") ∷ text (codes "bob") ∷ []) ≤ 100000)
        × All
            (IsChoice multi_producer (some (alice ∷ bob ∷ [])) none)
            (text (codes "alice#1") ∷ text (codes "bob") ∷ []))
validate_plan_entries_iff_example =
    validate_plan_entries_iff multi_producer (some (alice ∷ bob ∷ [])) none
      (text (codes "alice#1") ∷ text (codes "bob") ∷ [])

self_pair :
    validate_plan_entries single_producer none (some pairs) (entries (text (codes "bob+bob") ∷ []))
    ≡ some pair_same
unfolding lane_tests
self_pair = refl

choices_with_pairs :
    decision_choices (codes "alice#0" ∷ codes "bob#0" ∷ []) (alice ∷ []) (some pairs)
    ≡ codes "alice#0" ∷ codes "bob" ∷ codes "alice#0+bob" ∷ []
unfolding lane_tests
choices_with_pairs = refl

abbrev lane : Text → ℕ → Lane
lane actor n = record { actor = actor; connection = n }

abbrev available : List Lane
available = lane alice 0 ∷ lane bob 1 ∷ lane bob 0 ∷ []

after_alice :
    fair_lane (alice ∷ bob ∷ []) available (some alice) ((bob, 0) ∷ []) ≡ chosen (lane bob 1)
unfolding lane_tests
after_alice = refl

fair_lane-IsFair_example :
    IsFair (alice ∷ bob ∷ []) available (some alice) ((bob, 0) ∷ []) (lane bob 1)
fair_lane-IsFair_example =
    fair_lane-IsFair (alice ∷ bob ∷ []) available (some alice) ((bob, 0) ∷ []) (lane bob 1)
      after_alice

fair_lane_total_example : (l : Lane) × (fair_lane (alice ∷ bob ∷ []) available none [] ≡ chosen l)
fair_lane_total_example =
    fair_lane_total (alice ∷ bob ∷ []) available none [] (lane alice 0) here here

abbrev live : Text → ℕ → LiveLane
live actor n = record {
  lane = lane actor n;
  fingerprint = some (codes "s");
  head = some (unit_at 0);
  running = false;
  closed = false;
}

abbrev lanes : List LiveLane
lanes = live alice 0 ∷ live alice 1 ∷ record (live bob 0) { head = none } ∷ []

releases :
    resolve_plan_entry lanes false ((alice, 0) ∷ []) 3 (record { actor = alice; connection = none })
    ≡ release (lane alice 1)
unfolding lane_tests
releases = refl

resolve_plan_entry-IsReleasable_example :
    IsReleasable lanes (record { actor = alice; connection = none }) (lane alice 1)
resolve_plan_entry-IsReleasable_example =
    resolve_plan_entry-IsReleasable lanes false ((alice, 0) ∷ []) 3
      (record { actor = alice; connection = none }) (lane alice 1) releases

waits :
    resolve_plan_entry lanes false [] 3 (record { actor = bob; connection = some 0 })
    ≡ wait (not_queued (codes "bob#0") 3)
unfolding lane_tests
waits = refl
