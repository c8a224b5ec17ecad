-- ===== src/Artifacts/Parse.antt =====
-- artifact-schema.ts, `parseRunArtifact`: the whole record.
pub mod Facts
pub mod Guarantees
use interleave.Prelude.{
  ℕ, suc, ◌+◌, ℤ, Bool, true, false, ◌&&◌, ◌||◌, not, Option, none, some, List, [], ◌∷◌, ◌++◌, Text,
  Dict, codes, text_eq, has, add, length, map, concat, any, all, leb, ltb, ◌==◌, if◌then◌else◌,
  guard, ◌>>=◌, ◌>>◌, traverse,
}
use interleave.Types.{
  RunResult, Outcome, passed, violation, actor_error, incompatible, inconclusive, harness_error,
  RunMode, explore, replay, guided, TraceStep, CancelRecord, ConnectionIdentity, ActorResult,
  ActorStatus, fulfilled, rejected, Failure, UnitCompletion, ready, flushed, or_else, is_some,
  Environment, Limits, Cleanup,
}
use interleave.Lanes.Labels.{PlanEntry}
use interleave.Artifacts.Json.{Json, string}
use interleave.Artifacts.Fields.{
  shape, field, has_own, array_value, bounded_string, enum_value, finite_number, scenario_name,
  utf8_byte_length, lane_value, lane_key, max_general_string_bytes, max_artifact_bytes,
  max_array_items,
}
use interleave.Artifacts.Safety.{assert_json_safe, new_counter}
use interleave.Artifacts.Serialize.{serialized_bytes}
use interleave.Artifacts.Completions.{optional, is_unique}
use interleave.Artifacts.Outcomes.{validate_actor_result, validate_failure}
use interleave.Artifacts.Steps.{Dialect}
use interleave.Artifacts.Pairs.{validate_overlap_pairs}
use interleave.Artifacts.Stages.{validate_stage_sequence}
use interleave.Artifacts.FlushStages.{validate_flush_stage_sequence}
use interleave.Artifacts.Cancels.{validate_cancels}
use interleave.Artifacts.Environment.{environment_value}
use interleave.Artifacts.Limits.{limits_value, cleanup_value, validate_timestamp}
use interleave.Artifacts.Plan.{
  version_value, dialect_of, plan_value, connections_value, connection_key,
}
use interleave.Artifacts.Trace.{trace_value, are_times_ordered, are_blockers_known}
use interleave.Artifacts.Parts.{
  max_actors, outcome_names, mode_names, is_rejected, requires_complete_actors, is_violated,
  fits_statuses, has_copy, Parts, choice_actor, plan_actors, step_actors, actor_names, named_actors,
  distinct_names, connection_keys, is_lane_admitted, is_complete, check_sequence, is_version_needed,
  check_parts,
}

abbrev pub root_required : List Text
root_required =
    codes "schemaVersion"
    ∷ codes "scenario"
    ∷ codes "outcome"
    ∷ codes "mode"
    ∷ codes "plan"
    ∷ codes "trace"
    ∷ codes "actors"
    ∷ codes "environment"
    ∷ codes "startedAt"
    ∷ codes "durationMs"
    ∷ codes "limits"
    ∷ codes "cleanup"
    ∷ []

abbrev pub root_allowed : List Text
root_allowed =
    codes "connections" ∷ codes "cancels" ∷ codes "failure" ∷ codes "reason" ∷ root_required

-- The checks of the failure and the reason.
unfoldable pub failure_value : Dict Json → Outcome → Option (Option Failure)
unfolding validate_failure
failure_value root outcome = do
  failure ← optional root (codes "failure") validate_failure
  guard (if is_some failure then is_violated outcome else not (is_violated outcome))
  some failure

abbrev pub text_of : Json → Option Text
text_of (string t) = some t
text_of _ = none

-- The texts of an array, as they stand.
unfoldable pub texts_value : Json → Option (List Text)
unfolding array_value traverse
texts_value value = do values ← array_value value max_array_items; traverse text_of values

abbrev pub recorded_keys : Option (List ConnectionIdentity) → Option (List Text)
recorded_keys none = none
recorded_keys (some connections) = some (map connection_key connections)

-- The version, the scenario and the mode.
pub record Heading : Type 0 where
  pub version : ℕ
  pub scenario : Text
  pub mode : RunMode

unfoldable pub heading_value : Dict Json → Option Heading
unfolding version_value scenario_name enum_value
heading_value root = do
  version ← version_value (← field root (codes "schemaVersion"))
  scenario ← scenario_name (← field root (codes "scenario"))
  mode ← enum_value (← field root (codes "mode")) mode_names
  some (record { version = version; scenario = scenario; mode = mode })

-- The environment of a run, its limits and its end.
pub record Surroundings : Type 0 where
  pub reason : Option Text
  pub environment : Environment
  pub limits : Limits
  pub cleanup : Cleanup

-- What is read before the trace.
pub record Opening : Type 0 where
  pub dialect : Dialect
  pub outcome : Outcome
  pub duration_ms : ℕ
  pub plan : List (List PlanEntry)
  pub connections : Option (List ConnectionIdentity)

-- Connections are recorded from version 2 on, and may be in version 1.
unfoldable pub opening_value : Dict Json → ℕ → Option Opening
unfolding dialect_of enum_value finite_number plan_value connections_value
opening_value root version = do
  dialect_ ← dialect_of version (← field root (codes "limits"))
  outcome_ ← enum_value (← field root (codes "outcome")) outcome_names
  duration ← finite_number (← field root (codes "durationMs")) 0
  plan_ ← plan_value dialect_ (← field root (codes "plan"))
  guard (version == 1 || has_own root (codes "connections"))
  connections_ ← optional root (codes "connections") connections_value
  some (record {
    dialect = dialect_;
    outcome = outcome_;
    duration_ms = duration;
    plan = plan_;
    connections = connections_;
  })

unfoldable pub actors_value : Json → Option (List ActorResult)
unfolding array_value traverse validate_actor_result
actors_value value = do
  results ← array_value value max_actors
  traverse validate_actor_result results

-- Cancel requests are recorded in version 5 only.
unfoldable pub cancels_value : Dict Json → ℕ → Opening → List TraceStep → Option (List CancelRecord)
unfolding validate_cancels
cancels_value root version o trace = do
  guard (version == 5 || not (has_own root (codes "cancels")))
  cancels ←
      optional root (codes "cancels")
        (validate_cancels trace (or_else (recorded_keys o.connections) []) o.duration_ms)
  some (or_else cancels [])

unfoldable pub parts_value : Dict Json → ℕ → Option Parts
unfolding opening_value trace_value cancels_value actors_value
parts_value root version = do
  o ← opening_value root version
  recorded ← field root (codes "trace")
  trace_ ← trace_value o.dialect (recorded_keys o.connections) recorded
  cancels_ ← cancels_value root version o trace_
  actors_ ← actors_value (← field root (codes "actors"))
  some (record {
    dialect = o.dialect;
    outcome = o.outcome;
    duration_ms = o.duration_ms;
    plan = o.plan;
    connections = o.connections;
    trace = trace_;
    cancels = cancels_;
    actors = actors_;
  })

-- The record that is returned.
unfoldable pub run_result :
    Dict Json → Heading → Parts → Option Failure → Surroundings → List Text → RunResult
run_result root heading parts failure surroundings plan = record {
  schema_version = heading.version;
  scenario = heading.scenario;
  outcome = parts.outcome;
  mode = heading.mode;
  plan = plan;
  connections = parts.connections;
  trace = parts.trace;
  cancels = if has_own root (codes "cancels") then some parts.cancels else none;
  actors = parts.actors;
  failure = failure;
  reason = surroundings.reason;
  environment = surroundings.environment;
  duration_ms = parts.duration_ms;
  limits = surroundings.limits;
  cleanup = surroundings.cleanup;
}

unfoldable pub surroundings_value : Dict Json → ℕ → Option Surroundings
unfolding bounded_string environment_value validate_timestamp limits_value cleanup_value
surroundings_value root version = do
  reason ← optional root (codes "reason") (λ r. bounded_string r 0 max_general_string_bytes)
  environment ← environment_value version (← field root (codes "environment"))
  started ← validate_timestamp (← field root (codes "startedAt"))
  limits ← limits_value version (← field root (codes "limits"))
  cleanup ← cleanup_value (← field root (codes "cleanup"))
  some (record { reason = reason; environment = environment; limits = limits; cleanup = cleanup })

-- `number_length` is the length of the numeral that the language writes for a finite number.
module _ (number_length : ℤ → ℕ) where
  unfoldable pub parse_root : Json → Option RunResult
  unfolding shape heading_value parts_value check_parts failure_value surroundings_value
      serialized_bytes texts_value run_result
  parse_root value = do
    root ← shape value root_allowed root_required
    heading ← heading_value root
    parts ← parts_value root heading.version
    check_parts parts
    failure ← failure_value root parts.outcome
    surroundings ← surroundings_value root heading.version
    guard (leb (serialized_bytes number_length value) max_artifact_bytes)
    plan ← texts_value (← field root (codes "plan"))
    some (run_result root heading parts failure surroundings plan)

  -- The value is walked as a whole first.
  unfoldable pub parse_run_value : Json → Option RunResult
  unfolding assert_json_safe parse_root
  parse_run_value value = do
    counter ← assert_json_safe max_artifact_bytes value 0 new_counter
    parse_root value

-- `parse_json` is the language's `JSON.parse`.
module _ (number_length : ℤ → ℕ) (parse_json : Text → Option Json) where
  unfoldable pub parse_run_text : Text → Option RunResult
  unfolding utf8_byte_length parse_run_value
  parse_run_text input = do
    guard (leb (utf8_byte_length input) max_artifact_bytes)
    value ← parse_json input
    parse_run_value number_length value
