-- ===== src/Artifacts/TraceTests.antt =====
-- Tests and witnesses on traces of stages, pairs and cancel requests, and on a parsed run's waits.
use interleave.Prelude.{
  ◌≡◌, ◌≢◌, ◌↔◌, refl, ℕ, ◌+◌, pos, Bool, true, Option, none, some, List, [], ◌∷◌, Text, codes,
  text_eq, lookup, insert, remove, add, decimal, number, In, ◌≤◌,
}
use interleave.Types.{
  TraceStep, StepIdentity, UnitIdentity, UnitCompletion, ready, flushed, described, rows, idle,
  extended, StepStage, describe, execute, flush, sync, CancelRecord, WaitObservation,
}
use interleave.Samples.{alice, bob}
use interleave.Artifacts.Json.{Json, one, boolean, string}
use interleave.Artifacts.Fields.{lane_key}
use interleave.Artifacts.Samples.{passed_run, arr, obj, num}
use interleave.Artifacts.Pairs.{validate_overlap_pairs}
use interleave.Artifacts.Pairs.Partners.{HasPartner, validate_overlap_pairs-HasPartner}
use interleave.Artifacts.Stages.{validate_stage_sequence}
use interleave.Artifacts.Stages.Lanes.{steps_of}
use interleave.Artifacts.Stages.Refinement.{lane_accepts, validate_stage_sequence-lanes}
use interleave.Artifacts.Stages.Sequential.{IsSequential, validate_stage_sequence-IsSequential}
use interleave.Artifacts.FlushStages.{validate_flush_stage_sequence}
use interleave.Artifacts.FlushStages.Refinement.{
  flush_lane_accepts, validate_flush_stage_sequence-lanes,
}
use interleave.Artifacts.Cancels.{validate_cancels}
use interleave.Artifacts.Cancels.Hits.{AgreesWith, validate_cancels-AgreesWith}
use interleave.Artifacts.Parse.{parse_run_value}
use interleave.Artifacts.Parts.{requires_complete_actors}
use interleave.Artifacts.Parse.Guarantees.{HasOther, parse_run_value-HasOther}
use interleave.Artifacts.Tests.{digits, the_run, step_at, reads}

abbrev completed_row : UnitCompletion
completed_row = ready (record {
  transaction_status = idle;
  command_tags = codes "SELECT 1" ∷ [];
  row_count = 1;
  error = none;
  copy = [];
})

abbrev acknowledged : UnitCompletion
acknowledged =
    flushed (record { command_tags = []; rows = 1; suspended = true; error = none; copy = [] })

-- A stage of a connection's first cycle.
abbrev staged :
    (actor : Text) (index ordinal pid released : ℕ)
    → StepStage
    → Option ℕ
    → UnitCompletion
    → Option ℕ
    → TraceStep
staged actor index ordinal pid released stage prefix completion pair =
    let unit : UnitIdentity = record {
      ordinal = ordinal;
      protocol = extended;
      sql = codes "SELECT 1";
      fingerprint = codes "f";
      stage = some stage;
      cycle = some 0;
      prefix_ordinal = prefix;
    } in
    let identity : StepIdentity = record { actor = actor; connection = 0; unit = unit } in
    record {
      identity = identity;
      index = index;
      backend_pid = pid;
      available = codes "alice#0" ∷ codes "bob#0" ∷ [];
      released_at = released;
      completed_at = some (released + 1);
      completion = some completion;
      waits = [];
      overlap = pair;
    }

abbrev metadata_one : UnitCompletion
metadata_one = UnitCompletion.metadata (described 0 1 rows)

-- Two connections whose describe stages and continuations cross.
abbrev crossing : List TraceStep
crossing =
    staged alice 0 0 7 0 describe none metadata_one none
    ∷ staged bob 1 0 8 2 describe none metadata_one none
    ∷ staged alice 2 1 7 4 execute (some 0) completed_row none
    ∷ staged bob 3 1 8 6 execute (some 0) completed_row none
    ∷ []

abbrev cursors : List TraceStep
cursors =
    staged alice 0 0 7 0 flush none acknowledged none
    ∷ staged bob 1 0 8 2 flush none acknowledged none
    ∷ staged alice 2 1 7 4 flush (some 0) acknowledged none
    ∷ staged alice 3 2 7 6 sync (some 1) completed_row none
    ∷ []

abbrev together : List TraceStep
together =
    staged alice 0 0 7 0 describe none metadata_one (some 0)
    ∷ staged bob 1 0 8 0 describe none metadata_one (some 0)
    ∷ []

crossing_accepted : validate_stage_sequence true true crossing ≡ some tt
unfolding validate_stage_sequence text_eq lookup insert remove lane_key decimal
crossing_accepted = refl

-- A continuation that names the other connection's prefix is refused.
misnamed_refused :
    validate_stage_sequence true true (
      staged alice 0 0 7 0 describe none metadata_one none
      ∷ staged alice 1 1 7 4 execute (some 1) completed_row none
      ∷ [])
    ≡ none
unfolding validate_stage_sequence text_eq lookup insert remove lane_key decimal
misnamed_refused = refl

cursors_accepted : validate_flush_stage_sequence true true cursors ≡ some tt
unfolding validate_flush_stage_sequence text_eq lookup insert remove lane_key decimal
cursors_accepted = refl

-- Two describe stages that were released together.
together_accepted : validate_overlap_pairs true together ≡ some tt
unfolding validate_overlap_pairs text_eq
together_accepted = refl

validate_stage_sequence-lanes_example :
    (validate_stage_sequence true true crossing ≡ some tt)
    ↔ ((key : Text) → lane_accepts true key crossing ≡ true)
validate_stage_sequence-lanes_example = validate_stage_sequence-lanes true crossing

validate_flush_stage_sequence-lanes_example :
    (validate_flush_stage_sequence true true cursors ≡ some tt)
    ↔ ((key : Text) → flush_lane_accepts true key cursors ≡ true)
validate_flush_stage_sequence-lanes_example = validate_flush_stage_sequence-lanes true cursors

validate_stage_sequence-IsSequential_example : IsSequential (steps_of (lane_key alice 0) crossing)
validate_stage_sequence-IsSequential_example =
    validate_stage_sequence-IsSequential true true crossing (lane_key alice 0) crossing_accepted

validate_overlap_pairs-HasPartner_example : HasPartner true together 0 1
validate_overlap_pairs-HasPartner_example =
    validate_overlap_pairs-HasPartner true together together_accepted 1
      (staged bob 1 0 8 0 describe none metadata_one (some 0)) 0 refl refl

abbrev hit_json : Json
hit_json = obj (
    (codes "at", num 0)
    ∷ (codes "actor", string alice)
    ∷ (codes "backendPid", num 7)
    ∷ (codes "forwarded", boolean true)
    ∷ (codes "connection", num 0)
    ∷ (codes "step", num 0)
    ∷ [])

abbrev hit : CancelRecord
hit = record {
  at = 0;
  actor = alice;
  backend_pid = pos 7;
  forwarded = true;
  connection = some 0;
  step = some 0;
}

hit_accepted :
    validate_cancels crossing (lane_key alice 0 ∷ []) 9 (arr (hit_json ∷ [])) ≡ some (hit ∷ [])
unfolding validate_cancels text_eq lookup insert lane_key decimal one
hit_accepted = refl

validate_cancels-AgreesWith_example : (0 ≤ 9) × AgreesWith crossing hit (some 0)
validate_cancels-AgreesWith_example =
    validate_cancels-AgreesWith crossing (lane_key alice 0 ∷ []) 9 (arr (hit_json ∷ [])) (hit ∷ [])
      hit hit_accepted In.here

abbrev wait_124 : WaitObservation
wait_124 = record {
  pid = 124;
  blocker_pids = 123 ∷ [];
  wait_event = codes "transactionid";
  wait_event_type = codes "Lock";
}

writer-In : In (step_at 1) the_run.trace
unfolding parse_run_value text_eq lookup insert add decimal number one
writer-In = In.there In.here

wait-In : In wait_124 (step_at 1).waits
unfolding parse_run_value text_eq lookup insert add decimal number one
wait-In = In.here

run_passed : requires_complete_actors the_run.outcome ≡ true
unfolding parse_run_value text_eq lookup insert add decimal number one
run_passed = refl

parse_run_value-HasOther_example :
    (123 ≢ (step_at 1).backend_pid) × (lanes : Bool) × HasOther lanes the_run.trace (step_at 1) 123
parse_run_value-HasOther_example =
    parse_run_value-HasOther digits passed_run the_run reads (step_at 1) wait_124 123 writer-In
      wait-In In.here
