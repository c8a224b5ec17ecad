-- ===== src/Artifacts/Trace.antt =====
-- artifact-schema.ts, `parseRunArtifact`: the recorded steps, their times and their blockers.
pub mod Numbering
use interleave.Prelude.{
  ℕ, suc, ◌+◌, Bool, true, false, ◌&&◌, ◌||◌, not, Option, none, some, List, [], ◌∷◌, ◌++◌, Text,
  Dict, text_eq, has, lookup, insert, any, all, leb, ltb, ◌==◌, if◌then◌else◌, guard, ◌>>=◌, ◌>>◌,
  traverse,
}
use interleave.Types.{TraceStep, WaitObservation, or_else}
use interleave.Lanes.Labels.{Lane}
use interleave.Artifacts.Json.{Json, string}
use interleave.Artifacts.Fields.{array_value, lane_value, lane_key, max_array_items}
use interleave.Artifacts.Steps.{Dialect, validate_trace_step}
use interleave.Artifacts.Stages.{step_key}

module _ (d : Dialect) (connection_keys : Option (List Text)) where
  abbrev is_recorded : Text → Bool
  is_recorded key = elim connection_keys [ none ↦ true | some keys ↦ has key keys ]

  -- Every available lane is a lane of a recorded startup.
  unfoldable pub are_lanes_recorded : List Text → Option (Unit {0})
  unfolding lane_value lane_key
  are_lanes_recorded [] = some tt
  are_lanes_recorded (label ∷ labels) = do
    lane ← lane_value (string label)
    guard (has (lane_key lane.actor lane.connection) (or_else connection_keys []))
    are_lanes_recorded labels

  -- The loop from an index, with the ordinal that each connection's next command has.
  unfoldable pub trace_from : Dict ℕ → ℕ → List Json → Option (List TraceStep)
  unfolding validate_trace_step are_lanes_recorded
  trace_from ordinals index [] = some []
  trace_from ordinals index (value ∷ values) = do
    step ← validate_trace_step d index value
    guard (is_recorded (step_key step))
    if d.lanes then are_lanes_recorded step.available else some tt
    let expected = or_else (lookup (step_key step) ordinals) 0
    guard (step.ordinal == expected)
    rest ← trace_from (insert (step_key step) (suc expected) ordinals) (suc index) values
    some (step ∷ rest)

  unfoldable pub trace_value : Json → Option (List TraceStep)
  unfolding array_value trace_from
  trace_value value = do values ← array_value value max_array_items; trace_from [] 0 values

abbrev pub is_at_most : Option ℕ → ℕ → Bool
is_at_most none limit = true
is_at_most (some at) limit = leb at limit

-- Releases do not decrease, and nothing happens after the end of the run.
unfoldable pub are_times_ordered : ℕ → ℕ → List TraceStep → Bool
are_times_ordered duration before [] = true
are_times_ordered duration before (step ∷ trace) =
    leb before step.released_at
    && leb step.released_at duration
    && is_at_most step.completed_at duration
    && are_times_ordered duration step.released_at trace

module _ (lanes : Bool) where
  -- Blockers are told apart by actor, and by lane where the record names lanes.
  abbrev pub blocker_identity : TraceStep → Text
  blocker_identity step = if lanes then step_key step else step.actor

  abbrev pub is_other : TraceStep → ℕ → TraceStep → Bool
  is_other step pid other =
      other.backend_pid == pid && not (text_eq (blocker_identity other) (blocker_identity step))

  -- A blocker is another backend, one that a step of another actor or lane ran on.
  abbrev pub is_blocker : List TraceStep → TraceStep → ℕ → Bool
  is_blocker trace step pid = not (pid == step.backend_pid) && any (is_other step pid) trace

  abbrev pub are_waits_explained : List TraceStep → TraceStep → Bool
  are_waits_explained trace step =
      all (λ wait. all (is_blocker trace step) wait.blocker_pids) step.waits

  unfoldable pub are_blockers_known : List TraceStep → Bool
  are_blockers_known trace = all (are_waits_explained trace) trace
