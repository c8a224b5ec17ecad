-- ===== src/Lanes/Plans.antt =====
-- lanes.ts: the options that select lanes, the validation of a plan, and the plan of a recorded
-- trace.
pub mod Validation
pub mod Traces
use interleave.Prelude.{
  ℕ, zero, suc, ◌+◌, Bool, true, false, ◌&&◌, ◌||◌, not, Option, none, some, List, [], ◌∷◌, ◌++◌,
  map, Text, codes, text_eq, has, add, Dict, lookup, insert, all, any, length, ltb, ◌==◌,
  if◌then◌else◌,
}
use interleave.Types.{
  Value, undefined, other, text, ConnectionProfile, single_producer, multi_producer, OverlapMode,
  pairs, StepIdentity, TraceStep, RunResult, is_multi, option_eq, or_else, is_some,
}
use interleave.Lanes.Labels.{
  Lane, PlanEntry, plus_sign, parse_plan_choice, parse_lane_label, lane_label,
}

-- `resolveConnectionProfile`; `none` is the error.
unfoldable pub resolve_connection_profile : Value → ConnectionProfile → Option ConnectionProfile
resolve_connection_profile undefined fallback = some fallback
resolve_connection_profile other fallback = none
resolve_connection_profile (text t) fallback =
    if text_eq t (codes "single-producer-v1")
    then some single_producer
    else if text_eq t (codes "multi-producer-v1")
    then some multi_producer
    else none

-- `resolveOverlap`; the outer `none` is the error, the inner one that overlap is off.
unfoldable pub resolve_overlap : Value → Option OverlapMode → Option (Option OverlapMode)
resolve_overlap undefined fallback = some fallback
resolve_overlap other fallback = none
resolve_overlap (text t) fallback = if text_eq t (codes "pairs") then some (some pairs) else none

unfoldable pub recorded_connection_profile : RunResult → ConnectionProfile
recorded_connection_profile run = or_else run.limits.connection_profile single_producer

unfoldable pub default_connection_limit : ConnectionProfile → ℕ
default_connection_limit single_producer = 1
default_connection_limit multi_producer = 8

pub data PlanError : Type 0 where
  invalid_schedule invalid_actor qualified_entry unknown_actor pair_needs_overlap pair_same :
      PlanError

-- The argument `plan` of the validation: omitted, no array, or an array.
pub data PlanInput : Type 0 where
  omitted no_array : PlanInput
  entries : List Value → PlanInput

abbrev knows : Option (List Text) → Text → Bool
knows none actor = true
knows (some actors) actor = has actor actors

module _ (profile : ConnectionProfile) (actors : Option (List Text))
    (overlap : Option OverlapMode) where
  -- One entry of a choice.
  unfoldable pub check_entry : PlanEntry → Option PlanError
  check_entry entry =
      if is_some entry.connection && not (is_multi profile)
      then some qualified_entry
      else if knows actors entry.actor
      then none
      else some unknown_actor

  unfoldable pub check_entries : List PlanEntry → Option PlanError
  unfolding check_entry
  check_entries [] = none
  check_entries (entry ∷ more) = elim (check_entry entry) [
    | none ↦ check_entries more
    | some e ↦ some e
  ]

  -- One single-producer actor has one command connection; a lane cannot pair with itself.
  unfoldable pub same_lane : PlanEntry → PlanEntry → Bool
  same_lane first second =
      text_eq first.actor second.actor
      && (not (is_multi profile)
          || (is_some first.connection && option_eq ◌==◌ first.connection second.connection))

  unfoldable pub check_pair : List PlanEntry → Option PlanError
  unfolding same_lane
  check_pair (first ∷ second ∷ []) =
      if is_some overlap
      then (if same_lane first second then some pair_same else none)
      else some pair_needs_overlap
  check_pair _ = none

  unfoldable pub check_choice : Value → Option PlanError
  unfolding check_entries check_pair
  check_choice value = elim (parse_plan_choice value) [
    | none ↦ some invalid_actor
    | some choice ↦ elim (check_entries choice) [ none ↦ check_pair choice | some e ↦ some e ]
  ]

  unfoldable pub check_choices : List Value → Option PlanError
  unfolding check_choice
  check_choices [] = none
  check_choices (value ∷ more) = elim (check_choice value) [
    | none ↦ check_choices more
    | some e ↦ some e
  ]

  -- `validatePlanEntries`; `none` is a plan that is accepted.
  unfoldable pub validate_plan_entries : PlanInput → Option PlanError
  unfolding check_choices
  validate_plan_entries omitted = none
  validate_plan_entries no_array = some invalid_schedule
  validate_plan_entries (entries plan) =
      if ltb 100000 (length plan) then some invalid_schedule else check_choices plan

-- The loop of `multiLaneActors`: each actor's first connection, and the actors with another.
unfoldable pub multi_from : Dict ℕ → List Text → List StepIdentity → List Text
multi_from seen multi [] = multi
multi_from seen multi (step ∷ trace) = elim (lookup step.actor seen) [
  | none ↦ multi_from (insert step.actor step.connection seen) multi trace
  | some first ↦
      multi_from seen (if first == step.connection then multi else add step.actor multi) trace
]

unfoldable pub multi_lane_actors : List StepIdentity → List Text
unfolding multi_from
multi_lane_actors trace = multi_from [] [] trace

pub record Decision : Type 0 where
  pub step : ℕ
  pub choice : Text
  pub available : List Text

-- How a step is named in a plan.
unfoldable pub step_name : List Text → TraceStep → Text
step_name multi step =
    if has step.actor multi then lane_label step.actor step.connection else step.actor

-- The loop of `decisionsFromTrace`, at the step of the given index.
unfoldable pub decisions_from : List Text → ℕ → List TraceStep → List Decision
unfolding step_name
decisions_from multi index [] = []
decisions_from multi index (step ∷ []) =
    record { step = index; choice = step_name multi step; available = step.available } ∷ []
decisions_from multi index (step ∷ next ∷ trace) = elim (option_eq ◌==◌ step.overlap (some index)) [
  | true ↦
      record {
        step = index;
        choice = step_name multi step ++ plus_sign ∷ step_name multi next;
        available = step.available;
      }
      ∷ decisions_from multi (index + 2) trace
  | false ↦
      record { step = index; choice = step_name multi step; available = step.available }
      ∷ decisions_from multi (index + 1) (next ∷ trace)
]

abbrev pub identities : List TraceStep → List StepIdentity
identities trace = map (λ step. step.identity) trace

-- The actors whose entries are lane-qualified.
unfoldable pub qualified : RunResult → List Text
unfolding multi_lane_actors recorded_connection_profile
qualified run =
    if is_multi (recorded_connection_profile run)
    then multi_lane_actors (identities run.trace)
    else []

unfoldable pub decisions_from_trace : RunResult → List Decision
unfolding decisions_from qualified
decisions_from_trace run = decisions_from (qualified run) 0 run.trace

unfoldable pub plan_from_trace : RunResult → List Text
unfolding decisions_from_trace
plan_from_trace run = map (λ decision. decision.choice) (decisions_from_trace run)

unfoldable pub plan_choice : List Text → Text → Text
plan_choice multi available = elim (parse_lane_label (text available)) [
  | none ↦ available
  | some lane ↦ if has lane.actor multi then available else lane.actor
]

-- Each unordered pair, in the order of the two loops.
unfoldable pub pair_choices : List Text → List Text
pair_choices [] = []
pair_choices (first ∷ more) = map (λ second. first ++ plus_sign ∷ second) more ++ pair_choices more

unfoldable pub add_all : List Text → List Text → List Text
add_all set [] = set
add_all set (choice ∷ more) = add_all (add choice set) more

unfoldable pub decision_choices : List Text → List Text → Option OverlapMode → List Text
unfolding plan_choice pair_choices add_all
decision_choices available multi overlap =
    let singles = map (plan_choice multi) available in
    if is_some overlap
    then add_all (add_all [] singles) (pair_choices singles)
    else add_all [] singles
