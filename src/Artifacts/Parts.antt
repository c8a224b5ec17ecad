-- ===== src/Artifacts/Parts.antt =====
-- artifact-schema.ts, `parseRunArtifact`: the checks between the parts of a record.
use interleave.Prelude.{
  ℕ, Bool, true, false, ◌&&◌, ◌||◌, not, Option, none, some, List, [], ◌∷◌, ◌++◌, Text, Dict, codes,
  text_eq, has, add, length, map, concat, any, all, leb, ◌==◌, if◌then◌else◌, guard, ◌>>◌,
}
use interleave.Types.{
  Outcome, passed, violation, actor_error, incompatible, inconclusive, harness_error, RunMode,
  explore, replay, guided, TraceStep, CancelRecord, ConnectionIdentity, ActorResult, ActorStatus,
  fulfilled, rejected, UnitCompletion, ready, flushed, or_else,
}
use interleave.Lanes.Labels.{PlanEntry}
use interleave.Artifacts.Json.{string}
use interleave.Artifacts.Fields.{lane_value, lane_key}
use interleave.Artifacts.Completions.{is_unique}
use interleave.Artifacts.Steps.{Dialect}
use interleave.Artifacts.Pairs.{validate_overlap_pairs}
use interleave.Artifacts.Stages.{validate_stage_sequence}
use interleave.Artifacts.FlushStages.{validate_flush_stage_sequence}
use interleave.Artifacts.Plan.{connection_key}
use interleave.Artifacts.Trace.{are_times_ordered, are_blockers_known}

abbrev pub max_actors : ℕ
max_actors = 8

abbrev pub outcome_names : Dict Outcome
outcome_names =
    (codes "passed", passed)
    ∷ (codes "violation", violation)
    ∷ (codes "actor-error", actor_error)
    ∷ (codes "incompatible", incompatible)
    ∷ (codes "inconclusive", inconclusive)
    ∷ (codes "harness-error", harness_error)
    ∷ []

abbrev pub mode_names : Dict RunMode
mode_names = (codes "explore", explore) ∷ (codes "replay", replay) ∷ (codes "guided", guided) ∷ []

abbrev pub is_rejected : ActorStatus → Bool
is_rejected rejected = true
is_rejected fulfilled = false

-- The outcomes of a run that ended by itself.
abbrev pub requires_complete_actors : Outcome → Bool
requires_complete_actors passed = true
requires_complete_actors violation = true
requires_complete_actors actor_error = true
requires_complete_actors incompatible = false
requires_complete_actors inconclusive = false
requires_complete_actors harness_error = false

abbrev pub is_violated : Outcome → Bool
is_violated violation = true
is_violated _ = false

-- What the statuses of the actors say of the outcome.
unfoldable pub fits_statuses : Outcome → Bool → Bool
fits_statuses passed any_rejected = not any_rejected
fits_statuses violation any_rejected = not any_rejected
fits_statuses actor_error any_rejected = any_rejected
fits_statuses _ any_rejected = true

-- A transfer that a step of a recorded COPY moved.
abbrev pub has_copy : TraceStep → Bool
has_copy step = elim step.completion [
  | none ↦ false
  | some (UnitCompletion.metadata m) ↦ false
  | some (ready c) ↦ not (length c.copy == 0)
  | some (flushed c) ↦ not (length c.copy == 0)
]

-- The parts that the checks between them read.
pub record Parts : Type 0 where
  pub dialect : Dialect
  pub outcome : Outcome
  pub duration_ms : ℕ
  pub plan : List (List PlanEntry)
  pub connections : Option (List ConnectionIdentity)
  pub trace : List TraceStep
  pub cancels : List CancelRecord
  pub actors : List ActorResult

module _ (p : Parts) where
  -- The actor of an available choice.
  abbrev pub choice_actor : Text → Text
  unfolding lane_value
  choice_actor label =
      if p.dialect.lanes
      then elim (lane_value (string label)) [ none ↦ label | some lane ↦ lane.actor ]
      else label

  abbrev pub plan_actors : List Text
  plan_actors = map (λ e. e.actor) (concat p.plan)

  abbrev pub step_actors : TraceStep → List Text
  step_actors step = step.actor ∷ map choice_actor step.available

  abbrev pub actor_names : List Text
  actor_names = map (λ a. a.actor) p.actors

  -- Every name of the record outside its results.
  abbrev pub named_actors : List Text
  named_actors =
      plan_actors
      ++ map (λ c. c.actor) (or_else p.connections [])
      ++ concat (map step_actors p.trace)
      ++ map (λ c. c.actor) p.cancels

  abbrev pub distinct_names : List Text → List Text → List Text
  distinct_names seen [] = seen
  distinct_names seen (t ∷ ts) = distinct_names (add t seen) ts

  abbrev pub connection_keys : List Text
  connection_keys = map connection_key (or_else p.connections [])

  -- A lane that a choice names was admitted.
  abbrev pub is_lane_admitted : PlanEntry → Bool
  unfolding lane_key
  is_lane_admitted entry = elim entry.connection [
    | none ↦ true
    | some n ↦ has (lane_key entry.actor n) connection_keys
  ]

  -- A run that ended by itself has the results of at least two actors and of all that it names.
  unfoldable pub is_complete : Bool
  is_complete =
      all is_lane_admitted (concat p.plan)
      && leb 2 (length actor_names)
      && all (λ name. has name actor_names) named_actors

  unfoldable pub check_sequence : Option (Unit {0})
  unfolding validate_flush_stage_sequence validate_stage_sequence
  check_sequence =
      let complete_ = requires_complete_actors p.outcome in
      if p.dialect.flush_stages
      then validate_flush_stage_sequence complete_ p.dialect.lanes p.trace
      else if p.dialect.staged
      then validate_stage_sequence complete_ p.dialect.lanes p.trace
      else some tt

  -- A record of version 5 has what version 5 is for.
  unfoldable pub is_version_needed : Bool
  is_version_needed =
      not p.dialect.version_5
      || p.dialect.flush_stages
      || not (length p.cancels == 0)
      || any has_copy p.trace

  unfoldable pub check_parts : Option (Unit {0})
  unfolding validate_overlap_pairs is_version_needed are_times_ordered are_blockers_known
      check_sequence is_complete fits_statuses
  check_parts = do
    if p.dialect.overlap then validate_overlap_pairs p.dialect.lanes p.trace else some tt
    guard is_version_needed
    guard (are_times_ordered p.duration_ms 0 p.trace)
    guard (are_blockers_known p.dialect.lanes p.trace)
    guard (leb (length p.actors) max_actors && is_unique text_eq actor_names)
    guard (leb (length (distinct_names [] (named_actors ++ actor_names))) max_actors)
    check_sequence
    guard (not (requires_complete_actors p.outcome) || is_complete)
    guard (fits_statuses p.outcome (any (λ a. is_rejected a.status) p.actors))
