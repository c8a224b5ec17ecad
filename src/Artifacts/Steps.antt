-- ===== src/Artifacts/Steps.antt =====
-- artifact-schema.ts, `validateTraceStep`: one recorded step by itself.
pub mod Facts
pub mod StageNames
pub mod Units
use interleave.Prelude.{
  ℕ, Bool, true, false, ◌&&◌, ◌||◌, not, Option, none, some, List, [], ◌∷◌, ◌++◌, Text, Dict, codes,
  text_eq, has, length, leb, ◌==◌, if◌then◌else◌, guard, ◌>>=◌, ◌>>◌, traverse,
}
use interleave.Types.{
  ProtocolKind, simple, extended, StepStage, complete, describe, execute, recover, flush, sync,
  stage_eq, is_some, TraceStep, StepIdentity, WaitObservation, UnitIdentity, UnitCompletion, ready,
  flushed, ReadyCompletion, protocol_eq,
}
use interleave.Lanes.Labels.{lane_label}
use interleave.Artifacts.Json.{Json}
use interleave.Artifacts.Fields.{
  shape, field, has_own, array_value, bounded_string, bounded_bytes, enum_value, safe_integer,
  finite_number, fingerprint_value, actor_id, lane_value, max_sql_bytes,
}
use interleave.Artifacts.Completions.{
  optional, when, validate_completion, validate_flush_completion, is_unique, bool_eq,
}
use interleave.Artifacts.Outcomes.{validate_wait}

abbrev pub max_available_actors : ℕ
max_available_actors = 8

abbrev pub max_available_lanes : ℕ
max_available_lanes = 64

abbrev pub max_waits_per_step : ℕ
max_waits_per_step = 10000

-- What the version and the limits of a record say of its steps: whether they have stages, name
-- lanes, may be paired, may hold COPY transfers and are in Flush stages.
pub record Dialect : Type 0 where
  pub staged : Bool
  pub lanes : Bool
  pub overlap : Bool
  pub version_5 : Bool
  pub flush_stages : Bool

abbrev pub required_keys : List Text
required_keys =
    codes "index"
    ∷ codes "actor"
    ∷ codes "connection"
    ∷ codes "ordinal"
    ∷ codes "protocol"
    ∷ codes "sql"
    ∷ codes "fingerprint"
    ∷ codes "backendPid"
    ∷ codes "available"
    ∷ codes "releasedAt"
    ∷ codes "waits"
    ∷ []

abbrev pub stage_names : Bool → Dict StepStage
stage_names true =
    (codes "complete", complete)
    ∷ (codes "describe", describe)
    ∷ (codes "flush", flush)
    ∷ (codes "sync", sync)
    ∷ (codes "recover", recover)
    ∷ []
stage_names false =
    (codes "complete", complete)
    ∷ (codes "describe", describe)
    ∷ (codes "execute", execute)
    ∷ (codes "recover", recover)
    ∷ []

-- Whether a step names the stage before it: a continuation does, a Flush stage may.
abbrev pub names_prefix : Option StepStage → Bool → Bool
names_prefix (some execute) present = true
names_prefix (some recover) present = true
names_prefix (some sync) present = true
names_prefix (some flush) present = present
names_prefix _ present = false

abbrev pub is_stage : Option StepStage → StepStage → Bool
is_stage none stage = false
is_stage (some s) stage = stage_eq s stage

-- When a step was released, and how it completed.
pub record Progress : Type 0 where
  pub released_at : ℕ
  pub completed_at : Option ℕ
  pub completion : Option UnitCompletion

module _ (d : Dialect) where
  abbrev pub step_required : List Text
  step_required = required_keys ++ when d.staged (codes "stage" ∷ codes "cycle" ∷ [])

  abbrev pub step_allowed : List Text
  step_allowed =
      step_required
      ++ (codes "completedAt" ∷ codes "completion" ∷ [])
      ++ when d.staged (codes "prefixOrdinal" ∷ [])
      ++ when d.overlap (codes "overlap" ∷ [])

  -- A member that only staged records have.
  abbrev pub when_staged {ℓ} : {A : Type ℓ} → Option A → Option (Option A)
  when_staged value = if d.staged then (do v ← value; some (some v)) else some none

  unfoldable pub prefix_value : Dict Json → Option StepStage → Option (Option ℕ)
  unfolding safe_integer
  prefix_value ms stage =
      let present = has_own ms (codes "prefixOrdinal") in
      if names_prefix stage present
      then (do prefix ← safe_integer (← field ms (codes "prefixOrdinal")) 0; some (some prefix))
      else (do guard (not present); some none)

  -- A recorded unit, with the stages that its protocol has.
  unfoldable pub unit_value : Dict Json → Option UnitIdentity
  unfolding safe_integer enum_value bounded_bytes fingerprint_value prefix_value
  unit_value ms = do
    ordinal ← safe_integer (← field ms (codes "ordinal")) 0
    protocol ←
        enum_value (← field ms (codes "protocol"))
          ((codes "simple", simple) ∷ (codes "extended", extended) ∷ [])
    sql ← bounded_bytes (← field ms (codes "sql")) 0 max_sql_bytes
    fingerprint ← fingerprint_value (← field ms (codes "fingerprint"))
    stage ←
        when_staged
          (do named ← field ms (codes "stage"); enum_value named (stage_names d.flush_stages))
    cycle ← when_staged (do counted ← field ms (codes "cycle"); safe_integer counted 0)
    prefix ← prefix_value ms stage
    guard (not (is_some stage && not (is_stage stage complete) && protocol_eq protocol simple))
    some (record {
      ordinal = ordinal;
      protocol = protocol;
      sql = sql;
      fingerprint = fingerprint;
      stage = stage;
      cycle = cycle;
      prefix_ordinal = prefix;
    })

  unfoldable pub selected_choice : Text → ℕ → Text
  unfolding lane_label
  selected_choice actor connection = if d.lanes then lane_label actor connection else actor

  abbrev choice_value : Json → Option Text
  unfolding lane_value actor_id bounded_string
  choice_value value =
      if d.lanes then (do lane ← lane_value value; bounded_string value 1 58) else actor_id value

  unfoldable pub available_value : Json → Text → Option (List Text)
  unfolding array_value traverse lane_value actor_id bounded_string
  available_value value chosen = do
    values ← array_value value (if d.lanes then max_available_lanes else max_available_actors)
    guard (not (length values == 0))
    available ← traverse choice_value values
    guard (is_unique text_eq available)
    guard (has chosen available)
    some available

  -- Only executed commands leave tags, rows and transfers, so that the Sync of a recovery has none.
  unfoldable pub is_recovery_clean : Option StepStage → UnitCompletion → Bool
  is_recovery_clean stage (UnitCompletion.metadata m) = true
  is_recovery_clean stage (ready c) =
      not (is_stage stage recover)
      || (length c.command_tags == 0 && c.row_count == 0 && length c.copy == 0)
  is_recovery_clean stage (flushed c) = true

  unfoldable pub completion_value : Option StepStage → Json → Option UnitCompletion
  unfolding validate_flush_completion validate_completion is_recovery_clean
  completion_value stage value = do
    completion ←
        if is_stage stage flush
        then (do
          completion ← validate_flush_completion d.version_5 value
          some (flushed completion))
        else validate_completion d.staged d.version_5 value (is_stage stage describe)
    guard (is_recovery_clean stage completion)
    some completion

  -- Whose step it is, at an index.
  unfoldable pub identity_value : Dict Json → ℕ → Option StepIdentity
  unfolding safe_integer actor_id unit_value
  identity_value ms index = do
    recorded ← safe_integer (← field ms (codes "index")) 0
    guard (recorded == index)
    actor ← actor_id (← field ms (codes "actor"))
    connection ← safe_integer (← field ms (codes "connection")) 0
    unit ← unit_value ms
    some (record { actor = actor; connection = connection; unit = unit })

  unfoldable pub progress_value : Dict Json → Option StepStage → Option Progress
  unfolding finite_number completion_value
  progress_value ms stage = do
    released_at ← finite_number (← field ms (codes "releasedAt")) 0
    completed_at ← optional ms (codes "completedAt") (λ at. finite_number at released_at)
    completion ← optional ms (codes "completion") (completion_value stage)
    guard (bool_eq (is_some completed_at) (is_some completion))
    some
        (record { released_at = released_at; completed_at = completed_at; completion = completion })

  unfoldable pub waits_value : Json → ℕ → Option (List WaitObservation)
  unfolding array_value traverse validate_wait
  waits_value value backend_pid = do
    waits ← array_value value max_waits_per_step
    traverse (validate_wait backend_pid) waits

  unfoldable pub validate_trace_step : ℕ → Json → Option TraceStep
  unfolding selected_choice shape identity_value safe_integer available_value progress_value
      waits_value
  validate_trace_step index value = do
    ms ← shape value step_allowed step_required
    identity ← identity_value ms index
    backend_pid ← safe_integer (← field ms (codes "backendPid")) 1
    available ←
        available_value (← field ms (codes "available"))
          (selected_choice identity.actor identity.connection)
    progress ← progress_value ms identity.stage
    waits ← waits_value (← field ms (codes "waits")) backend_pid
    pair ← optional ms (codes "overlap") (λ index_. safe_integer index_ 0)
    some (record {
      identity = identity;
      index = index;
      backend_pid = backend_pid;
      available = available;
      released_at = progress.released_at;
      completed_at = progress.completed_at;
      completion = progress.completion;
      waits = waits;
      overlap = pair;
    })
