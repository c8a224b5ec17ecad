-- ===== src/Artifacts/Stages.antt =====
-- artifact-schema.ts, `validateStageSequence`: cycles of a describe stage and its continuation. The
-- part of a step's check that reads its own connection's state is `lane_step`.
pub mod Lanes
pub mod Refinement
pub mod Sequential
use interleave.Prelude.{
  ℕ, suc, Bool, true, false, ◌&&◌, ◌||◌, not, Option, none, some, List, [], ◌∷◌, Text, Dict,
  text_eq, lookup, insert, remove, any, leb, ◌==◌, if◌then◌else◌, guard, ◌>>=◌, ◌>>◌,
}
use interleave.Types.{
  TraceStep, StepStage, complete, describe, execute, recover, flush, sync, option_eq, is_some,
  UnitCompletion, ready, flushed, MetadataCompletion, described, metadata_error, ErrorInfo, or_else,
  TransactionStatus, idle, transaction, failed,
}
use interleave.Artifacts.Fields.{lane_key}
use interleave.Artifacts.Steps.{is_stage}

-- What a connection has recorded so far: its next cycle, the stage that is open and the last step.
pub record LaneState : Type 0 where
  pub next_cycle : ℕ
  pub prefix : Option TraceStep
  pub previous : Option TraceStep

abbrev pub new_lane : LaneState
new_lane = record { next_cycle = 0; prefix = none; previous = none }

abbrev pub step_key : TraceStep → Text
unfolding lane_key
step_key step = lane_key step.actor step.connection

abbrev pub is_continuation : TraceStep → Bool
is_continuation step = is_stage step.stage execute || is_stage step.stage recover

abbrev pub is_completed_by : Option ℕ → ℕ → Bool
is_completed_by none at = false
is_completed_by (some completed) at = leb completed at

-- A connection runs one stage at a time, on one backend.
unfoldable pub follows : Option TraceStep → TraceStep → Bool
follows none step = true
follows (some previous) step =
    is_completed_by previous.completed_at step.released_at
    && previous.backend_pid == step.backend_pid

abbrev pub is_open_transaction : TransactionStatus → Bool
is_open_transaction transaction = true
is_open_transaction idle = false
is_open_transaction failed = false

abbrev pub error_eq : ErrorInfo → ErrorInfo → Bool
error_eq a b = text_eq a.code b.code && text_eq a.message b.message

-- What the Sync after an error may report: no open transaction, and no other error.
unfoldable pub is_recovery_of : ErrorInfo → Option UnitCompletion → Bool
is_recovery_of expected (some (ready c)) =
    not (is_open_transaction c.transaction_status)
    && elim c.error [ none ↦ true | some error ↦ error_eq error expected ]
is_recovery_of expected _ = true

-- Whether a continuation is what the metadata of its prefix asks for.
unfoldable pub is_required : Option UnitCompletion → TraceStep → Bool
unfolding is_recovery_of
is_required (some (UnitCompletion.metadata (metadata_error error))) step =
    is_stage step.stage recover && is_recovery_of error step.completion
is_required (some (UnitCompletion.metadata (described _ _ _))) step = is_stage step.stage execute
is_required _ step = false

abbrev pub continues : TraceStep → TraceStep → Bool
unfolding is_required
continues prefix step =
    option_eq ◌==◌ (some prefix.ordinal) step.prefix_ordinal
    && prefix.backend_pid == step.backend_pid
    && text_eq prefix.sql step.sql
    && is_required prefix.completion step

module _ (must_complete : Bool) where
  unfoldable pub lane_step : LaneState → TraceStep → Option LaneState
  unfolding follows is_required
  lane_step state step = do
    guard (follows state.previous step)
    guard (option_eq ◌==◌ step.cycle (some state.next_cycle))
    state' ←
        if is_continuation step
        then (do
          prefix ← state.prefix
          guard (continues prefix step)
          some (record state { next_cycle = suc state.next_cycle; prefix = none }))
        else (do
          guard (not (is_some state.prefix))
          some (
              if is_stage step.stage describe
              then record state { prefix = some step }
              else record state { next_cycle = suc state.next_cycle }))
    guard (not must_complete || is_some step.completion)
    some (record state' { previous = some step })

-- The connection that an actor's cycle stands on, and when its continuation completed.
pub record ActiveCycle : Type 0 where
  pub connection : ℕ
  pub completed_at : Option ℕ

pub record Sequence : Type 0 where
  pub cycles : Dict LaneState
  pub actor_cycles : Dict ActiveCycle

abbrev pub lane_state : Text → Dict LaneState → LaneState
lane_state key cycles = or_else (lookup key cycles) new_lane

module _ (lanes : Bool) where
  -- One command connection per actor before version 4.
  unfoldable pub leave_actor : Dict ActiveCycle → TraceStep → Option (Dict ActiveCycle)
  leave_actor actors step = elim (lookup step.actor actors) [
    | none ↦ some actors
    | some active ↦
        if is_completed_by active.completed_at step.released_at
        then some (remove step.actor actors)
        else (do guard (lanes || active.connection == step.connection); some actors)
  ]

unfoldable pub enter_actor : Dict ActiveCycle → TraceStep → Dict ActiveCycle
enter_actor actors step =
    if is_continuation step
    then insert step.actor
        (record { connection = step.connection; completed_at = step.completed_at }) actors
    else if is_stage step.stage describe
    then insert step.actor (record { connection = step.connection; completed_at = none }) actors
    else actors

module _ (must_complete lanes : Bool) where
  unfoldable pub sequence_step : Sequence → TraceStep → Option Sequence
  unfolding leave_actor enter_actor lane_step
  sequence_step s step = do
    actors ← leave_actor lanes s.actor_cycles step
    state ← lane_step must_complete (lane_state (step_key step) s.cycles) step
    some (record {
      cycles = insert (step_key step) state s.cycles;
      actor_cycles = enter_actor actors step;
    })

  unfoldable pub sequence_from : Sequence → List TraceStep → Option Sequence
  unfolding sequence_step
  sequence_from s [] = some s
  sequence_from s (step ∷ trace) = do after ← sequence_step s step; sequence_from after trace

  unfoldable pub validate_stage_sequence : List TraceStep → Option (Unit {0})
  unfolding sequence_from
  validate_stage_sequence trace = do
    final ← sequence_from (record { cycles = []; actor_cycles = [] }) trace
    guard (not (must_complete && any (λ (key, state). is_some state.prefix) final.cycles))
