-- ===== src/Artifacts/FlushStages.antt =====
-- artifact-schema.ts, `validateFlushStageSequence`: cycles of Flush stages up to a Sync. The part of
-- a step's check that reads its own connection's state is `flush_lane_step`; an open cycle is the
-- `prefix` of its state.
pub mod Refinement
use interleave.Prelude.{
  ℕ, suc, Bool, true, false, ◌&&◌, ◌||◌, not, Option, none, some, List, [], ◌∷◌, Text, Dict,
  text_eq, lookup, insert, remove, leb, ◌==◌, if◌then◌else◌, guard, ◌>>=◌, ◌>>◌,
}
use interleave.Types.{
  TraceStep, complete, describe, recover, flush, sync, option_eq, is_some, UnitCompletion, ready,
  flushed, MetadataCompletion, described, metadata_error, ErrorInfo,
}
use interleave.Artifacts.Steps.{is_stage}
use interleave.Artifacts.Stages.{LaneState, new_lane, step_key, follows, is_recovery_of, lane_state}

-- The error that left an open cycle, where its last stage has one.
abbrev pub failure_of : Option UnitCompletion → Option ErrorInfo
failure_of (some (UnitCompletion.metadata (metadata_error error))) = some error
failure_of (some (UnitCompletion.metadata (described _ _ _))) = none
failure_of (some (ready c)) = c.error
failure_of (some (flushed c)) = c.error
failure_of none = none

abbrev pub may_continue : TraceStep → TraceStep → Bool
unfolding is_recovery_of
may_continue open_stage step = elim (failure_of open_stage.completion) [
  | some error ↦ is_stage step.stage recover && is_recovery_of error step.completion
  | none ↦ is_stage step.stage flush || is_stage step.stage sync
]

module _ (must_complete : Bool) where
  -- A stage of a cycle that is open.
  abbrev continue_cycle : LaneState → TraceStep → TraceStep → Option LaneState
  unfolding is_recovery_of
  continue_cycle state open_stage step = do
    guard (option_eq ◌==◌ step.cycle open_stage.cycle)
    guard (option_eq ◌==◌ step.prefix_ordinal (some open_stage.ordinal))
    guard (may_continue open_stage step)
    some (
        if is_stage step.stage flush
        then record state { prefix = some step }
        else record state { next_cycle = suc state.next_cycle; prefix = none })

  -- The first stage of a cycle.
  abbrev begin_cycle : LaneState → TraceStep → Option LaneState
  begin_cycle state step = do
    guard (option_eq ◌==◌ step.cycle (some state.next_cycle))
    guard (not (is_some step.prefix_ordinal))
    guard
        (is_stage step.stage complete || is_stage step.stage describe || is_stage step.stage flush)
    some (
        if is_stage step.stage complete
        then record state { next_cycle = suc state.next_cycle }
        else record state { prefix = some step })

  unfoldable pub flush_lane_step : LaneState → TraceStep → Option LaneState
  unfolding follows is_recovery_of
  flush_lane_step state step = do
    guard (follows state.previous step)
    state' ← elim state.prefix [
      | some open_stage ↦ continue_cycle state open_stage step
      | none ↦ begin_cycle state step
    ]
    guard (not must_complete || is_some step.completion)
    some (record state' { previous = some step })

pub record FlushSequence : Type 0 where
  pub cycles : Dict LaneState
  -- the connection that an actor's open cycle stands on
  pub owners : Dict ℕ

module _ (lanes : Bool) where
  abbrev pub may_enter : Dict ℕ → TraceStep → Bool
  may_enter owners step = elim (lookup step.actor owners) [
    | none ↦ true
    | some owner ↦ lanes || owner == step.connection
  ]

-- An actor's cycle is open after a stage that is neither complete nor the cycle's last.
abbrev pub hand_over : LaneState → TraceStep → Dict ℕ → Dict ℕ
hand_over before step owners =
    if is_some before.prefix
    then if is_stage step.stage flush then owners else remove step.actor owners
    else if is_stage step.stage complete
    then owners
    else insert step.actor step.connection owners

module _ (must_complete lanes : Bool) where
  unfoldable pub flush_sequence_step : FlushSequence → TraceStep → Option FlushSequence
  unfolding flush_lane_step
  flush_sequence_step s step = do
    let before = lane_state (step_key step) s.cycles
    guard (may_enter lanes s.owners step)
    state ← flush_lane_step must_complete before step
    some (record {
      cycles = insert (step_key step) state s.cycles;
      owners = hand_over before step s.owners;
    })

  unfoldable pub flush_sequence_from : FlushSequence → List TraceStep → Option FlushSequence
  unfolding flush_sequence_step
  flush_sequence_from s [] = some s
  flush_sequence_from s (step ∷ trace) = do
    after ← flush_sequence_step s step
    flush_sequence_from after trace

  unfoldable pub validate_flush_stage_sequence : List TraceStep → Option (Unit {0})
  unfolding flush_sequence_from
  validate_flush_stage_sequence trace = do
    final ← flush_sequence_from (record { cycles = []; owners = [] }) trace
    some tt
