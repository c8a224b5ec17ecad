-- ===== src/Artifacts/Stages/Sequential.antt =====
-- The stages of one connection never overlap, and stay on its backend.
use interleave.Prelude.{
  ◌≡◌, refl, subst, Bool, true, false, Option, none, some, List, [], ◌∷◌, Text, arith, guard, ◌>>=◌,
  ◌>>◌, bind-some, guard-some,
}
use interleave.Types.{TraceStep, is_some}
use interleave.Artifacts.Stages.{LaneState, new_lane, follows, lane_step, validate_stage_sequence}
use interleave.Artifacts.FlushStages.{flush_lane_step, validate_flush_stage_sequence}
use interleave.Artifacts.Stages.Lanes.{steps_of, run}
use interleave.Artifacts.Stages.Refinement.{lane_accepts, settles, validate_stage_sequence-accepts}
use interleave.Artifacts.FlushStages.Refinement.{
  flush_lane_accepts, validate_flush_stage_sequence-accepts,
}

-- Each step follows the one before it: released once that has completed, on the same backend.
unfoldable pub IsSequentialAfter : Option TraceStep → List TraceStep → Type 0
unfolding follows
IsSequentialAfter before [] = Unit
IsSequentialAfter before (step ∷ steps) =
    (follows before step ≡ true) × IsSequentialAfter (some step) steps

unfoldable pub IsSequential : List TraceStep → Type 0
unfolding IsSequentialAfter
IsSequential steps = IsSequentialAfter none steps

-- A check of one connection that keeps its last step, and reads it first.
abbrev Keeps : (LaneState → TraceStep → Option LaneState) → Type 0
Keeps check =
    (state : LaneState) (step : TraceStep) (after : LaneState)
    → check state step ≡ some after
    → (follows state.previous step ≡ true) × (after.previous ≡ some step)

run-IsSequential :
    (check : LaneState → TraceStep → Option LaneState)
    → Keeps check
    → (steps : List TraceStep) (state final : LaneState) → run check state steps ≡ some final
    → IsSequentialAfter state.previous steps
unfolding run IsSequentialAfter
run-IsSequential check keeps [] state final h = tt
run-IsSequential check keeps (step ∷ steps) state final h =
    let (after, e, k) = bind-some (check state step) _ h in
    let (first, last) = keeps state step after e in
    (
      first,
      subst (λ p. IsSequentialAfter p steps) last
          (run-IsSequential check keeps steps after final k),
    )

kept :
    (step : TraceStep) (m : Option LaneState) (b : Bool) (after : LaneState)
    → (m >>= λ s. guard b >> some (record s { previous = some step })) ≡ some after
    → after.previous ≡ some step
kept step none b after h = cc
kept step (some s) true after h = ground arith
kept step (some s) false after h = cc

lane_step-Keeps : (must_complete : Bool) → Keeps (lane_step must_complete)
unfolding lane_step
lane_step-Keeps must_complete state step after h =
    let (first, rest) = guard-some (follows state.previous step) _ h in
    (first, kept step _ _ after (guard-some _ _ rest).1)

flush_lane_step-Keeps : (must_complete : Bool) → Keeps (flush_lane_step must_complete)
unfolding flush_lane_step
flush_lane_step-Keeps must_complete state step after h =
    let (first, rest) = guard-some (follows state.previous step) _ h in
    (first, kept step _ _ after rest)

is_some-some : (o : Option LaneState) → is_some o ≡ true → (s : LaneState) × (o ≡ some s)
is_some-some none h = cc
is_some-some (some s) h = (s, refl)

accepts-some :
    (must_complete : Bool) (o : Option LaneState)
    → settles must_complete o ≡ true
    → (s : LaneState) × (o ≡ some s)
accepts-some must_complete none h = cc
accepts-some must_complete (some s) h = (s, refl)

module _ (must_complete lanes : Bool) (trace : List TraceStep) (key : Text) where
  -- In a trace of describe stages that is accepted, each step of a connection was released once the
  -- connection's step before it had completed, and ran on the same backend.
  pub validate_stage_sequence-IsSequential :
      validate_stage_sequence must_complete lanes trace ≡ some tt
      → IsSequential (steps_of key trace)
  unfolding IsSequential lane_accepts
  validate_stage_sequence-IsSequential h =
      let own = validate_stage_sequence-accepts must_complete trace lanes h key in
      let (final, e) = accepts-some must_complete _ own in
      run-IsSequential (lane_step must_complete) (lane_step-Keeps must_complete) _ new_lane final e

  -- In a trace of Flush stages that is accepted, each step of a connection was released once the
  -- connection's step before it had completed, and ran on the same backend.
  pub validate_flush_stage_sequence-IsSequential :
      validate_flush_stage_sequence must_complete lanes trace ≡ some tt
      → IsSequential (steps_of key trace)
  unfolding IsSequential flush_lane_accepts
  validate_flush_stage_sequence-IsSequential h =
      let own = validate_flush_stage_sequence-accepts must_complete trace lanes h key in
      let (final, e) = is_some-some _ own in
      run-IsSequential (flush_lane_step must_complete) (flush_lane_step-Keeps must_complete) _
        new_lane final e
