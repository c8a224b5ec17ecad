-- ===== src/Artifacts/FlushStages/Refinement.antt =====
-- The Flush stages of a trace, connection by connection.
use interleave.Prelude.{
  ℕ, ◌≡◌, refl, sym, ap, ◌∙◌, Bool, true, some, List, [], ◌∷◌, Text, Dict, lookup, insert,
  Option-cases, inl, inr, ◌↔◌, arith, guard, bind-some,
}
use interleave.Types.{TraceStep, is_some}
use interleave.Artifacts.Stages.{LaneState, new_lane, step_key, lane_state}
use interleave.Artifacts.FlushStages.{
  FlushSequence, flush_lane_step, flush_sequence_step, flush_sequence_from, hand_over, may_enter,
  validate_flush_stage_sequence,
}
use interleave.Artifacts.Stages.Lanes.{steps_of, run, track, track-run, run-track}

-- A connection accepts its own steps.
unfoldable pub flush_lane_accepts : Bool → Text → List TraceStep → Bool
unfolding run flush_lane_step
flush_lane_accepts must_complete key trace =
    is_some (run (flush_lane_step must_complete) new_lane (steps_of key trace))

may_enter-lanes : (owners : Dict ℕ) (step : TraceStep) → may_enter true owners step ≡ true
may_enter-lanes owners step = elim (Option-cases (lookup step.actor owners)) [
  | inl absent ↦ ground arith
  | inr (owner, e) ↦ ground arith
]

abbrev start : FlushSequence
start = record { cycles = []; owners = [] }

module _ (must_complete : Bool) where
  flush_sequence_from-track :
      (lanes : Bool) (trace : List TraceStep) (s final : FlushSequence)
      → flush_sequence_from must_complete lanes s trace ≡ some final
      → track (flush_lane_step must_complete) s.cycles trace ≡ some final.cycles
  unfolding flush_sequence_from track flush_sequence_step
  flush_sequence_from-track lanes [] s final h =
      let same : s ≡ final = cc in ap (λ x. some x.cycles) same
  flush_sequence_from-track lanes (step ∷ trace) s final h =
      let (after, e, k) = bind-some (flush_sequence_step must_complete lanes s step) _ h in
      let (entered, e', k') = bind-some (guard (may_enter lanes s.owners step)) _ e in
      let (state, e'', k'') =
        bind-some (flush_lane_step must_complete (lane_state (step_key step) s.cycles) step) _ k' in
      let cycles : after.cycles ≡ insert (step_key step) state s.cycles = ground arith in
      rw e'' (
        ap (λ c. track (flush_lane_step must_complete) c trace) (sym cycles)
        ∙ flush_sequence_from-track lanes trace after final k)

  track-flush_sequence_from :
      (trace : List TraceStep) (s : FlushSequence) (states : Dict LaneState)
      → track (flush_lane_step must_complete) s.cycles trace ≡ some states
      → (final : FlushSequence) × (flush_sequence_from must_complete true s trace ≡ some final)
  unfolding flush_sequence_from track flush_sequence_step
  track-flush_sequence_from [] s states h = (s, refl)
  track-flush_sequence_from (step ∷ trace) s states h =
      let before = lane_state (step_key step) s.cycles in
      let (state, e, k) = bind-some (flush_lane_step must_complete before step) _ h in
      let after : FlushSequence = record {
        cycles = insert (step_key step) state s.cycles;
        owners = hand_over before step s.owners;
      } in
      let (final, e') = track-flush_sequence_from trace after states k in
      (final, rw (may_enter-lanes s.owners step) (rw e e'))

module _ (must_complete : Bool) (trace : List TraceStep) where
  -- What holds of every connection, whether or not the record names lanes.
  pub validate_flush_stage_sequence-accepts :
      (lanes : Bool)
      → validate_flush_stage_sequence must_complete lanes trace ≡ some tt
      → (key : Text) → flush_lane_accepts must_complete key trace ≡ true
  unfolding validate_flush_stage_sequence flush_lane_accepts lookup
  validate_flush_stage_sequence-accepts lanes h key =
      let (final, e, g) = bind-some (flush_sequence_from must_complete lanes start trace) _ h in
      let states = flush_sequence_from-track must_complete lanes trace start final e in
      ap is_some (track-run (flush_lane_step must_complete) key trace [] final.cycles states)

  accepts-validate_flush_stage_sequence :
      ((key : Text) → flush_lane_accepts must_complete key trace ≡ true)
      → validate_flush_stage_sequence must_complete true trace ≡ some tt
  unfolding validate_flush_stage_sequence flush_lane_accepts lookup
  accepts-validate_flush_stage_sequence h =
      let (states, t) = run-track (flush_lane_step must_complete) trace [] h in
      let (final, e) = track-flush_sequence_from must_complete trace start states t in rw e refl

  -- Where a record of Flush stages names lanes, a trace is accepted exactly when each connection
  -- accepts its own steps.
  pub validate_flush_stage_sequence-lanes :
      (validate_flush_stage_sequence must_complete true trace ≡ some tt)
      ↔ ((key : Text) → flush_lane_accepts must_complete key trace ≡ true)
  validate_flush_stage_sequence-lanes =
      (validate_flush_stage_sequence-accepts true, accepts-validate_flush_stage_sequence)
