-- ===== src/Artifacts/Stages/Refinement.antt =====
-- The describe stages of a trace, connection by connection.
use interleave.Prelude.{
  ◌≡◌, refl, sym, ap, ◌∙◌, subst, Bool, true, false, ◌&&◌, not, Option, none, some, List, [], ◌∷◌,
  Text, Dict, text_eq, text_eq_refl, eq_of_text_eq, lookup, insert, remove, any, Bool-cases,
  Option-cases, inl, inr, ◌↔◌, arith, guard, bind-some,
}
use interleave.Types.{TraceStep, is_some}
use interleave.Artifacts.Stages.{
  LaneState, new_lane, step_key, lane_state, Sequence, ActiveCycle, lane_step, leave_actor,
  enter_actor, sequence_step, sequence_from, validate_stage_sequence, is_completed_by,
}
use interleave.Artifacts.Stages.Lanes.{
  steps_of, run, track, track-run, run-track, track-IsDistinct, IsDistinct,
}

-- A connection accepts its own steps, and leaves no describe stage open in a completed run.
abbrev pub settles : Bool → Option LaneState → Bool
settles must_complete none = false
settles must_complete (some state) = not (must_complete && is_some state.prefix)

unfoldable pub lane_accepts : Bool → Text → List TraceStep → Bool
unfolding run lane_step
lane_accepts must_complete key trace =
    settles must_complete (run (lane_step must_complete) new_lane (steps_of key trace))

module _ (must_complete lanes : Bool) where
  pub sequence_from-track :
      (trace : List TraceStep) (s final : Sequence)
      → sequence_from must_complete lanes s trace ≡ some final
      → track (lane_step must_complete) s.cycles trace ≡ some final.cycles
  unfolding sequence_from track sequence_step
  sequence_from-track [] s final h = let same : s ≡ final = cc in ap (λ x. some x.cycles) same
  sequence_from-track (step ∷ trace) s final h =
      let (after, e, k) = bind-some (sequence_step must_complete lanes s step) _ h in
      let (actors, e', k') = bind-some (leave_actor lanes s.actor_cycles step) _ e in
      let (state, e'', k'') =
        bind-some (lane_step must_complete (lane_state (step_key step) s.cycles) step) _ k' in
      let cycles : after.cycles ≡ insert (step_key step) state s.cycles = ground arith in
      rw e'' (
        ap (λ c. track (lane_step must_complete) c trace) (sym cycles)
        ∙ sequence_from-track trace after final k)

leave_actor-lanes :
    (actors : Dict ActiveCycle) (step : TraceStep)
    → (after : Dict ActiveCycle) × (leave_actor true actors step ≡ some after)
unfolding leave_actor
leave_actor-lanes actors step = elim (Option-cases (lookup step.actor actors)) [
  | inl absent ↦ (actors, ground arith)
  | inr (active, e) ↦ elim (Bool-cases (is_completed_by active.completed_at step.released_at)) [
    | inl over ↦ (remove step.actor actors, ground arith)
    | inr open_cycle ↦ (actors, ground arith)
  ]
]

module _ (must_complete : Bool) where
  track-sequence_from :
      (trace : List TraceStep) (s : Sequence) (states : Dict LaneState)
      → track (lane_step must_complete) s.cycles trace ≡ some states
      → (final : Sequence) × (sequence_from must_complete true s trace ≡ some final)
        × (final.cycles ≡ states)
  unfolding sequence_from track sequence_step
  track-sequence_from [] s states h = (s, refl, cc)
  track-sequence_from (step ∷ trace) s states h =
      let (state, e, k) =
        bind-some (lane_step must_complete (lane_state (step_key step) s.cycles) step) _ h in
      let (actors, e') = leave_actor-lanes s.actor_cycles step in
      let after : Sequence = record {
        cycles = insert (step_key step) state s.cycles;
        actor_cycles = enter_actor actors step;
      } in
      let (final, e'', same) = track-sequence_from trace after states k in
      (final, rw e' (rw e e''), same)

-- Some connection's describe stage is open.
abbrev any_open : Dict LaneState → Bool
any_open states = any (λ (key, state). is_some state.prefix) states

open-lane_state :
    (key : Text) (states : Dict LaneState)
    → any_open states ≡ false
    → is_some (lane_state key states).prefix ≡ false
unfolding lookup
open-lane_state key [] h = refl
open-lane_state key ((k, v) ∷ states) h = ground (arith, open-lane_state key states)

lane_state-open :
    (states : Dict LaneState)
    → IsDistinct states
    → ((key : Text) → is_some (lane_state key states).prefix ≡ false)
    → any_open states ≡ false
unfolding lookup
lane_state-open [] d h = refl
lane_state-open ((k, v) ∷ states) d h =
    let own : is_some v.prefix ≡ false = (rw (text_eq_refl k) at (h k)) in
    let rest = lane_state-open states d.1 (λ key. elim (Bool-cases (text_eq k key)) [
      | inl same ↦
          let equal = eq_of_text_eq k key same in
          let absent : lookup key states ≡ none = subst (λ x. lookup x states ≡ none) equal d.0 in
          rw absent refl
      | inr other ↦ let shown = rw other at (h key) in shown
    ]) in
    ground arith

settled :
    (must_complete : Bool) (key : Text) (states : Dict LaneState)
    → not (must_complete && any_open states) ≡ true
    → settles must_complete (some (lane_state key states)) ≡ true
settled false key states h = refl
settled true key states h = let closed = open-lane_state key states (ground arith) in rw closed refl

unsettled :
    (must_complete : Bool) (states : Dict LaneState)
    → IsDistinct states
    → ((key : Text) → settles must_complete (some (lane_state key states)) ≡ true)
    → not (must_complete && any_open states) ≡ true
unsettled false states d h = refl
unsettled true states d h =
    let closed = lane_state-open states d (λ key. let own = h key in ground arith) in rw closed refl

settles-some : (m : Bool) (o : Option LaneState) → settles m o ≡ true → is_some o ≡ true
settles-some m none h = cc
settles-some m (some state) h = refl

abbrev start : Sequence
start = record { cycles = []; actor_cycles = [] }

module _ (must_complete : Bool) (trace : List TraceStep) where
  -- What holds of every connection, whether or not the record names lanes.
  pub validate_stage_sequence-accepts :
      (lanes : Bool)
      → validate_stage_sequence must_complete lanes trace ≡ some tt
      → (key : Text) → lane_accepts must_complete key trace ≡ true
  unfolding validate_stage_sequence lane_accepts lookup
  validate_stage_sequence-accepts lanes h key =
      let (final, e, g) = bind-some (sequence_from must_complete lanes start trace) _ h in
      let states = sequence_from-track must_complete lanes trace start final e in
      let own = track-run (lane_step must_complete) key trace [] final.cycles states in
      rw own (settled must_complete key final.cycles (ground arith))

  accepts-validate_stage_sequence :
      ((key : Text) → lane_accepts must_complete key trace ≡ true)
      → validate_stage_sequence must_complete true trace ≡ some tt
  unfolding validate_stage_sequence lane_accepts lookup
  accepts-validate_stage_sequence h =
      let (states, t) =
        run-track (lane_step must_complete) trace []
          (λ key. settles-some must_complete _ (h key)) in
      let (final, e, same) = track-sequence_from must_complete trace start states t in
      let closed =
        unsettled must_complete states
          (track-IsDistinct (lane_step must_complete) trace [] states tt t)
          (λ key.
            ap (settles must_complete)
              (sym (track-run (lane_step must_complete) key trace [] states t))
            ∙ h key) in
      rw e (ap (λ c. guard (not (must_complete && any_open c))) same ∙ ap guard closed)

  -- Where a record names lanes, a trace is accepted exactly when each connection accepts its own
  -- steps: in their order, and with no describe stage left open in a completed run.
  pub validate_stage_sequence-lanes :
      (validate_stage_sequence must_complete true trace ≡ some tt)
      ↔ ((key : Text) → lane_accepts must_complete key trace ≡ true)
  validate_stage_sequence-lanes =
      (validate_stage_sequence-accepts true, accepts-validate_stage_sequence)
