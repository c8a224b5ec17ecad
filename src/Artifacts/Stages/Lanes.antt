-- ===== src/Artifacts/Stages/Lanes.antt =====
-- A trace that is checked with one state for each connection is checked connection by connection:
-- the states never meet.
use interleave.Prelude.{
  ◌≡◌, refl, sym, ap, ◌∙◌, subst, true, false, Option, none, some, List, [], ◌∷◌, Text, Dict,
  text_eq, text_eq_iff, eq_of_text_eq, text_eq_refl, lookup, insert, lookup-insert, filter,
  Bool-cases, Option-cases, inl, inr, arith, ◌>>=◌, bind-some,
}
use interleave.Types.{TraceStep, or_else, is_some}
use interleave.Artifacts.Stages.{LaneState, new_lane, step_key, lane_state}

abbrev pub steps_of : Text → List TraceStep → List TraceStep
steps_of key trace = filter (λ step. text_eq (step_key step) key) trace

-- No key stands twice in a map.
abbrev pub IsDistinct : Dict LaneState → Type 0
IsDistinct [] = Unit
IsDistinct ((k, v) ∷ m) = (lookup k m ≡ none) × IsDistinct m

pub insert-IsDistinct :
    (k : Text) (v : LaneState) (m : Dict LaneState) → IsDistinct m → IsDistinct (insert k v m)
unfolding insert lookup
insert-IsDistinct k v [] h = (refl, tt)
insert-IsDistinct k v ((j, w) ∷ m) h = elim (Bool-cases (text_eq j k)) [
  | inl same ↦ rw same h
  | inr other ↦ rw other (
    (lookup-insert k j v m ∙ ground (arith, text_eq_iff j k, text_eq_iff k j, h.0)),
    insert-IsDistinct k v m h.1,
  )
]

lane_state-insert_self :
    (key : Text) (v : LaneState) (m : Dict LaneState) → lane_state key (insert key v m) ≡ v
lane_state-insert_self key v m =
    ap (λ o. or_else o new_lane) (lookup-insert key key v m) ∙ ground (arith, text_eq_refl key)

lane_state-insert_other :
    (k j : Text) (v : LaneState) (m : Dict LaneState)
    → text_eq k j ≡ false
    → lane_state j (insert k v m) ≡ lane_state j m
lane_state-insert_other k j v m h =
    ap (λ o. or_else o new_lane) (lookup-insert k j v m) ∙ ground arith

module _ (step : LaneState → TraceStep → Option LaneState) where
  -- One connection's steps, one after the other.
  unfoldable pub run : LaneState → List TraceStep → Option LaneState
  run state [] = some state
  run state (s ∷ trace) = do after ← step state s; run after trace

  -- All steps, each on the state of its own connection.
  unfoldable pub track : Dict LaneState → List TraceStep → Option (Dict LaneState)
  track states [] = some states
  track states (s ∷ trace) = do
    after ← step (lane_state (step_key s) states) s
    track (insert (step_key s) after states) trace

  -- A step that is accepted is the next of its own connection, and nothing to the others.
  run-step :
      (s : TraceStep) (trace : List TraceStep) (states : Dict LaneState) (after : LaneState)
      → step (lane_state (step_key s) states) s ≡ some after
      → (key : Text)
      → run (lane_state key states) (steps_of key (s ∷ trace))
        ≡ run (lane_state key (insert (step_key s) after states)) (steps_of key trace)
  unfolding run
  run-step s trace states after e key = elim (Bool-cases (text_eq (step_key s) key)) [
    | inl same ↦
        let equal = eq_of_text_eq (step_key s) key same in
        let own : lane_state key (insert (step_key s) after states) ≡ after =
          ap (λ x. lane_state x (insert (step_key s) after states)) (sym equal)
          ∙ lane_state-insert_self (step_key s) after states in
        let first : step (lane_state key states) s ≡ some after =
          ap (λ x. step (lane_state x states) s) (sym equal) ∙ e in
        rw same (rw first (ap (λ x. run x (steps_of key trace)) (sym own)))
    | inr other ↦ rw other (
        ap (λ x. run x (steps_of key trace))
          (sym (lane_state-insert_other (step_key s) key after states other)))
  ]

  run-refused :
      (s : TraceStep) (trace : List TraceStep) (states : Dict LaneState)
      → step (lane_state (step_key s) states) s ≡ none
      → run (lane_state (step_key s) states) (steps_of (step_key s) (s ∷ trace)) ≡ none
  unfolding run
  run-refused s trace states e = rw (text_eq_refl (step_key s)) (rw e refl)

  pub track-run :
      (key : Text) (trace : List TraceStep) (states final : Dict LaneState)
      → track states trace ≡ some final
      → run (lane_state key states) (steps_of key trace) ≡ some (lane_state key final)
  unfolding run track
  track-run key [] states final h =
      let same : states ≡ final = cc in ap (λ m. some (lane_state key m)) same
  track-run key (s ∷ trace) states final h =
      let (after, e, k) = bind-some (step (lane_state (step_key s) states) s) _ h in
      run-step s trace states after e key
      ∙ track-run key trace (insert (step_key s) after states) final k

  pub track-IsDistinct :
      (trace : List TraceStep) (states final : Dict LaneState)
      → IsDistinct states
      → track states trace ≡ some final
      → IsDistinct final
  unfolding track
  track-IsDistinct [] states final d h = let same : states ≡ final = cc in subst IsDistinct same d
  track-IsDistinct (s ∷ trace) states final d h =
      let (after, e, k) = bind-some (step (lane_state (step_key s) states) s) _ h in
      track-IsDistinct trace (insert (step_key s) after states) final
        (insert-IsDistinct (step_key s) after states d) k

  -- What each connection accepts by itself, all accept together.
  pub run-track :
      (trace : List TraceStep) (states : Dict LaneState)
      → ((key : Text) → is_some (run (lane_state key states) (steps_of key trace)) ≡ true)
      → (final : Dict LaneState) × (track states trace ≡ some final)
  unfolding run track
  run-track [] states h = (states, refl)
  run-track (s ∷ trace) states h = elim (Option-cases (step (lane_state (step_key s) states) s)) [
    | inl bad ↦ let own = rw (run-refused s trace states bad) at (h (step_key s)) in absurd cc
    | inr (after, e) ↦
        let (final, k) =
          run-track trace (insert (step_key s) after states)
            (λ key. ap is_some (sym (run-step s trace states after e key)) ∙ h key) in
        (final, rw e k)
  ]
