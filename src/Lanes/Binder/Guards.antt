-- ===== src/Lanes/Binder/Guards.antt =====
-- A new binder, every binder that binds have led to, and the reads of the maps that cannot fail.
use interleave.Prelude.{
  ℕ, ◌≡◌, ◌≢◌, refl, none, some, List, [], ◌∷◌, ◌++◌, Text, Dict, lookup, insert, lookup-insert,
  arith, Option-cases, inl, inr,
}
use interleave.Types.{ConnectionIdentity, StepIdentity, RunResult, or_else}
use interleave.Lanes.Labels.{lane_label}
use interleave.Lanes.Plans.{identities}
use interleave.Lanes.Resolve.{LiveLane}
use interleave.Lanes.Binder.{
  RecordedLane, Binder, recorded_for, live_for, bound, bind, new_binder, add_connections, add_step,
  add_steps,
}
use interleave.Lanes.Replay.{dangling, bound_mismatch, lane_mismatch, mismatch}
use interleave.Lanes.Binder.Bijection.{IsBijective, bind-IsBijective}

-- No recorded lane of the map is bound.
IsFree : Dict RecordedLane → Type 0
IsFree m = (k : Text) (r : RecordedLane) → lookup k m ≡ some r → r.live ≡ none

insert-IsFree :
    (key : Text) (r : RecordedLane) (m : Dict RecordedLane)
    → r.live ≡ none
    → IsFree m
    → IsFree (insert key r m)
unfolding IsFree
insert-IsFree key r m free h k s e = ground (arith, lookup-insert key k r m, h k s)

add_connections-IsFree :
    (cs : List ConnectionIdentity) (m : Dict RecordedLane)
    → IsFree m
    → IsFree (add_connections cs m)
unfolding add_connections
add_connections-IsFree [] m h = h
add_connections-IsFree (c ∷ cs) m h =
    add_connections-IsFree cs _ (insert-IsFree (lane_label c.actor c.connection) _ m refl h)

add_step-IsFree :
    (step : StepIdentity) (m : Dict RecordedLane) → IsFree m → IsFree (add_step step m)
unfolding add_step IsFree
add_step-IsFree step m h k s e =
    let key = lane_label step.actor step.connection in
    elim (Option-cases (lookup key m)) [
      | inl missing ↦ ground (arith, h k s)
      | inr (r, found) ↦
          ground (
            arith,
            h k s,
            h key r,
            lookup-insert key k (record r { steps = r.steps ++ step ∷ [] }) m,
          )
    ]

add_steps-IsFree :
    (trace : List StepIdentity) (m : Dict RecordedLane) → IsFree m → IsFree (add_steps trace m)
unfolding add_steps
add_steps-IsFree [] m h = h
add_steps-IsFree (step ∷ trace) m h =
    add_steps-IsFree trace (add_step step m) (add_step-IsFree step m h)

-- A new binder has bound nothing, whatever the recorded run holds.
pub new_binder-unbound :
    (run : RunResult) (actor : Text) (n : ℕ)
    → (recorded_for (new_binder run) actor n ≡ none) × (live_for (new_binder run) actor n ≡ none)
unfolding new_binder recorded_for live_for lookup IsFree
new_binder-unbound run actor n =
    let start = add_connections (or_else run.connections []) [] in
    let m = add_steps (identities run.trace) start in
    let free =
      add_steps-IsFree (identities run.trace) start
        (add_connections-IsFree (or_else run.connections []) [] (λ k r e. absurd (ground arith))) in
    (
      refl,
      elim (Option-cases (lookup (lane_label actor n) m)) [
        | inl missing ↦ ground arith
        | inr (r, found) ↦ ground (arith, free (lane_label actor n) r found)
      ],
    )

-- The binders of a replay: the new one, and each that a bind which succeeds leads to.
pub data Reach (run : RunResult) : Binder → Type 0 where
  start : Reach run (new_binder run)
  bind_step :
      {b b' : Binder} (actor : Text) (recorded live : ℕ)
      → Reach run b
      → bind b actor recorded live ≡ bound b'
      → Reach run b'

-- Whatever binds a replay makes, its bindings are a bijection between recorded and live lanes.
pub Reach-IsBijective : (run : RunResult) (b : Binder) → Reach run b → IsBijective b
Reach-IsBijective run b start = record {
  forth = λ actor live recorded e. absurd (ground (arith, new_binder-unbound run actor live));
  back = λ actor live recorded e. absurd (ground (arith, new_binder-unbound run actor recorded));
}
Reach-IsBijective run b' (bind_step {b} actor recorded live r e) =
    bind-IsBijective b actor recorded live b' (Reach-IsBijective run b r) e

module _ (b : Binder) (v : IsBijective b) where
  lane_mismatch-ne-dangling : (lane : LiveLane) → lane_mismatch b lane ≢ some dangling
  unfolding lane_mismatch bound_mismatch live_for
  lane_mismatch-ne-dangling lane h = elim (Option-cases lane.head) [
    | inl idle ↦ ground arith
    | inr (head, queued) ↦ elim (Option-cases (recorded_for b lane.actor lane.connection)) [
      | inl free ↦ ground arith
      | inr (n, taken) ↦ ground (arith, v.forth lane.actor lane.connection n)
    ]
  ]

  -- While the bindings are a bijection, a bound lane's record is there: the check of the queued
  -- commands never reads a lane that is missing.
  pub mismatch-ne-dangling : (lanes : List LiveLane) → mismatch b lanes ≢ some dangling
  unfolding mismatch
  mismatch-ne-dangling [] h = cc
  mismatch-ne-dangling (lane ∷ lanes) h = elim (Option-cases (lane_mismatch b lane)) [
    | inl fits ↦ mismatch-ne-dangling lanes (ground arith)
    | inr (m, found) ↦ lane_mismatch-ne-dangling lane (ground arith)
  ]
