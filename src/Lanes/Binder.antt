-- ===== src/Lanes/Binder.antt =====
-- lanes.ts: `LaneBinder`, which binds the lanes of a recorded run to those of a replay.
pub mod Bijection
pub mod Resolution
pub mod Guards
mod Tests
use interleave.Prelude.{
  ℕ, zero, suc, Bool, true, false, ◌&&◌, ◌||◌, not, Option, none, some, List, [], ◌∷◌, ◌++◌, map,
  Text, text_eq, Dict, lookup, insert, filter, find, any, all, length, get_elem?, ltb, ◌==◌,
  if◌then◌else◌,
}
use interleave.Types.{
  ConnectionIdentity, UnitIdentity, StepIdentity, RunResult, TraceStep, protocol_eq, stage_eq,
  complete, option_eq, or_else, is_some,
}
use interleave.Lanes.Labels.{Lane, lane_label}
use interleave.Lanes.Fair.{sort_lanes}
use interleave.Lanes.Plans.{identities}
use interleave.Lanes.Resolve.{
  LiveLane, PlanResolution, release, wait, incompatible, Reason, cannot_issue, not_queued,
  first_command, identity_changed, unrecorded, is_free, with_actor, with_connection, lane_of,
}

unfoldable pub same_unit : UnitIdentity → UnitIdentity → Bool
same_unit expected unit =
    expected.ordinal == unit.ordinal
    && protocol_eq expected.protocol unit.protocol
    && text_eq expected.fingerprint unit.fingerprint
    && stage_eq (or_else expected.stage complete) (or_else unit.stage complete)
    && or_else expected.cycle expected.ordinal == or_else unit.cycle unit.ordinal
    && option_eq ◌==◌ expected.prefix_ordinal unit.prefix_ordinal

pub record RecordedLane : Type 0 where
  pub lane : Lane
  pub open lane use *
  pub fingerprint : Text
  pub steps : List StepIdentity
  pub live : Option ℕ

-- `recorded` and `live` are keyed by lane labels.
pub record Binder : Type 0 where
  pub recorded : Dict RecordedLane
  pub live : Dict ℕ

unfoldable pub add_connections : List ConnectionIdentity → Dict RecordedLane → Dict RecordedLane
add_connections [] recorded = recorded
add_connections (c ∷ more) recorded = add_connections more (
    insert (lane_label c.actor c.connection)
      (record {
        lane = record { actor = c.actor; connection = c.connection };
        fingerprint = c.fingerprint;
        steps = [];
        live = none;
      })
      recorded)

unfoldable pub add_step : StepIdentity → Dict RecordedLane → Dict RecordedLane
add_step step recorded = elim (lookup (lane_label step.actor step.connection) recorded) [
  | none ↦ recorded
  | some r ↦
      insert (lane_label step.actor step.connection) (record r { steps = r.steps ++ step ∷ [] })
        recorded
]

unfoldable pub add_steps : List StepIdentity → Dict RecordedLane → Dict RecordedLane
unfolding add_step
add_steps [] recorded = recorded
add_steps (step ∷ more) recorded = add_steps more (add_step step recorded)

-- The constructor.
unfoldable pub new_binder : RunResult → Binder
unfolding add_connections add_steps
new_binder run = record {
  recorded = add_steps (identities run.trace) (add_connections (or_else run.connections []) []);
  live = [];
}

unfoldable pub recorded_for : Binder → Text → ℕ → Option ℕ
recorded_for b actor live_connection = lookup (lane_label actor live_connection) b.live

unfoldable pub live_for : Binder → Text → ℕ → Option ℕ
live_for b actor recorded_connection =
    elim (lookup (lane_label actor recorded_connection) b.recorded) [
      | none ↦ none
      | some r ↦ r.live
    ]

pub data BindError : Type 0 where
  unrecorded_connection not_one_to_one : BindError

pub data BindResult : Type 0 where
  bound : Binder → BindResult
  refused : BindError → BindResult

-- The maps after a new binding.
unfoldable pub write : Binder → Text → ℕ → ℕ → RecordedLane → Binder
write b actor recorded_connection live_connection r = record {
  recorded =
      insert (lane_label actor recorded_connection) (record r { live = some live_connection })
        b.recorded;
  live = insert (lane_label actor live_connection) recorded_connection b.live;
}

unfoldable pub bind_lane : Binder → Text → ℕ → ℕ → RecordedLane → BindResult
unfolding write
bind_lane b actor recorded_connection live_connection r =
    let before = lookup (lane_label actor live_connection) b.live in
    if option_eq ◌==◌ r.live (some live_connection)
      && option_eq ◌==◌ before (some recorded_connection)
    then bound b
    else if is_some r.live || is_some before
    then refused not_one_to_one
    else bound (write b actor recorded_connection live_connection r)

unfoldable pub bind : Binder → Text → ℕ → ℕ → BindResult
unfolding bind_lane
bind b actor recorded_connection live_connection =
    elim (lookup (lane_label actor recorded_connection) b.recorded) [
      | none ↦ refused unrecorded_connection
      | some r ↦ bind_lane b actor recorded_connection live_connection r
    ]

abbrev pub values {ℓ} : {V : Type ℓ} → Dict V → List V
values [] = []
values ((k, v) ∷ m) = v ∷ values m

-- Whether a newly accepted startup exceeds the recorded connections with its identity.
unfoldable pub startup : Binder → Text → ℕ → List Text → Text → Option Reason
startup b actor connection live_fingerprints fingerprint =
    let recorded = length (
      filter (λ (r : RecordedLane). text_eq r.actor actor && text_eq r.fingerprint fingerprint)
        (values b.recorded)) in
    let live = length (filter (λ value. text_eq value fingerprint) live_fingerprints) in
    if ltb recorded live then some (identity_changed actor connection) else none

-- How often each identity, an actor with a fingerprint, occurs.
unfoldable pub tally : List Text → Dict ℕ → Dict ℕ
tally [] counts = counts
tally (key ∷ keys) counts = tally keys (insert key (suc (or_else (lookup key counts) 0)) counts)

abbrev pub identity_key : Text → Text → Text
identity_key actor fingerprint = actor ++ 0 ∷ fingerprint

-- Every count of the first map is the count of the second.
unfoldable pub counts_agree : Dict ℕ → Dict ℕ → Bool
counts_agree [] actual = true
counts_agree ((key, n) ∷ more) actual =
    option_eq ◌==◌ (lookup key actual) (some n) && counts_agree more actual

unfoldable pub complete_lanes : Binder → List (Text × Text) → Bool
unfolding tally counts_agree
complete_lanes b live =
    let expected =
      tally (map (λ (r : RecordedLane). identity_key r.actor r.fingerprint) (values b.recorded))
        [] in
    let actual = tally (map (λ (i : Text × Text). identity_key i.0 i.1) live) [] in
    length expected == length actual && counts_agree expected actual
