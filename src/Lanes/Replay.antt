-- ===== src/Lanes/Replay.antt =====
-- lanes.ts: what the methods mismatch and resolve of `LaneBinder` decide for the lanes of a replay.
use interleave.Prelude.{
  ℕ, Bool, true, false, ◌&&◌, ◌||◌, not, Option, none, some, List, [], ◌∷◌, map, Text, text_eq,
  lookup, filter, find, any, length, get_elem?, ltb, ◌==◌, if◌then◌else◌,
}
use interleave.Types.{UnitIdentity, StepIdentity, option_eq, is_some}
use interleave.Lanes.Labels.{Lane, lane_label}
use interleave.Lanes.Fair.{sort_lanes}
use interleave.Lanes.Resolve.{
  LiveLane, PlanResolution, release, wait, incompatible, cannot_issue, not_queued, first_command,
  identity_changed, unrecorded, with_actor, with_connection, lane_of,
}
use interleave.Lanes.Binder.{same_unit, RecordedLane, Binder, recorded_for, values}

pub data Mismatch : Type 0 where
  more_queries changed : Text → ℕ → Mismatch
  -- a binding whose recorded lane is not in the map, where the source would throw a TypeError
  dangling : Mismatch

-- A queued command of a bound lane against the recorded step of its ordinal.
unfoldable pub bound_mismatch : Binder → LiveLane → UnitIdentity → ℕ → Option Mismatch
unfolding same_unit
bound_mismatch b lane head recorded_connection =
    elim (lookup (lane_label lane.actor recorded_connection) b.recorded) [
      | none ↦ some dangling
      | some r ↦ elim (get_elem? r.steps head.ordinal) [
        | none ↦ some (more_queries lane.actor lane.connection)
        | some expected ↦
            if same_unit expected.unit head then none else some (changed lane.actor lane.connection)
      ]
    ]

abbrev pub starts_with_unit : UnitIdentity → List StepIdentity → Bool
starts_with_unit head [] = false
starts_with_unit head (first ∷ more) = same_unit first.unit head

-- A recorded lane, not yet bound, that the lane's first command may belong to.
unfoldable pub may_begin : LiveLane → UnitIdentity → RecordedLane → Bool
unfolding same_unit
may_begin lane head r =
    text_eq r.actor lane.actor
    && not (is_some r.live)
    && option_eq text_eq (some r.fingerprint) lane.fingerprint
    && starts_with_unit head r.steps

unfoldable pub lane_mismatch : Binder → LiveLane → Option Mismatch
unfolding bound_mismatch may_begin
lane_mismatch b lane = elim lane.head [
  | none ↦ none
  | some head ↦ elim (recorded_for b lane.actor lane.connection) [
    | some recorded_connection ↦ bound_mismatch b lane head recorded_connection
    | none ↦
        if head.ordinal == 0 && any (may_begin lane head) (values b.recorded)
        then none
        else some (changed lane.actor lane.connection)
  ]
]

unfoldable pub mismatch : Binder → List LiveLane → Option Mismatch
unfolding lane_mismatch
mismatch b [] = none
mismatch b (lane ∷ lanes) = elim (lane_mismatch b lane) [
  | none ↦ mismatch b lanes
  | some m ↦ some m
]

unfoldable pub same_steps : List StepIdentity → List StepIdentity → Bool
unfolding same_unit
same_steps [] [] = true
same_steps (a ∷ as') (b ∷ bs) = same_unit a.unit b.unit && same_steps as' bs
same_steps [] (b ∷ bs) = false
same_steps (a ∷ as') [] = false

module _ (b : Binder) (expected : StepIdentity) (lanes : List LiveLane) (settled : Bool) (step : ℕ)
    (patient : Bool) where
  abbrev pub label : Text
  label = lane_label expected.actor expected.connection

  abbrev pub own : List LiveLane
  own = filter (with_actor expected.actor) lanes

  -- The recorded lane is bound: only its live lane may release the step.
  unfoldable pub resolve_bound : ℕ → PlanResolution
  resolve_bound live_connection = elim (find (with_connection live_connection) own) [
    | none ↦ incompatible (cannot_issue label step)
    | some lane ↦ elim lane.head [
      | none ↦
          if settled || lane.running || lane.closed
          then incompatible (cannot_issue label step)
          else wait (not_queued label step)
      | some head ↦
          if lane.running
          then incompatible (cannot_issue label step)
          else if same_unit expected.unit head
          then release lane.lane
          else incompatible (identity_changed expected.actor step)
    ]
  ]

  unfoldable pub unbound : RecordedLane → LiveLane → Bool
  unbound r lane =
      not (is_some (recorded_for b lane.actor lane.connection))
      && not lane.closed
      && option_eq text_eq lane.fingerprint (some r.fingerprint)

  abbrev pub head_matches : Option UnitIdentity → Bool
  head_matches none = false
  head_matches (some head) = same_unit expected.unit head

  unfoldable pub matches : RecordedLane → LiveLane → Bool
  unfolding unbound
  matches r lane = unbound r lane && not lane.running && head_matches lane.head

  -- Unbound recorded lanes of the actor that begin with this very command.
  unfoldable pub is_peer : RecordedLane → RecordedLane → Bool
  is_peer r other =
      text_eq other.actor expected.actor
      && not (is_some other.live)
      && text_eq other.fingerprint r.fingerprint
      && starts_with_expected other.steps
    where
      starts_with_expected : List StepIdentity → Bool
      starts_with_expected [] = false
      starts_with_expected (first ∷ more) = same_unit expected.unit first.unit

  unfoldable pub is_ambiguous : RecordedLane → Bool
  unfolding is_peer same_steps
  is_ambiguous r =
      any (λ peer. not (same_steps peer.steps r.steps)) (filter (is_peer r) (values b.recorded))

  -- Whether the recorded generation may still be admitted, or queue its first command.
  unfoldable pub keeps_waiting : RecordedLane → Option LiveLane → Bool
  keeps_waiting r none =
      ltb
        (length (
          filter (λ (lane : LiveLane). option_eq text_eq lane.fingerprint (some r.fingerprint))
            own))
        (length (
          filter
            (λ (other : RecordedLane).
              text_eq other.actor expected.actor && text_eq other.fingerprint r.fingerprint)
            (values b.recorded)))
  keeps_waiting r (some same) =
      patient && unbound r same && not (is_some same.head) && not same.running

  unfoldable pub first_candidate : List Lane → PlanResolution
  first_candidate [] =
      if settled then incompatible (cannot_issue label step) else wait (first_command label step)
  first_candidate (lane ∷ more) = release lane

  -- The live lane of the recorded generation, if it matches.
  unfoldable pub take_same : RecordedLane → Option LiveLane → Option Lane
  unfolding matches
  take_same r none = none
  take_same r (some lane) = if matches r lane then some lane.lane else none

  unfoldable pub resolve_unbound : RecordedLane → Option LiveLane → PlanResolution
  unfolding take_same is_ambiguous keeps_waiting first_candidate
  resolve_unbound r same = elim (take_same r same) [
    | some lane ↦ release lane
    | none ↦
        if is_ambiguous r && not settled && keeps_waiting r same
        then wait (first_command label step)
        else first_candidate (sort_lanes (map lane_of (filter (matches r) own)))
  ]

  unfoldable pub resolve : PlanResolution
  unfolding resolve_bound resolve_unbound
  resolve = elim (lookup label b.recorded) [
    | none ↦ incompatible (unrecorded label step)
    | some r ↦ elim r.live [
      | some live_connection ↦ resolve_bound live_connection
      | none ↦ resolve_unbound r (find (with_connection expected.connection) own)
    ]
  ]
