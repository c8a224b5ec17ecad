-- ===== src/Lanes/Resolve.antt =====
-- lanes.ts: the live lanes of a decision point, and the resolution of one plan entry.
pub mod Soundness
use interleave.Prelude.{
  ℕ, Bool, true, false, ◌&&◌, ◌||◌, not, Option, none, some, List, [], ◌∷◌, map, Text, text_eq,
  Dict, filter, find, ◌==◌, if◌then◌else◌,
}
use interleave.Types.{UnitIdentity, is_some}
use interleave.Lanes.Labels.{Lane, PlanEntry, lane_label}
use interleave.Lanes.Fair.{FairResult, chosen, refused, fair_lane}

pub record LiveLane : Type 0 where
  pub lane : Lane
  pub open lane use *
  pub fingerprint : Option Text
  pub head : Option UnitIdentity
  pub running : Bool
  pub closed : Bool

-- Why a resolution waits or fails; the label and the step are the parts of the message.
pub data Reason : Type 0 where
  cannot_issue not_queued first_command identity_changed unrecorded : Text → ℕ → Reason

pub data PlanResolution : Type 0 where
  release : Lane → PlanResolution
  wait incompatible : Reason → PlanResolution

-- A lane with a queued command and nothing running.
abbrev pub is_free : LiveLane → Bool
is_free lane = is_some lane.head && not lane.running

abbrev pub with_actor : Text → LiveLane → Bool
with_actor actor lane = text_eq lane.actor actor

abbrev pub with_connection : ℕ → LiveLane → Bool
with_connection connection lane = lane.connection == connection

abbrev pub lane_of : LiveLane → Lane
lane_of live = live.lane

module _ (lanes : List LiveLane) (settled : Bool) (last_connection : Dict ℕ) (step : ℕ) where
  -- An actor's entry chooses among the actor's available lanes.
  unfoldable pub resolve_actor : Text → PlanResolution
  resolve_actor actor =
      elim (fair_lane (actor ∷ []) (map lane_of (filter is_free (filter (with_actor actor) lanes)))
        none last_connection) [
          | refused e ↦ incompatible (cannot_issue actor step)
          | chosen lane ↦ release lane
        ]

  -- A lane's entry waits while its connection may still queue a command.
  unfoldable pub resolve_lane : Text → ℕ → Option LiveLane → PlanResolution
  resolve_lane actor connection none =
      if settled
      then incompatible (cannot_issue (lane_label actor connection) step)
      else wait (not_queued (lane_label actor connection) step)
  resolve_lane actor connection (some live) =
      if is_free live
      then release live.lane
      else if settled || live.running || live.closed
      then incompatible (cannot_issue (lane_label actor connection) step)
      else wait (not_queued (lane_label actor connection) step)

  unfoldable pub resolve_plan_entry : PlanEntry → PlanResolution
  unfolding resolve_actor resolve_lane
  resolve_plan_entry entry = elim entry.connection [
    | none ↦ resolve_actor entry.actor
    | some n ↦
        resolve_lane entry.actor n
          (find (with_connection n) (filter (with_actor entry.actor) lanes))
  ]
