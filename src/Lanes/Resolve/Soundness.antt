-- ===== src/Lanes/Resolve/Soundness.antt =====
-- What a resolved plan entry releases, and when it waits.
use interleave.Prelude.{
  ℕ, Bool, true, false, ◌≡◌, ◌⊎◌, refl, sym, ap, ◌∙◌, none, some, List, [], ◌∷◌, map, text_eq_iff,
  Dict, filter, find, In, In-filter, In-map, find-In, arith, ==_iff, Option-cases, inl, inr,
}
use interleave.Types.{is_some}
use interleave.Lanes.Labels.{Lane, PlanEntry}
use interleave.Lanes.Fair.{chosen, refused, fair_lane, FairResult}
use interleave.Lanes.Fair.Rotation.{fair_lane-IsFair}
use interleave.Lanes.Resolve.{
  LiveLane, release, wait, Reason, is_free, with_actor, with_connection, lane_of, resolve_actor,
  resolve_lane, resolve_plan_entry,
}

-- A live lane with a queued command and nothing running, that the entry names.
pub record IsReleasable (lanes : List LiveLane) (entry : PlanEntry) (lane : Lane) : Type 0 where
  pub live : LiveLane
  pub listed : In live lanes
  pub same : live.lane ≡ lane
  pub actor : live.actor ≡ entry.actor
  pub queued : is_some live.head ≡ true
  pub idle : live.running ≡ false
  pub named : (entry.connection ≡ none) ⊎ (entry.connection ≡ some live.connection)

FairResult-cases :
    (r : FairResult) → ((lane : Lane) × (r ≡ chosen lane)) ⊎ ((e : _) × (r ≡ refused e))
FairResult-cases (chosen lane) = inl (lane, refl)
FairResult-cases (refused e) = inr (e, refl)

module _ (lanes : List LiveLane) (settled : Bool) (last_connection : Dict ℕ) (step : ℕ) where
  resolve_actor-release :
      (entry : PlanEntry) (lane : Lane)
      → entry.connection ≡ none
      → resolve_actor lanes settled last_connection step entry.actor ≡ release lane
      → IsReleasable lanes entry lane
  unfolding resolve_actor
  resolve_actor-release entry lane any' h =
      let own = filter (with_actor entry.actor) lanes in
      let free = filter is_free own in
      elim (FairResult-cases
        (fair_lane (entry.actor ∷ []) (map lane_of free) none last_connection)) [
          | inl (l, e) ↦
              let fair =
                fair_lane-IsFair (entry.actor ∷ []) (map lane_of free) none last_connection l e in
              let (live, m, same) = In-map lane_of free fair.listed in
              let (mine, ready) = In-filter is_free own m in
              let (listed, owner) = In-filter (with_actor entry.actor) lanes mine in
              let same' : l ≡ lane = ground arith in
              record {
                live = live;
                listed = listed;
                same = same ∙ same';
                actor = (text_eq_iff _ _).0 owner;
                queued = ground arith;
                idle = ground arith;
                named = inl any';
              }
          | inr (e, bad) ↦ absurd (ground arith)
        ]

  resolve_lane-release :
      (entry : PlanEntry) (n : ℕ) (lane : Lane)
      → entry.connection ≡ some n
      → resolve_lane lanes settled last_connection step entry.actor n
          (find (with_connection n) (filter (with_actor entry.actor) lanes))
        ≡ release lane
      → IsReleasable lanes entry lane
  unfolding resolve_lane
  resolve_lane-release entry n lane named h =
      elim (Option-cases (find (with_connection n) (filter (with_actor entry.actor) lanes))) [
        | inl missing ↦ absurd (ground arith)
        | inr (live, found) ↦
            let (mine, number) = find-In (with_connection n) _ found in
            let (listed, owner) = In-filter (with_actor entry.actor) lanes mine in
            record {
              live = live;
              listed = listed;
              same = ground arith;
              actor = (text_eq_iff _ _).0 owner;
              queued = ground arith;
              idle = ground arith;
              named = inr (named ∙ ap some (sym ((==_iff _ _).0 number)));
            }
      ]

  -- A plan entry releases only a lane that it names, with a command queued and nothing running.
  pub resolve_plan_entry-IsReleasable :
      (entry : PlanEntry) (lane : Lane)
      → resolve_plan_entry lanes settled last_connection step entry ≡ release lane
      → IsReleasable lanes entry lane
  unfolding resolve_plan_entry
  resolve_plan_entry-IsReleasable entry lane h = elim (Option-cases entry.connection) [
    | inl e ↦ resolve_actor-release entry lane e (ground arith)
    | inr (n, e) ↦ resolve_lane-release entry n lane e (ground arith)
  ]

  -- Only an entry that names a connection waits, and only while its actor is not settled.
  pub resolve_plan_entry-wait :
      (entry : PlanEntry) (reason : Reason)
      → resolve_plan_entry lanes settled last_connection step entry ≡ wait reason
      → (settled ≡ false) × (is_some entry.connection ≡ true)
  unfolding resolve_plan_entry resolve_actor resolve_lane
  resolve_plan_entry-wait entry reason h = ground arith
