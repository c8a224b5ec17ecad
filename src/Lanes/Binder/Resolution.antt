-- ===== src/Lanes/Binder/Resolution.antt =====
-- What `resolve` releases is what the recording asks for, and the bind that follows cannot fail.
use interleave.Prelude.{
  ℕ, Bool, true, false, ◌≡◌, refl, sym, ap, ◌∙◌, Option, none, some, List, [], ◌∷◌, map,
  text_eq_iff, lookup, filter, find, In, here, In-filter, In-map, find-In, arith, Bool-cases,
  Option-cases, inl, inr,
}
use interleave.Types.{StepIdentity, UnitIdentity}
use interleave.Lanes.Labels.{Lane, lane_label}
use interleave.Lanes.Fair.{sort_lanes}
use interleave.Lanes.Fair.Rotation.{In-sort_lanes}
use interleave.Lanes.Resolve.{LiveLane, release, with_actor, with_connection, lane_of}
use interleave.Lanes.Binder.{
  RecordedLane, Binder, recorded_for, live_for, bound, write, bind_lane, bind, same_unit,
}
use interleave.Lanes.Replay.{
  own, resolve_bound, matches, take_same, resolve_unbound, first_candidate, resolve,
}
use interleave.Lanes.Binder.Bijection.{IsBijective}

-- A live lane of the expected actor whose queued command is the expected one, with nothing running.
pub record IsReleasable (expected : StepIdentity) (lanes : List LiveLane) (lane : Lane)
    : Type 0 where
  pub live : LiveLane
  pub listed : In live lanes
  pub same : live.lane ≡ lane
  pub actor : live.actor ≡ expected.actor
  pub idle : live.running ≡ false
  pub head : UnitIdentity
  pub queued : live.head ≡ some head
  pub identical : same_unit expected.unit head ≡ true

module _ (b : Binder) (expected : StepIdentity) (lanes : List LiveLane) (settled : Bool) (step : ℕ)
    (patient : Bool) where
  resolve_bound-release :
      (live_connection : ℕ) (lane : Lane)
      → resolve_bound b expected lanes settled step patient live_connection ≡ release lane
      → IsReleasable expected lanes lane × (lane.connection ≡ live_connection)
  unfolding resolve_bound
  resolve_bound-release n lane h =
      elim (Option-cases (find (with_connection n) (own b expected lanes settled step patient))) [
        | inl missing ↦ absurd (ground arith)
        | inr (live, found) ↦ elim (Option-cases live.head) [
          | inl idle ↦ absurd (ground arith)
          | inr (head, queued) ↦
              let (mine, number) = find-In (with_connection n) _ found in
              let (listed, actor) = In-filter (with_actor expected.actor) lanes mine in
              let same : live.lane ≡ lane = ground arith in
              (
                record {
                  live = live;
                  listed = listed;
                  same = same;
                  actor = (text_eq_iff _ _).0 actor;
                  idle = ground arith;
                  head = head;
                  queued = queued;
                  identical = ground arith;
                },
                ground arith,
              )
        ]
      ]

  -- A lane that matches is free to be bound, and holds the expected command.
  matches-IsReleasable :
      (r : RecordedLane) (live : LiveLane)
      → In live (own b expected lanes settled step patient)
      → matches b expected lanes settled step patient r live ≡ true
      → IsReleasable expected lanes live.lane × (recorded_for b live.actor live.connection ≡ none)
  unfolding matches
  matches-IsReleasable r live mine h = elim (Option-cases live.head) [
    | inl idle ↦ absurd (ground arith)
    | inr (head, queued) ↦
        let (listed, actor) = In-filter (with_actor expected.actor) lanes mine in
        (
          record {
            live = live;
            listed = listed;
            same = refl;
            actor = (text_eq_iff _ _).0 actor;
            idle = ground arith;
            head = head;
            queued = queued;
            identical = ground arith;
          },
          ground arith,
        )
  ]

  first_candidate-release :
      (ls : List Lane) (lane : Lane)
      → first_candidate b expected lanes settled step patient ls ≡ release lane
      → In lane ls
  unfolding first_candidate
  first_candidate-release [] lane h = absurd (ground arith)
  first_candidate-release (l ∷ ls) lane h = let e : l ≡ lane = ground arith in rw e here

  take_same-release :
      (r : RecordedLane) (same : Option LiveLane) (lane : Lane)
      → same
        ≡ find (with_connection expected.connection) (own b expected lanes settled step patient)
      → take_same b expected lanes settled step patient r same ≡ some lane
      → IsReleasable expected lanes lane × (recorded_for b lane.actor lane.connection ≡ none)
  unfolding take_same
  take_same-release r none lane f h = absurd (ground arith)
  take_same-release r (some live) lane f h =
      elim (Bool-cases (matches b expected lanes settled step patient r live)) [
        | inl t ↦
            let e : live.lane ≡ lane = ground arith in
            let p =
              matches-IsReleasable r live
                (find-In (with_connection expected.connection) _ (sym f)).0 t in
            rw (← e) p
        | inr t ↦ absurd (ground arith)
      ]

  resolve_unbound-release :
      (r : RecordedLane) (lane : Lane)
      → resolve_unbound b expected lanes settled step patient r
          (find (with_connection expected.connection) (own b expected lanes settled step patient))
        ≡ release lane
      → IsReleasable expected lanes lane × (recorded_for b lane.actor lane.connection ≡ none)
  unfolding resolve_unbound
  resolve_unbound-release r lane h =
      let mine = own b expected lanes settled step patient in
      let same = find (with_connection expected.connection) mine in
      elim (Option-cases (take_same b expected lanes settled step patient r same)) [
        | inr (l, found) ↦
            let e : l ≡ lane = ground arith in rw (← e) (take_same-release r same l refl found)
        | inl other ↦
            let ok = matches b expected lanes settled step patient r in
            let sorted = sort_lanes (map lane_of (filter ok mine)) in
            let listed : In lane sorted = first_candidate-release sorted lane (ground arith) in
            let (live, kept, e) =
              In-map lane_of (filter ok mine)
                (In-sort_lanes (map lane_of (filter ok mine)) listed) in
            let (own', passed) = In-filter ok mine kept in
            rw (← e) (matches-IsReleasable r live own' passed)
      ]

  -- A lane that `resolve` releases is live, of the step's actor, has nothing running, and has queued
  -- the step's own command.
  pub resolve-IsReleasable :
      (lane : Lane)
      → resolve b expected lanes settled step patient ≡ release lane
      → IsReleasable expected lanes lane
  unfolding resolve
  resolve-IsReleasable lane h =
      elim (Option-cases (lookup (lane_label expected.actor expected.connection) b.recorded)) [
        | inl missing ↦ absurd (ground arith)
        | inr (r, found) ↦ elim (Option-cases r.live) [
          | inl free ↦ (resolve_unbound-release r lane (ground arith)).0
          | inr (n, taken) ↦ (resolve_bound-release n lane (ground arith)).0
        ]
      ]

  -- While the bindings are a bijection, binding the lane that was released never fails.
  pub bind-resolve :
      (lane : Lane)
      → IsBijective b
      → resolve b expected lanes settled step patient ≡ release lane
      → (b' : Binder) × (bind b expected.actor expected.connection lane.connection ≡ bound b')
  unfolding resolve bind bind_lane recorded_for live_for
  bind-resolve lane v h =
      elim (Option-cases (lookup (lane_label expected.actor expected.connection) b.recorded)) [
        | inl missing ↦ absurd (ground arith)
        | inr (r, found) ↦ elim (Option-cases r.live) [
          | inl free ↦
              let (ready, unbound') = resolve_unbound-release r lane (ground arith) in
              let actor : lane.actor ≡ expected.actor =
                ap (λ (l : Lane). l.actor) (sym ready.same) ∙ ready.actor in
              let open' : lookup (lane_label expected.actor lane.connection) b.live ≡ none =
                ap (λ a. lookup (lane_label a lane.connection) b.live) (sym actor) ∙ unbound' in
              (write b expected.actor expected.connection lane.connection r, ground arith)
          | inr (n, taken) ↦
              let (ready, number) = resolve_bound-release n lane (ground arith) in
              let partner : lookup (lane_label expected.actor n) b.live ≡ some expected.connection =
                v.back expected.actor n expected.connection (ground arith) in
              let here' : lookup (lane_label expected.actor lane.connection) b.live
                  ≡ some expected.connection =
                ap (λ m. lookup (lane_label expected.actor m) b.live) number ∙ partner in
              (b, ground arith)
        ]
      ]
