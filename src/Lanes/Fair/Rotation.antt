-- ===== src/Lanes/Fair/Rotation.antt =====
-- The fair choice: round robin among the actors, and among the chosen actor's lanes.
use interleave.Prelude.{
  ℕ, ◌≤◌, ◌<◌, ◌≡◌, ◌⊎◌, refl, sym, ap, ◌∙◌, subst, false, Option, none, some, List, [], ◌∷◌, ◌++◌,
  Text, text_eq_iff, text_eq_refl, Dict, lookup, any, filter, find, All, In, here, there, In-cons,
  In-filter, filter-In, In-swap, any-In, In-any, find-In, find-none, All-intro, All-In, find-split,
  take-append-drop, take, drop, arith, ltb, leb, Bool-cases, Option-cases, inl, inr,
}
use interleave.Lanes.Labels.{Lane}
use interleave.Lanes.Fair.Turns.{IsTurnOrder, rotation-IsTurnOrder}
use interleave.Lanes.Fair.{
  chosen, rotation, rotation_start, of_actor, insert_lane, sort_lanes, next_lane, fair_lane,
}

abbrev Below : ℕ → List Lane → Type 0
Below n ls = All (λ (l : Lane). n ≤ l.connection) ls

abbrev IsSorted : List Lane → Type 0
IsSorted [] = Unit
IsSorted (l ∷ ls) = Below l.connection ls × IsSorted ls

Below-mono : (m n : ℕ) (ls : List Lane) → m ≤ n → Below n ls → Below m ls
Below-mono m n [] h b = tt
Below-mono m n (l ∷ ls) h b = (omega arith, Below-mono m n ls h b.1)

Below-insert :
    (n : ℕ) (l : Lane) (ls : List Lane) → n ≤ l.connection → Below n ls → Below n (insert_lane l ls)
unfolding insert_lane
Below-insert n l [] h b = (h, tt)
Below-insert n l (o ∷ ls) h b = ground (arith, Below-insert n l ls h b.1)

insert_lane-IsSorted : (l : Lane) (ls : List Lane) → IsSorted ls → IsSorted (insert_lane l ls)
unfolding insert_lane
insert_lane-IsSorted l [] s = (tt, tt)
insert_lane-IsSorted l (o ∷ ls) s = elim (Bool-cases (leb l.connection o.connection)) [
  | inl low ↦ rw low ((ground arith, Below-mono l.connection o.connection ls (ground arith) s.0), s)
  | inr high ↦
      rw high (Below-insert o.connection l ls (ground arith) s.0, insert_lane-IsSorted l ls s.1)
]

pub sort_lanes-IsSorted : (ls : List Lane) → IsSorted (sort_lanes ls)
unfolding sort_lanes
sort_lanes-IsSorted [] = tt
sort_lanes-IsSorted (l ∷ ls) = insert_lane-IsSorted l (sort_lanes ls) (sort_lanes-IsSorted ls)

insert_lane-In :
    (l : Lane) (ls : List Lane) {x : Lane} → (x ≡ l) ⊎ In x ls → In x (insert_lane l ls)
unfolding insert_lane
insert_lane-In l [] m = elim m [ inl e ↦ rw e here | inr k ↦ elim k [ ] ]
insert_lane-In l (o ∷ ls) {x} m = elim (Bool-cases (leb l.connection o.connection)) [
  | inl low ↦ rw low (elim m [ inl e ↦ rw e here | inr k ↦ there k ])
  | inr high ↦ rw high (elim m [
    | inl e ↦ there (insert_lane-In l ls (inl e))
    | inr k ↦ elim (In-cons k) [ inl e ↦ rw e here | inr n ↦ there (insert_lane-In l ls (inr n)) ]
  ])
]

pub In-insert_lane :
    (l : Lane) (ls : List Lane) {x : Lane} → In x (insert_lane l ls) → (x ≡ l) ⊎ In x ls
unfolding insert_lane
In-insert_lane l [] m = In-cons m
In-insert_lane l (o ∷ ls) m = elim (Bool-cases (leb l.connection o.connection)) [
  | inl low ↦ In-cons (rw low at m)
  | inr high ↦ elim (In-cons (rw high at m)) [
    | inl e ↦ rw e (inr here)
    | inr n ↦ elim (In-insert_lane l ls n) [ inl e ↦ inl e | inr k ↦ inr (there k) ]
  ]
]

pub In-sort_lanes : (ls : List Lane) {x : Lane} → In x (sort_lanes ls) → In x ls
unfolding sort_lanes
In-sort_lanes [] m = m
In-sort_lanes (l ∷ ls) m = elim (In-insert_lane l (sort_lanes ls) m) [
  | inl e ↦ rw e here
  | inr n ↦ there (In-sort_lanes ls n)
]

pub sort_lanes-In : (ls : List Lane) {x : Lane} → In x ls → In x (sort_lanes ls)
unfolding sort_lanes
sort_lanes-In [] m = m
sort_lanes-In (l ∷ ls) m = elim (In-cons m) [
  | inl e ↦ insert_lane-In l (sort_lanes ls) (inl e)
  | inr n ↦ insert_lane-In l (sort_lanes ls) (inr (sort_lanes-In ls n))
]

-- The lane whose turn it is among lanes of one actor: with a previous lane, the lowest above it, or
-- the lowest of all if none is above; the lowest of all if the actor has released nothing yet.
abbrev pub HasTurn : Option ℕ → List Lane → Lane → Type 0
HasTurn none ls lane = Below lane.connection ls
HasTurn (some p) ls lane =
    ((p < lane.connection)
      × All (λ (l : Lane). (l.connection ≤ p) ⊎ (lane.connection ≤ l.connection)) ls)
    ⊎ (All (λ (l : Lane). l.connection ≤ p) ls × Below lane.connection ls)

Below-head : (l : Lane) (ls : List Lane) → IsSorted (l ∷ ls) → Below l.connection (l ∷ ls)
Below-head l ls s = (omega arith, s.0)

none_above :
    (p : ℕ) (ls : List Lane)
    → find (λ (l : Lane). ltb p l.connection) ls ≡ none
    → All (λ (l : Lane). l.connection ≤ p) ls
none_above p [] h = tt
none_above p (l ∷ ls) h = (ground arith, none_above p ls (ground arith))

-- In a sorted list the first lane above the previous one is the lowest above it.
lowest_above :
    (p : ℕ) (ls : List Lane) (lane : Lane)
    → IsSorted ls
    → find (λ (l : Lane). ltb p l.connection) ls ≡ some lane
    → All (λ (l : Lane). (l.connection ≤ p) ⊎ (lane.connection ≤ l.connection)) ls
lowest_above p [] lane s h = tt
lowest_above p (l ∷ ls) lane s h = elim (Bool-cases (ltb p l.connection)) [
  | inl above ↦
      let e : l ≡ lane = ground arith in
      let low : lane.connection ≤ l.connection = omega (arith, ap (λ (x : Lane). x.connection) e) in
      (inr low, All-intro _ ls (λ x m. inr (rw (← e) (All-In _ ls s.0 m))))
  | inr below ↦ (inl (ground arith), lowest_above p ls lane s.1 (ground arith))
]

next_lane-HasTurn :
    (ls : List Lane) (previous : Option ℕ) (lane : Lane)
    → IsSorted ls
    → next_lane ls previous ≡ chosen lane
    → In lane ls × HasTurn previous ls lane
unfolding next_lane
next_lane-HasTurn [] previous lane s h = absurd (ground arith)
next_lane-HasTurn (l ∷ ls) none lane s h =
    let e : l ≡ lane = ground arith in
    subst (λ x. In x (l ∷ ls) × HasTurn none (l ∷ ls) x) e (here, Below-head l ls s)
next_lane-HasTurn (l ∷ ls) (some p) lane s h =
    elim (Option-cases (find (λ (x : Lane). ltb p x.connection) (l ∷ ls))) [
      | inl missing ↦
          let e : l ≡ lane = ground arith in
          subst (λ x. In x (l ∷ ls) × HasTurn (some p) (l ∷ ls) x) e
            (here, inr (none_above p (l ∷ ls) missing, Below-head l ls s))
      | inr (x, found) ↦
          let e : x ≡ lane = ground arith in
          let found' = found ∙ ap some e in
          let (m, above) = find-In (λ (y : Lane). ltb p y.connection) (l ∷ ls) found' in
          (m, inl (ground arith, lowest_above p (l ∷ ls) lane s found'))
    ]

abbrev pub lanes_of : Text → List Lane → List Lane
lanes_of actor available = filter (of_actor actor) available

All-unsort {κ} : (P : Lane → Type κ) (ls : List Lane) → All P (sort_lanes ls) → All P ls
All-unsort P ls h = All-intro P ls (λ x m. All-In P (sort_lanes ls) h (sort_lanes-In ls m))

HasTurn-unsort :
    (previous : Option ℕ) (ls : List Lane) (lane : Lane)
    → HasTurn previous (sort_lanes ls) lane
    → HasTurn previous ls lane
HasTurn-unsort none ls lane h = All-unsort _ ls h
HasTurn-unsort (some p) ls lane h = elim h [
  | inl (above, low) ↦ inl (above, All-unsort _ ls low)
  | inr (none', low) ↦ inr (All-unsort _ ls none', All-unsort _ ls low)
]

-- The choice is available; its actor is the first with an available
-- lane in the order of turns; and its
-- connection has the turn among that actor's available lanes.
pub record IsFair (names : List Text) (available : List Lane) (last_actor : Option Text)
    (last_connection : Dict ℕ) (lane : Lane) : Type 0 where
  pub listed : In lane available
  pub before : List Text
  pub after : List Text
  pub turns : List Text
  pub turn_order : IsTurnOrder names last_actor turns
  pub order : turns ≡ before ++ lane.actor ∷ after
  pub skipped : All (λ name. any (of_actor name) available ≡ false) before
  pub turn : HasTurn (lookup lane.actor last_connection) (lanes_of lane.actor available) lane

-- The fair choice among available lanes is available and has the turn: its actor is the first with an
-- available lane in the names turned so that the last actor comes last, and its connection is the
-- lowest after that actor's last one, or else the lowest.
pub fair_lane-IsFair :
    (names : List Text) (available : List Lane) (last_actor : Option Text)
    (last_connection : Dict ℕ) (lane : Lane)
    → fair_lane names available last_actor last_connection ≡ chosen lane
    → IsFair names available last_actor last_connection lane
unfolding fair_lane
fair_lane-IsFair names [] last_actor last_connection lane h = absurd (ground arith)
fair_lane-IsFair names (l ∷ ls) last_actor last_connection lane h =
    let available = l ∷ ls in
    let free = λ (name : Text). any (of_actor name) available in
    elim (Option-cases (find free (rotation names last_actor))) [
      | inl missing ↦ absurd (ground arith)
      | inr (actor, found) ↦
          let mine = lanes_of actor available in
          let (m, t) =
            next_lane-HasTurn (sort_lanes mine) (lookup actor last_connection) lane
              (sort_lanes-IsSorted mine) (ground arith) in
          let (listed, owner) = In-filter (of_actor actor) available (In-sort_lanes mine m) in
          let same : lane.actor ≡ actor = (text_eq_iff _ _).0 owner in
          let (pre, post, order, skipped) = find-split free (rotation names last_actor) found in
          record {
            listed = listed;
            before = pre;
            after = post;
            turns = rotation names last_actor;
            turn_order = rotation-IsTurnOrder names last_actor;
            order = rw same order;
            skipped = skipped;
            turn =
                subst (λ a. HasTurn (lookup a last_connection) (lanes_of a available) lane)
                  (sym same) (HasTurn-unsort (lookup actor last_connection) mine lane t);
          }
    ]

next_lane_total :
    (ls : List Lane) (previous : Option ℕ) {x : Lane}
    → In x ls
    → (lane : Lane) × (next_lane ls previous ≡ chosen lane)
unfolding next_lane
next_lane_total [] previous m = elim m [ ]
next_lane_total (l ∷ ls) none m = (l, refl)
next_lane_total (l ∷ ls) (some p) m =
    elim (Option-cases (find (λ (y : Lane). ltb p y.connection) (l ∷ ls))) [
      | inl missing ↦ (l, ground arith)
      | inr (x, found) ↦ (x, ground arith)
    ]

-- A choice is always made where some available lane belongs to a known actor.
pub fair_lane_total :
    (names : List Text) (available : List Lane) (last_actor : Option Text)
    (last_connection : Dict ℕ) (some_lane : Lane)
    → In some_lane available
    → In some_lane.actor names
    → (lane : Lane) × (fair_lane names available last_actor last_connection ≡ chosen lane)
unfolding fair_lane rotation
fair_lane_total names [] last_actor last_connection x m k = elim m [ ]
fair_lane_total names (l ∷ ls) last_actor last_connection x m k =
    let available = l ∷ ls in
    let free = λ (name : Text). any (of_actor name) available in
    let start = rotation_start names last_actor in
    let turned : In x.actor (drop start names ++ take start names) =
      In-swap (take start names) (drop start names) (rw (take-append-drop start names) k) in
    elim (Option-cases (find free (drop start names ++ take start names))) [
      | inl missing ↦
          let busy : free x.actor ≡ false = find-none free _ missing turned in
          absurd (ground (arith, any-In (of_actor x.actor) available m (text_eq_refl x.actor)))
      | inr (actor, found) ↦
          let (_, some_free) = find-In free _ found in
          let (y, n, owner) = In-any (of_actor actor) available some_free in
          let (lane, e) =
            next_lane_total (sort_lanes (lanes_of actor available)) (lookup actor last_connection) (
              sort_lanes-In (lanes_of actor available)
                (filter-In (of_actor actor) available n owner)) in
          (lane, ground arith)
    ]
