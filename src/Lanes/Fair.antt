-- ===== src/Lanes/Fair.antt =====
-- lanes.ts: the fair choice among available lanes.
pub mod Turns
pub mod Rotation
use interleave.Prelude.{
  ℕ, zero, suc, ◌+◌, ◌%◌, Bool, true, false, Option, none, some, List, [], ◌∷◌, ◌++◌, Text, text_eq,
  Dict, lookup, any, filter, find, length, take, drop, ltb, leb, if◌then◌else◌,
}
use interleave.Lanes.Labels.{Lane}

pub data FairError : Type 0 where
  no_available unknown_actor : FairError

pub data FairResult : Type 0 where
  chosen : Lane → FairResult
  refused : FairError → FairResult

-- `names.indexOf(name)`
unfoldable pub index_of : Text → List Text → Option ℕ
index_of name [] = none
index_of name (n ∷ names) =
    if text_eq n name
    then some 0
    else (elim (index_of name names) [ none ↦ none | some i ↦ some (suc i) ])

-- Where the rotation starts: after the last actor; at the front if there is none or it is unknown.
unfoldable pub rotation_start : List Text → Option Text → ℕ
unfolding index_of
rotation_start names none = 0
rotation_start names (some last) = elim (index_of last names) [
  | none ↦ 0
  | some i ↦ (i + 1) % length names
]

unfoldable pub rotation : List Text → Option Text → List Text
unfolding rotation_start
rotation names last = let start = rotation_start names last in drop start names ++ take start names

abbrev pub of_actor : Text → Lane → Bool
of_actor name lane = text_eq lane.actor name

-- `sort((a, b) => a.connection - b.connection)`, which is stable.
unfoldable pub insert_lane : Lane → List Lane → List Lane
insert_lane lane [] = lane ∷ []
insert_lane lane (other ∷ more) =
    if leb lane.connection other.connection
    then lane ∷ other ∷ more
    else other ∷ insert_lane lane more

unfoldable pub sort_lanes : List Lane → List Lane
unfolding insert_lane
sort_lanes [] = []
sort_lanes (lane ∷ more) = insert_lane lane (sort_lanes more)

-- The first of the sorted lanes after the previous one, or else the first of all.
unfoldable pub next_lane : List Lane → Option ℕ → FairResult
next_lane [] previous = refused no_available
next_lane (first ∷ more) none = chosen first
next_lane (first ∷ more) (some previous) =
    elim (find (λ lane. ltb previous lane.connection) (first ∷ more)) [
      | none ↦ chosen first
      | some lane ↦ chosen lane
    ]

unfoldable pub fair_lane : List Text → List Lane → Option Text → Dict ℕ → FairResult
unfolding rotation sort_lanes next_lane
fair_lane names [] last_actor last_connection = refused no_available
fair_lane names (first ∷ more) last_actor last_connection =
    elim (find (λ name. any (of_actor name) (first ∷ more)) (rotation names last_actor)) [
      | none ↦ refused unknown_actor
      | some actor ↦
          next_lane (sort_lanes (filter (of_actor actor) (first ∷ more)))
            (lookup actor last_connection)
    ]
