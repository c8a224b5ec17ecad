-- ===== src/Search/Explore.antt =====
-- explore.ts: the search over prefixes of observed choices.
mod Accounting
mod Rounds
mod Steps
mod Invariant
mod Results
mod Coverage
mod Tests
use interleave.Prelude.{
  ℕ, zero, suc, ◌+◌, ◌-◌, ◌*◌, ◌≤◌, ◌≡◌, Bool, true, false, ◌&&◌, ◌||◌, not, Option, none, some,
  List, [], ◌∷◌, ◌++◌, map, Text, codes, text_eq, take, length, max, ltb, leb, ◌==◌, if◌then◌else◌,
  any, get_elem?,
}
unfoldable pub use interleave.Search.Encoding.{
  plan_eq, escaped_bytes, choice_bytes, joined_bytes, plan_bytes, prefix_bytes,
}
use interleave.Types.{RunResult, TraceStep, Outcome, OverlapMode, is_some, is_multi}
use interleave.Lanes.Plans.{Decision, decisions_from_trace, decision_choices, qualified}
use interleave.Search.Limits.{Interruption, Search, frontier_index}
use interleave.Search.Environment.{is_violation, is_hard, is_inconclusive, is_completed}

pub data StopReason : Type 0 where
  frontier_exhausted failure max_runs max_candidates max_search_bytes inconclusive : StopReason
  interrupted : Interruption → StopReason

-- The limits and options after their validation.
pub record Config : Type 0 where
  pub search : Search
  pub most_runs : ℕ
  pub most_candidates : ℕ
  pub most_bytes : ℕ
  pub overlap : Option OverlapMode
  pub stop_on_failure : Bool

-- What is outside the search: the run of an attempt, its artifact as parsed back with the bytes of
-- its encoding (or none where it is not valid), the answers of the budget, and the digest of a text.
pub record World : Type 0 where
  pub run_target : ℕ → List Text → RunResult
  pub parse_run_artifact : RunResult → Option (RunResult × ℕ)
  pub reasons : ℕ → Option Interruption
  pub digest : Text → ℕ

pub record Metrics : Type 0 where
  pub attempted_runs : ℕ
  pub completed_runs : ℕ
  pub max_attempted_depth : ℕ
  pub recorded_released_steps : ℕ
  pub recorded_actor_switches : ℕ
  pub trace_counts_complete : Bool

-- The frontier, the set of seen plans and the result. `dispatched` is the sequence of plans handed
-- to runTarget, and `calls` counts the calls of the budget.
pub record State : Type 0 where
  pub frontier : List (List Text)
  pub seen : List (List Text)
  pub dispatched : List (List Text)
  pub metrics : Metrics
  pub runs : List RunResult
  pub first_failure : Option RunResult
  pub scenario : Text
  pub explored : ℕ
  pub pending : ℕ
  pub retained_bytes : ℕ
  pub omitted_runs : ℕ
  pub violation_count : ℕ
  pub hard_failure_count : ℕ
  pub stop : StopReason
  pub calls : ℕ

-- A loop that is left for good, or that goes on.
pub data Turn : Type 0 where
  halt continue : State → Turn

-- `frontier.splice(index, 1)`
unfoldable pub splice : ℕ → List (List Text) → Option (List Text × List (List Text))
splice i [] = none
splice zero (x ∷ xs) = some (x, xs)
splice (suc i) (x ∷ xs) = elim (splice i xs) [ none ↦ none | some (y, ys) ↦ some (y, x ∷ ys) ]

unfoldable pub count_switches : Option Text → List TraceStep → ℕ
count_switches previous [] = 0
count_switches none (step ∷ steps) = count_switches (some step.actor) steps
count_switches (some actor) (step ∷ steps) =
    (if text_eq actor step.actor then 0 else 1) + count_switches (some step.actor) steps

unfoldable pub is_complete : RunResult → Bool
is_complete valid =
    is_completed valid.outcome
    && valid.cleanup.complete
    && not (any (λ (step : TraceStep). not (is_some step.completion)) valid.trace)

-- The counts of a validated artifact.
unfoldable pub measure : RunResult → Metrics → Metrics
unfolding is_complete count_switches
measure valid m = record m {
  completed_runs = if is_complete valid then suc m.completed_runs else m.completed_runs;
  recorded_released_steps = m.recorded_released_steps + length valid.trace;
  recorded_actor_switches = m.recorded_actor_switches + count_switches none valid.trace;
  trace_counts_complete = if is_complete valid then m.trace_counts_complete else false;
}

-- A search has had a hard failure where a run has one, or did not clean up.
abbrev is_hard_run : RunResult → Bool
is_hard_run run = is_hard run.outcome || not run.cleanup.complete

module _ (c : Config) (w : World) where
  -- One alternative of a decision, given the choices of the run and the index.
  unfoldable pub offer : List Text → ℕ → Text → State → Turn
  offer choices index alternative s =
      let key = take index choices ++ alternative ∷ [] in
      let key_bytes = prefix_bytes index choices + choice_bytes alternative + 1 in
      if any (plan_eq key) s.seen
      then continue s
      else if ltb c.most_bytes (s.retained_bytes + key_bytes)
      then halt (record s { stop = max_search_bytes })
      else if leb c.most_candidates (length s.seen)
      then halt (record s { stop = max_candidates })
      else continue (record s {
        retained_bytes = s.retained_bytes + key_bytes;
        seen = s.seen ++ key ∷ [];
        frontier = s.frontier ++ key ∷ [];
      })

  unfoldable pub offer_each : List Text → ℕ → Text → List Text → State → Turn
  offer_each choices index choice [] s = continue s
  offer_each choices index choice (alternative ∷ alternatives) s =
      if text_eq alternative choice
      then offer_each choices index choice alternatives s
      else elim (offer choices index alternative s) [
        | halt t ↦ halt t
        | continue t ↦ offer_each choices index choice alternatives t
      ]

  -- The decisions with an index below the bound, latest first.
  unfoldable pub branch : List Text → List Decision → ℕ → State → Turn
  branch multi decisions zero s = continue s
  branch multi decisions (suc index) s = elim (w.reasons s.calls) [
    | some i ↦ halt (record s { stop = interrupted i; calls = suc s.calls })
    | none ↦ elim (get_elem? decisions index) [
      | none ↦ halt s
      | some decision ↦
          elim (offer_each (map (λ d. d.choice) decisions) index decision.choice
            (decision_choices decision.available multi c.overlap)
            (record s { calls = suc s.calls })) [
              | halt t ↦ halt t
              | continue t ↦ branch multi decisions index t
            ]
    ]
  ]

  -- The counts of a finished run.
  unfoldable pub count_run : RunResult → State → State
  count_run run s = record s {
    scenario = run.scenario;
    explored = suc s.explored;
    violation_count = if is_violation run.outcome then suc s.violation_count else s.violation_count;
    hard_failure_count = if is_hard_run run then suc s.hard_failure_count else s.hard_failure_count;
    metrics = elim (w.parse_run_artifact run) [
      | none ↦ record s.metrics { trace_counts_complete = false }
      | some (valid, bytes) ↦ measure valid s.metrics
    ];
  }

  -- The evidence of a run is retained, or it is too large (without an upper bound where it is not
  -- valid) and the search ends.
  unfoldable pub retain : RunResult → State → Turn
  retain run s = elim (w.parse_run_artifact run) [
    | none ↦ halt (record s { omitted_runs = suc s.omitted_runs; stop = max_search_bytes })
    | some (valid, bytes) ↦
        if ltb c.most_bytes (s.retained_bytes + bytes)
        then halt (record s { omitted_runs = suc s.omitted_runs; stop = max_search_bytes })
        else continue (record s {
          retained_bytes = s.retained_bytes + bytes;
          runs = s.runs ++ run ∷ [];
          first_failure =
              if is_violation run.outcome && not (is_some s.first_failure)
              then some run
              else s.first_failure;
        })
  ]

  -- Whether the search goes on after a retained run.
  unfoldable pub assess : RunResult → State → Turn
  assess run s = elim (w.reasons s.calls) [
    | some i ↦ halt (record s { stop = interrupted i; calls = suc s.calls })
    | none ↦
        if is_violation run.outcome && c.stop_on_failure
        then halt (record s { stop = failure; calls = suc s.calls })
        else if is_inconclusive run.outcome || is_hard run.outcome
        then halt (record s { stop = inconclusive; calls = suc s.calls })
        else continue (record s { calls = suc s.calls })
  ]

  -- One chosen plan: its run, and the alternatives that the run showed.
  unfoldable pub attempt : List Text → State → Turn
  attempt plan s =
      let run = w.run_target s.metrics.attempted_runs plan in
      let started = record s {
        dispatched = s.dispatched ++ plan ∷ [];
        metrics = record s.metrics {
          max_attempted_depth = max s.metrics.max_attempted_depth (length plan);
          attempted_runs = suc s.metrics.attempted_runs;
        };
      } in
      elim (retain run (count_run run started)) [
        | halt t ↦ halt t
        | continue t ↦ elim (assess run t) [
          | halt u ↦ halt u
          | continue u ↦
              branch (qualified run) (decisions_from_trace run) (length (decisions_from_trace run))
                u
        ]
      ]

  -- One round of the search.
  unfoldable pub search_round : State → Turn
  search_round s = elim (w.reasons s.calls) [
    | some i ↦ halt (record s { stop = interrupted i; calls = suc s.calls })
    | none ↦
        elim (splice (frontier_index w.digest c.search s.metrics.attempted_runs (length s.frontier))
          s.frontier) [
            | none ↦ halt s
            | some (plan, rest) ↦ attempt plan (record s { frontier = rest; calls = suc s.calls })
          ]
  ]

  abbrev is_over : State → Bool
  is_over s = length s.frontier == 0 || leb c.most_runs s.explored

  unfoldable pub search_loop : ℕ → State → State
  search_loop zero s = s
  search_loop (suc fuel) s =
      if is_over s
      then s
      else elim (search_round s) [ halt t ↦ t | continue t ↦ search_loop fuel t ]

  abbrev is_exhausted : StopReason → Bool
  is_exhausted frontier_exhausted = true
  is_exhausted _ = false

  -- What stands after the loop.
  unfoldable pub finish : State → State
  finish s = record s {
    pending = length s.frontier;
    stop = if is_exhausted s.stop && not (length s.frontier == 0) then max_runs else s.stop;
  }

  unfoldable pub initial : Text → List Text → State
  initial scenario plan = record {
    frontier = plan ∷ [];
    seen = plan ∷ [];
    dispatched = [];
    metrics = record {
      attempted_runs = 0;
      completed_runs = 0;
      max_attempted_depth = 0;
      recorded_released_steps = 0;
      recorded_actor_switches = 0;
      trace_counts_complete = true;
    };
    runs = [];
    first_failure = none;
    scenario = scenario;
    explored = 0;
    pending = 1;
    retained_bytes = plan_bytes plan;
    omitted_runs = 0;
    violation_count = 0;
    hard_failure_count = 0;
    stop = frontier_exhausted;
    calls = 0;
  }

  -- `explore` after the validation of its options; the runs that are allowed bound the rounds.
  unfoldable pub explore : Text → List Text → State
  unfolding initial finish
  explore scenario plan =
      if ltb c.most_bytes (plan_bytes plan)
      then record (initial scenario plan) {
        retained_bytes = 0;
        pending = 0;
        stop = max_search_bytes;
      }
      else finish (search_loop c.most_runs (initial scenario plan))
