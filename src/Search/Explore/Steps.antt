-- ===== src/Search/Explore/Steps.antt =====
-- The loops of the search, one step at a time.
use interleave.Prelude.{
  ltb, not, ◌⊎◌, ℕ, suc, ◌+◌, ◌≡◌, refl, true, false, ◌&&◌, none, some, List, [], ◌∷◌, ◌++◌, map,
  Text, text_eq, length, max, arith, if◌then◌else◌, get_elem?,
}
use interleave.Types.{RunResult, is_some}
use interleave.Lanes.Plans.{Decision, decisions_from_trace, decision_choices, qualified}
use interleave.Search.Limits.{Interruption, frontier_index}
use interleave.Search.Environment.{is_violation}
use interleave.Search.Explore.Rounds.{SameParts}
use interleave.Search.Explore.{
  max_search_bytes, Config, World, State, Turn, halt, continue, interrupted, splice, offer,
  offer_each, branch, count_run, retain, assess, attempt, search_round, search_loop, is_over,
}

-- How a loop goes on after a turn.
abbrev pub and_then : Turn → (State → Turn) → Turn
and_then (halt t) f = halt t
and_then (continue t) f = f t

module _ (c : Config) (w : World) where
  module _ (choices : List Text) (index : ℕ) (choice : Text) where
    pub offer_each-end : (s : State) → offer_each c w choices index choice [] s ≡ continue s
    unfolding offer_each
    offer_each-end s = refl

    pub offer_each-taken :
        (alternative : Text) (rest : List Text) (s : State)
        → text_eq alternative choice ≡ true
        → offer_each c w choices index choice (alternative ∷ rest) s
          ≡ offer_each c w choices index choice rest s
    unfolding offer_each
    offer_each-taken alternative rest s h = ground arith

    pub offer_each-offer :
        (alternative : Text) (rest : List Text) (s : State)
        → text_eq alternative choice ≡ false
        → offer_each c w choices index choice (alternative ∷ rest) s
          ≡ and_then
              (offer c w choices index alternative s)
              (offer_each c w choices index choice rest)
    unfolding offer_each
    offer_each-offer alternative rest s h = go (offer c w choices index alternative s) refl
      where
        go :
            (r : Turn)
            → offer c w choices index alternative s ≡ r
            → offer_each c w choices index choice (alternative ∷ rest) s
              ≡ and_then r (offer_each c w choices index choice rest)
        go (halt t) e = ground arith
        go (continue t) e = ground arith

  module _ (multi : List Text) (decisions : List Decision) where
    pub branch-interrupted :
        (index : ℕ) (s : State) (i : Interruption)
        → w.reasons s.calls ≡ some i
        → branch c w multi decisions (suc index) s
          ≡ halt (record s { stop = interrupted i; calls = suc s.calls })
    unfolding branch
    branch-interrupted index s i e = ground arith

    pub branch-missing :
        (index : ℕ) (s : State)
        → w.reasons s.calls ≡ none
        → get_elem? decisions index ≡ none
        → branch c w multi decisions (suc index) s ≡ halt s
    unfolding branch
    branch-missing index s e d = ground arith

    pub branch-offer :
        (index : ℕ) (s : State) (decision : Decision)
        → w.reasons s.calls ≡ none
        → get_elem? decisions index ≡ some decision
        → branch c w multi decisions (suc index) s
          ≡ and_then
              (offer_each c w
                (map (λ d. d.choice) decisions)
                index
                decision.choice
                (decision_choices decision.available multi c.overlap)
                (record s { calls = suc s.calls }))
              (branch c w multi decisions index)
    unfolding branch
    branch-offer index s decision e d = go _ refl
      where
        go :
            (r : Turn)
            → offer_each c w
                (map (λ d. d.choice) decisions)
                index
                decision.choice
                (decision_choices decision.available multi c.overlap)
                (record s { calls = suc s.calls })
              ≡ r
            → branch c w multi decisions (suc index) s
              ≡ and_then r (branch c w multi decisions index)
        go (halt t) h = ground arith
        go (continue t) h = ground arith

  -- The variables when a plan has been dispatched.
  abbrev pub dispatch : List Text → State → State
  dispatch plan s = record s {
    dispatched = s.dispatched ++ plan ∷ [];
    metrics = record s.metrics {
      max_attempted_depth = max s.metrics.max_attempted_depth (length plan);
      attempted_runs = suc s.metrics.attempted_runs;
    };
  }

  abbrev pub run_of : List Text → State → RunResult
  run_of plan s = w.run_target s.metrics.attempted_runs plan

  pub attempt-turns :
      (plan : List Text) (s : State)
      → attempt c w plan s
        ≡ and_then
            (retain c w (run_of plan s) (count_run c w (run_of plan s) (dispatch plan s)))
            (λ t. and_then (assess c w (run_of plan s) t) (
              branch c w
                (qualified (run_of plan s))
                (decisions_from_trace (run_of plan s))
                (length (decisions_from_trace (run_of plan s)))))
  unfolding attempt
  attempt-turns plan s = go _ refl
    where
      after :
          (t : State) (r : Turn)
          → retain c w (run_of plan s) (count_run c w (run_of plan s) (dispatch plan s))
            ≡ continue t
          → assess c w (run_of plan s) t ≡ r
          → attempt c w plan s
            ≡ and_then r (
                branch c w
                  (qualified (run_of plan s))
                  (decisions_from_trace (run_of plan s))
                  (length (decisions_from_trace (run_of plan s))))
      after t (halt u) h e = ground arith
      after t (continue u) h e = ground arith

      go :
          (r : Turn)
          → retain c w (run_of plan s) (count_run c w (run_of plan s) (dispatch plan s)) ≡ r
          → attempt c w plan s
            ≡ and_then r (λ t. and_then (assess c w (run_of plan s) t) (
                branch c w
                  (qualified (run_of plan s))
                  (decisions_from_trace (run_of plan s))
                  (length (decisions_from_trace (run_of plan s)))))
      go (halt t) h = ground arith
      go (continue t) h = after t _ h refl

  module _ (run : RunResult) (s : State) where
    pub retain-invalid :
        w.parse_run_artifact run ≡ none
        → retain c w run s
          ≡ halt (record s { omitted_runs = suc s.omitted_runs; stop = max_search_bytes })
    unfolding retain
    retain-invalid e = ground arith

    pub retain-full :
        (valid : RunResult) (bytes : ℕ)
        → w.parse_run_artifact run ≡ some (valid, bytes)
        → ltb c.most_bytes (s.retained_bytes + bytes) ≡ true
        → retain c w run s
          ≡ halt (record s { omitted_runs = suc s.omitted_runs; stop = max_search_bytes })
    unfolding retain
    retain-full valid bytes e full = ground arith

    pub retain-kept :
        (valid : RunResult) (bytes : ℕ)
        → w.parse_run_artifact run ≡ some (valid, bytes)
        → ltb c.most_bytes (s.retained_bytes + bytes) ≡ false
        → retain c w run s
          ≡ continue (record s {
            retained_bytes = s.retained_bytes + bytes;
            runs = s.runs ++ run ∷ [];
            first_failure =
                if is_violation run.outcome && not (is_some s.first_failure)
                then some run
                else s.first_failure;
          })
    unfolding retain
    retain-kept valid bytes e room = ground arith

    -- The assessment changes the stop reason and the calls of the budget only.
    pub assess-parts :
        (t : State)
        → (assess c w run s ≡ halt t) ⊎ (assess c w run s ≡ continue t)
        → SameParts c w s t
    unfolding assess
    assess-parts t h = ground arith

  pub search_round-interrupted :
      (s : State) (i : Interruption)
      → w.reasons s.calls ≡ some i
      → search_round c w s ≡ halt (record s { stop = interrupted i; calls = suc s.calls })
  unfolding search_round
  search_round-interrupted s i e = ground arith

  abbrev pub chosen_index : State → ℕ
  chosen_index s = frontier_index w.digest c.search s.metrics.attempted_runs (length s.frontier)

  pub search_round-missing :
      (s : State)
      → w.reasons s.calls ≡ none
      → splice (chosen_index s) s.frontier ≡ none
      → search_round c w s ≡ halt s
  unfolding search_round
  search_round-missing s e h = ground arith

  pub search_round-attempt :
      (s : State) (plan : List Text) (rest : List (List Text))
      → w.reasons s.calls ≡ none
      → splice (chosen_index s) s.frontier ≡ some (plan, rest)
      → search_round c w s ≡ attempt c w plan (record s { frontier = rest; calls = suc s.calls })
  unfolding search_round
  search_round-attempt s plan rest e h = ground arith

  pub search_loop-end :
      (fuel : ℕ) (s : State) → is_over c w s ≡ true → search_loop c w (suc fuel) s ≡ s
  unfolding search_loop
  search_loop-end fuel s h = ground arith

  abbrev pub proceed : ℕ → Turn → State
  proceed fuel (halt t) = t
  proceed fuel (continue t) = search_loop c w fuel t

  pub search_loop-round :
      (fuel : ℕ) (s : State)
      → is_over c w s ≡ false
      → search_loop c w (suc fuel) s ≡ proceed fuel (search_round c w s)
  unfolding search_loop
  search_loop-round fuel s h = go _ refl
    where
      go : (r : Turn) → search_round c w s ≡ r → search_loop c w (suc fuel) s ≡ proceed fuel r
      go (halt t) e = ground arith
      go (continue t) e = ground arith
