-- ===== src/Search/Explore/Results.antt =====
-- What an exploration promises: each plan at most once, the limits, exact counts, and its end.
use interleave.Prelude.{
  ℕ, zero, suc, ◌+◌, ◌≤◌, ◌<◌, ◌≡◌, refl, sym, ◌∙◌, subst, true, false, some, List, Text, length,
  Bool-cases, Option-cases, inl, inr, arith, ltb, max, In,
}
use interleave.Types.{RunResult}
use interleave.Lanes.Plans.{decisions_from_trace, qualified}
use interleave.Search.Environment.{is_violation}
use interleave.Search.Explore.{
  Config, World, State, Turn, halt, continue, plan_eq, plan_bytes, splice, offer, count_run, retain,
  attempt, search_round, search_loop, is_over, finish, initial, explore,
}
use interleave.Search.Explore.Accounting.{occurrences, sum_of}
use interleave.Search.Explore.Rounds.{
  Each, run_bytes, IsFirstFailure, IsSound, IsSound-same, SameParts,
}
use interleave.Search.Explore.Steps.{
  dispatch, run_of, attempt-turns, chosen_index, search_round-interrupted, search_round-missing,
  search_round-attempt, search_loop-end, proceed, search_loop-round,
}
use interleave.Search.Explore.Invariant.{
  Each-and_then, branch-keeps, assess-keeps, search_loop-IsSound,
}

module _ (c : Config) (w : World) where
  Explored : ℕ → State → Type 0
  Explored n s = s.explored ≡ n

  offer-Explored :
      (n : ℕ) (choices : List Text) (index : ℕ) (alternative : Text) (s : State)
      → Explored n s
      → Each (Explored n) (offer c w choices index alternative s)
  unfolding offer Explored
  offer-Explored n choices index alternative s h = go _ refl
    where
      go : (r : Turn) → offer c w choices index alternative s ≡ r → Each (Explored n) r
      go (halt t) e = ground arith
      go (continue t) e = ground arith

  same-Explored : (n : ℕ) (s t : State) → Explored n s → SameParts c w s t → Explored n t
  unfolding Explored
  same-Explored n s t h (f, se, d, r, b, e, o, fi) = e ∙ h

  retain-Explored : (run : RunResult) (s : State) → Each (Explored s.explored) (retain c w run s)
  unfolding retain Explored
  retain-Explored run s = go _ refl
    where
      go : (r : Turn) → retain c w run s ≡ r → Each (Explored s.explored) r
      go (halt t) e = ground arith
      go (continue t) e = ground arith

  attempt-Explored :
      (plan : List Text) (s : State) → Each (Explored (suc s.explored)) (attempt c w plan s)
  unfolding count_run
  attempt-Explored plan s =
      let n = suc s.explored in
      rw (attempt-turns c w plan s) (
        Each-and_then _ _
          (retain-Explored (run_of c w plan s)
            (count_run c w (run_of c w plan s) (dispatch c w plan s)))
          (λ t k.
            Each-and_then _ _
              (assess-keeps c w (Explored n) (offer-Explored n) (same-Explored n)
                (run_of c w plan s) t k)
              (λ u l.
                branch-keeps c w (Explored n) (offer-Explored n) (same-Explored n)
                  (qualified (run_of c w plan s)) (decisions_from_trace (run_of c w plan s)) _ u
                  l)))

  -- A round that goes on has explored one more plan, any other at most one.
  Counts : State → Turn → Type 0
  Counts s (halt t) = t.explored ≤ suc s.explored
  Counts s (continue t) = t.explored ≡ suc s.explored

  Counts-Each : (s : State) (r : Turn) → Each (Explored (suc s.explored)) r → Counts s r
  unfolding Explored Counts
  Counts-Each s (halt t) h = omega arith
  Counts-Each s (continue t) h = h

  search_round-Counts : (s : State) → Counts s (search_round c w s)
  search_round-Counts s = elim (Option-cases (w.reasons s.calls)) [
    | inr (i, e) ↦ rw (search_round-interrupted c w s i e) (unfold Counts in omega arith)
    | inl e ↦ elim (Option-cases (splice (chosen_index c w s) s.frontier)) [
      | inl d ↦ rw (search_round-missing c w s e d) (unfold Counts in omega arith)
      | inr ((plan, rest), d) ↦
          let s' = record s { frontier = rest; calls = suc s.calls } in
          rw (search_round-attempt c w s plan rest e d)
            (Counts-Each s (attempt c w plan s') (attempt-Explored plan s'))
    ]
  ]

  proceed_le :
      (fuel : ℕ) (s : State) (r : Turn)
      → s.explored < c.most_runs
      → Counts s r
      → ((t : State) → t.explored ≤ c.most_runs → (search_loop c w fuel t).explored ≤ c.most_runs)
      → (proceed c w fuel r).explored ≤ c.most_runs
  unfolding Counts
  proceed_le fuel s (halt t) low h ih = omega arith
  proceed_le fuel s (continue t) low h ih = ih t (omega arith)

  search_loop_le :
      (fuel : ℕ) (s : State)
      → s.explored ≤ c.most_runs
      → (search_loop c w fuel s).explored ≤ c.most_runs
  search_loop_le zero s h = unfold search_loop in h
  search_loop_le (suc fuel) s h = elim (Bool-cases (is_over c w s)) [
    | inl over ↦ rw (search_loop-end c w fuel s over) h
    | inr busy ↦ rw (search_loop-round c w fuel s busy) (
        proceed_le fuel s (search_round c w s) (ground arith) (search_round-Counts s)
          (search_loop_le fuel))
  ]

  proceed-fuel :
      (k fuel : ℕ) (s : State) (r : Turn)
      → Counts s r
      → c.most_runs ≤ suc fuel + s.explored
      → ((t : State)
          → c.most_runs ≤ fuel + t.explored
          → search_loop c w k t ≡ search_loop c w fuel t)
      → proceed c w k r ≡ proceed c w fuel r
  unfolding Counts
  proceed-fuel k fuel s (halt t) h enough ih = refl
  proceed-fuel k fuel s (continue t) h enough ih = ih t (omega arith)

  search_loop_over : (k : ℕ) (s : State) → c.most_runs ≤ s.explored → search_loop c w k s ≡ s
  search_loop_over zero s h = unfold search_loop in refl
  search_loop_over (suc k) s h = search_loop-end c w k s (ground arith)

  -- The search ends within the runs that it has left: more fuel changes nothing.
  pub search_loop-fuel :
      (k fuel : ℕ) (s : State)
      → c.most_runs ≤ fuel + s.explored
      → fuel ≤ k
      → search_loop c w k s ≡ search_loop c w fuel s
  search_loop-fuel k zero s enough more =
      search_loop_over k s (omega arith) ∙ sym (search_loop_over 0 s (omega arith))
  search_loop-fuel zero (suc fuel) s enough more = absurd (omega arith)
  search_loop-fuel (suc k) (suc fuel) s enough more = elim (Bool-cases (is_over c w s)) [
    | inl over ↦ search_loop-end c w k s over ∙ sym (search_loop-end c w fuel s over)
    | inr busy ↦
        search_loop-round c w k s busy
        ∙ proceed-fuel k fuel s (search_round c w s) (search_round-Counts s) enough
            (λ t h. search_loop-fuel k fuel t h (omega arith))
        ∙ sym (search_loop-round c w fuel s busy)
  ]

  module _ (scenario : Text) (plan : List Text) where
    initial-IsSound : plan_bytes plan ≤ c.most_bytes → IsSound c w (initial c w scenario plan)
    unfolding initial
    initial-IsSound room = record {
      counted = λ p. omega arith;
      once = λ p. elim (Bool-cases (plan_eq p plan)) [
        | inl same ↦ rw same (omega arith)
        | inr other ↦ rw other (omega arith)
      ];
      bytes = omega arith;
      within = room;
      few = omega arith;
      explored = refl;
      kept = refl;
      first = tt;
    }

    pub explore-IsSound : plan_bytes plan ≤ c.most_bytes → IsSound c w (explore c w scenario plan)
    unfolding explore
    explore-IsSound room =
        let fits : ltb c.most_bytes (plan_bytes plan) ≡ false = ground arith in
        rw fits (
          IsSound-same c w (search_loop c w c.most_runs (initial c w scenario plan)) _
            (search_loop-IsSound c w c.most_runs (initial c w scenario plan) (initial-IsSound room))
            (refl, refl, refl, refl, refl, refl, refl, refl))

    -- Where the initial plan fits in the limit on bytes, an exploration hands no plan to more than one
    -- run, counts one explored run for each plan that it hands out, and retains every explored run or
    -- counts it as omitted.
    pub explore-dispatches_once :
        (p : List Text)
        → plan_bytes plan ≤ c.most_bytes
        → (occurrences p (explore c w scenario plan).dispatched ≤ 1)
          × (length (explore c w scenario plan).dispatched ≡ (explore c w scenario plan).explored)
          × ((explore c w scenario plan).explored
              ≡ length (explore c w scenario plan).runs + (explore c w scenario plan).omitted_runs)
    explore-dispatches_once p room =
        let h = explore-IsSound room in
        (let a = h.counted p in let b = h.once p in omega arith, h.explored, h.kept)

    -- Where the initial plan fits in the limit on bytes, the retained bytes are those of the encodings
    -- of all plans seen and of the artifacts of all retained runs.
    pub explore-bytes :
        plan_bytes plan ≤ c.most_bytes
        → (explore c w scenario plan).retained_bytes
          ≡ sum_of plan_bytes (explore c w scenario plan).seen
            + sum_of (run_bytes w) (explore c w scenario plan).runs
    explore-bytes room = let h = explore-IsSound room in h.bytes

    -- Also where the initial plan is too large, an exploration keeps its limits on runs, on bytes and
    -- on candidates (the initial plan is always one).
    pub explore-within :
        ((explore c w scenario plan).explored ≤ c.most_runs)
        × ((explore c w scenario plan).retained_bytes ≤ c.most_bytes)
        × (length (explore c w scenario plan).seen ≤ max 1 c.most_candidates)
    unfolding explore initial finish
    explore-within = elim (Bool-cases (ltb c.most_bytes (plan_bytes plan))) [
      | inl large ↦ rw large (omega arith, omega arith, omega arith)
      | inr fits ↦
          let h =
            search_loop-IsSound c w c.most_runs (initial c w scenario plan)
              (initial-IsSound (ground arith)) in
          rw fits
            (search_loop_le c.most_runs (initial c w scenario plan) (omega arith), h.within, h.few)
    ]

    -- Where the initial plan fits in the limit on bytes, the first failure of an exploration is one of
    -- its retained runs, and a violation.
    pub explore-first_failure :
        (run : RunResult)
        → plan_bytes plan ≤ c.most_bytes
        → (explore c w scenario plan).first_failure ≡ some run
        → In run (explore c w scenario plan).runs × (is_violation run.outcome ≡ true)
    explore-first_failure run room e =
        let h = explore-IsSound room in
        subst (IsFirstFailure (explore c w scenario plan).runs) e h.first
