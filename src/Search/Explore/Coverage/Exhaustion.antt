-- ===== src/Search/Explore/Coverage/Exhaustion.antt =====
-- The whole search, where it ends with an empty frontier.
use interleave.Prelude.{
  ℕ, zero, suc, ◌≤◌, ◌<◌, ◌≡◌, refl, sym, ◌∙◌, subst, true, false, none, some, List, [], ◌∷◌, ◌++◌,
  map, Text, text_eq, take, length, any, Bool-cases, Option-cases, inl, inr, arith, ltb, get_elem?,
  In, In-append, In-cons,
}
use interleave.Types.{RunResult}
use interleave.Lanes.Plans.{Decision, decisions_from_trace, decision_choices, qualified}
use interleave.Search.Limits.{frontier_index-lt}
use interleave.Search.Explore.{
  Config, World, State, Turn, halt, continue, plan_eq, plan_bytes, splice, branch, count_run,
  retain, assess, attempt, search_round, search_loop, is_over, finish, initial, explore,
  frontier_exhausted,
}
use interleave.Search.Explore.Accounting.{occurrences, occurrences_some}
use interleave.Search.Explore.Steps.{
  dispatch, run_of, attempt-turns, chosen_index, search_round-interrupted, search_round-attempt,
  search_loop-end, proceed, search_loop-round,
}
use interleave.Search.Explore.Results.{explore-IsSound}
use interleave.Search.Explore.Coverage.{
  Goes, Goes-and_then, Goes-map, Extends, SeenAt, branch-Goes, get_elem?-lt, key_of,
}

splice-none : (i : ℕ) (xs : List (List Text)) → splice i xs ≡ none → length xs ≤ i
unfolding splice
splice-none i [] h = omega arith
splice-none zero (x ∷ xs) h = absurd (ground arith)
splice-none (suc i) (x ∷ xs) h = elim (Option-cases (splice i xs)) [
  | inl e ↦ let rest = splice-none i xs e in omega arith
  | inr ((y, ys), e) ↦ absurd (ground arith)
]

occurrences_nil : (p : List Text) (xs : List (List Text)) → length xs ≡ 0 → occurrences p xs ≡ 0
occurrences_nil p [] h = refl
occurrences_nil p (x ∷ xs) h = absurd (omega arith)

module _ (c : Config) (w : World) where
  -- Every alternative that a retained run showed is a plan seen.
  record IsClosed (s : State) : Type 0 where
    pub stop : s.stop ≡ frontier_exhausted
    pub omitted : s.omitted_runs ≡ 0
    pub covered :
        (run : RunResult)
        → In run s.runs
        → (index : ℕ) → SeenAt c w (qualified run) (decisions_from_trace run) index s

  SeenAt-Extends :
      (multi : List Text) (decisions : List Decision) (index : ℕ) (s t : State)
      → Extends s t
      → SeenAt c w multi decisions index s
      → SeenAt c w multi decisions index t
  SeenAt-Extends multi decisions index s t grown seen =
      λ d e a at other. grown.3 _ (seen d e a at other)

  -- What the next two functions keep.
  abbrev Keeps : List RunResult → State → State → Type 0
  Keeps runs s t =
      (t.runs ≡ runs) × (t.stop ≡ s.stop) × (t.omitted_runs ≡ s.omitted_runs) × (t.seen ≡ s.seen)

  retain-Goes :
      (run : RunResult) (s : State) → Goes (Keeps (s.runs ++ run ∷ []) s) (retain c w run s)
  unfolding retain
  retain-Goes run s = go _ refl
    where
      go : (r : Turn) → retain c w run s ≡ r → Goes (Keeps (s.runs ++ run ∷ []) s) r
      go (halt t) e = λ h. ground arith
      go (continue t) e = (ground arith, ground arith, ground arith, ground arith)

  assess-Goes : (run : RunResult) (s : State) → Goes (Keeps s.runs s) (assess c w run s)
  unfolding assess
  assess-Goes run s = go _ refl
    where
      go : (r : Turn) → assess c w run s ≡ r → Goes (Keeps s.runs s) r
      go (halt t) e = λ h. ground arith
      go (continue t) e = (ground arith, ground arith, ground arith, ground arith)

  -- The state when the run of an attempt is retained: all runs but that one are covered.
  record IsOpen (run : RunResult) (runs : List RunResult) (t : State) : Type 0 where
    pub runs_now : t.runs ≡ runs ++ run ∷ []
    pub stop : t.stop ≡ frontier_exhausted
    pub omitted : t.omitted_runs ≡ 0
    pub covered :
        (other : RunResult)
        → In other runs
        → (index : ℕ) → SeenAt c w (qualified other) (decisions_from_trace other) index t

  branch-IsClosed :
      (run : RunResult) (runs : List RunResult) (s : State)
      → IsOpen run runs s
      → Goes IsClosed (
          branch c w
            (qualified run)
            (decisions_from_trace run)
            (length (decisions_from_trace run))
            s)
  branch-IsClosed run runs s h =
      let multi = qualified run in
      let decisions = decisions_from_trace run in
      Goes-map
        (λ t.
          Extends s t
          × ((index : ℕ) → index < length decisions → SeenAt c w multi decisions index t))
        IsClosed (branch c w multi decisions (length decisions) s)
        (branch-Goes c w multi decisions (length decisions) s (omega arith))
        (λ t (grown, seen). record {
          stop = grown.1 ∙ h.stop;
          omitted = grown.2 ∙ h.omitted;
          covered = λ other at index.
              let at' : In other (runs ++ run ∷ []) = subst (In other) (grown.0 ∙ h.runs_now) at in
              elim (In-append runs (run ∷ []) at') [
                | inl before ↦
                    SeenAt-Extends (qualified other) (decisions_from_trace other) index s t grown
                      (h.covered other before index)
                | inr last ↦ elim (In-cons last) [
                  | inl e ↦
                      subst (λ x. SeenAt c w (qualified x) (decisions_from_trace x) index t) (sym e)
                        (λ d e'. seen index (get_elem?-lt decisions index e') d e')
                  | inr more ↦ elim more [ ]
                ]
              ];
        })

  IsOpen-Keeps :
      (run : RunResult) (runs : List RunResult) (s t : State)
      → IsOpen run runs s
      → Keeps s.runs s t
      → IsOpen run runs t
  IsOpen-Keeps run runs s t h (r, st, o, se) = record {
    runs_now = r ∙ h.runs_now;
    stop = st ∙ h.stop;
    omitted = o ∙ h.omitted;
    covered = λ other at index d e a at' different.
        subst
          (λ x.
            any (plan_eq (key_of c w (map (λ d. d.choice) (decisions_from_trace other)) index a)) x
            ≡ true)
          (sym se) (h.covered other at index d e a at' different);
  }

  attempt-IsClosed :
      (plan : List Text) (s : State) → IsClosed s → Goes IsClosed (attempt c w plan s)
  unfolding count_run
  attempt-IsClosed plan s h =
      let run = run_of c w plan s in
      let s' = count_run c w run (dispatch c w plan s) in
      rw (attempt-turns c w plan s) (
        Goes-and_then (Keeps (s'.runs ++ run ∷ []) s') IsClosed _ _ (retain-Goes run s')
          (λ t (r, st, o, se).
            let opened : IsOpen run s.runs t = record {
              runs_now = r;
              stop = st ∙ h.stop;
              omitted = o ∙ h.omitted;
              covered = λ other at index d e a at' different.
                  subst
                    (λ x.
                      any
                        (plan_eq
                          (key_of c w (map (λ d. d.choice) (decisions_from_trace other)) index a))
                        x
                      ≡ true)
                    (sym se) (h.covered other at index d e a at' different);
            } in
            Goes-and_then (Keeps t.runs t) IsClosed _ _ (assess-Goes run t)
              (λ u k. branch-IsClosed run s.runs u (IsOpen-Keeps run s.runs t u opened k))))

  search_round-IsClosed :
      (s : State) → 0 < length s.frontier → IsClosed s → Goes IsClosed (search_round c w s)
  search_round-IsClosed s some_left h = elim (Option-cases (w.reasons s.calls)) [
    | inr (i, e) ↦ rw (search_round-interrupted c w s i e) (λ k. ground arith)
    | inl e ↦ elim (Option-cases (splice (chosen_index c w s) s.frontier)) [
      | inl d ↦ absurd (
          let short = splice-none (chosen_index c w s) s.frontier d in
          let inside =
            frontier_index-lt w.digest c.search s.metrics.attempted_runs (length s.frontier)
              some_left in
          omega arith)
      | inr ((plan, rest), d) ↦ rw (search_round-attempt c w s plan rest e d) (
          attempt-IsClosed plan (record s { frontier = rest; calls = suc s.calls })
            (record { stop = h.stop; omitted = h.omitted; covered = h.covered }))
    ]
  ]

  proceed-IsClosed :
      (fuel : ℕ) (r : Turn)
      → Goes IsClosed r
      → ((t : State)
          → IsClosed t
          → (search_loop c w fuel t).stop ≡ frontier_exhausted
          → IsClosed (search_loop c w fuel t))
      → (proceed c w fuel r).stop ≡ frontier_exhausted
      → IsClosed (proceed c w fuel r)
  proceed-IsClosed fuel (halt t) h ih e = absurd (h e)
  proceed-IsClosed fuel (continue t) h ih e = ih t h e

  search_loop-IsClosed :
      (fuel : ℕ) (s : State)
      → IsClosed s
      → (search_loop c w fuel s).stop ≡ frontier_exhausted
      → IsClosed (search_loop c w fuel s)
  search_loop-IsClosed zero s h e = unfold search_loop in h
  search_loop-IsClosed (suc fuel) s h e = elim (Bool-cases (is_over c w s)) [
    | inl over ↦ rw (search_loop-end c w fuel s over) h
    | inr busy ↦
        let turn = search_loop-round c w fuel s busy in
        subst IsClosed (sym turn) (
          proceed-IsClosed fuel (search_round c w s) (search_round-IsClosed s (ground arith) h)
            (search_loop-IsClosed fuel) (subst (λ x. x.stop ≡ frontier_exhausted) turn e))
  ]

  module _ (scenario : Text) (plan : List Text) where
    initial-IsClosed : IsClosed (initial c w scenario plan)
    unfolding initial
    initial-IsClosed = record { stop = refl; omitted = refl; covered = λ run at. elim at [ ] }

    finished :
        (explore c w scenario plan).stop ≡ frontier_exhausted
        → (plan_bytes plan ≤ c.most_bytes)
          × ((explore c w scenario plan).pending ≡ 0)
          × (length (explore c w scenario plan).frontier ≡ 0)
          × IsClosed (explore c w scenario plan)
    unfolding explore finish
    finished e = elim (Bool-cases (ltb c.most_bytes (plan_bytes plan))) [
      | inl large ↦ absurd (ground arith)
      | inr fits ↦
          let s = search_loop c w c.most_runs (initial c w scenario plan) in
          let stopped : s.stop ≡ frontier_exhausted = ground arith in
          let none_left : length s.frontier ≡ 0 = ground arith in
          let h =
            search_loop-IsClosed c.most_runs (initial c w scenario plan) initial-IsClosed stopped in
          (
            ground arith,
            rw fits none_left,
            rw fits none_left,
            rw fits record { stop = ground arith; omitted = h.omitted; covered = h.covered },
          )
    ]

    -- Where an exploration stopped because its frontier was exhausted, nothing is pending and no run
    -- was omitted.
    pub explore-exhausted_whole :
        (explore c w scenario plan).stop ≡ frontier_exhausted
        → ((explore c w scenario plan).pending ≡ 0) × ((explore c w scenario plan).omitted_runs ≡ 0)
    explore-exhausted_whole e =
        let (room, pending, none_left, closed) = finished e in (pending, closed.omitted)

    -- Where an exploration stopped because its frontier was exhausted, each alternative that a run
    -- showed at one of its decisions, other than the choice made there, was handed to exactly one run
    -- after the choices before it.
    pub explore-exhausted :
        (run : RunResult) (index : ℕ) (d : Decision) (a : Text)
        → (explore c w scenario plan).stop ≡ frontier_exhausted
        → In run (explore c w scenario plan).runs
        → get_elem? (decisions_from_trace run) index ≡ some d
        → In a (decision_choices d.available (qualified run) c.overlap)
        → text_eq a d.choice ≡ false
        → occurrences
            (take index (map (λ d. d.choice) (decisions_from_trace run)) ++ a ∷ [])
            (explore c w scenario plan).dispatched
          ≡ 1
    explore-exhausted run index d a e at found among other =
        let (room, pending, none_left, closed) = finished e in
        let sound = explore-IsSound c w scenario plan room in
        let key = take index (map (λ d. d.choice) (decisions_from_trace run)) ++ a ∷ [] in
        let seen =
          occurrences_some key (explore c w scenario plan).seen
            (closed.covered run at index d found a among other) in
        let once = sound.once key in
        let counted = sound.counted key in
        let empty : occurrences key (explore c w scenario plan).frontier ≡ 0 =
          occurrences_nil key _ none_left in
        omega arith
