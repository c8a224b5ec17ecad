-- ===== src/Search/Explore/Invariant.antt =====
-- The whole search keeps the plans, the bytes and the counts sound.
use interleave.Prelude.{
  ℕ, zero, suc, ◌+◌, ◌≤◌, ◌≡◌, refl, ◌&&◌, not, Option, none, some, List, [], ◌∷◌, ◌++◌, map, Text,
  text_eq, length, length-append, Bool-cases, Option-cases, inl, inr, arith, if◌then◌else◌, ltb,
  max, get_elem?, In-append_left, In-append_right, here,
}
use interleave.Types.{RunResult, is_some}
use interleave.Lanes.Plans.{Decision, decisions_from_trace, decision_choices, qualified}
use interleave.Search.Limits.{frontier_index}
use interleave.Search.Environment.{is_violation}
use interleave.Search.Explore.{
  Config, World, State, Turn, halt, continue, plan_bytes, splice, offer, offer_each, branch,
  count_run, retain, assess, search_round, search_loop, is_over,
}
use interleave.Search.Explore.Accounting.{
  occurrences, occurrences-append, occurrences-splice, sum_of, sum_of-append,
}
use interleave.Search.Explore.Rounds.{
  Each, run_bytes, IsFirstFailure, IsSound, IsSound-same, SameParts, offer-IsSound,
}
use interleave.Search.Explore.Steps.{
  and_then, offer_each-end, offer_each-taken, offer_each-offer, branch-interrupted, branch-missing,
  branch-offer, dispatch, run_of, attempt-turns, retain-invalid, retain-full, retain-kept,
  assess-parts, chosen_index, search_round-interrupted, search_round-missing, search_round-attempt,
  search_loop-end, proceed, search_loop-round,
}

pub Each-and_then {ℓ} :
    {P : State → Type ℓ} (r : Turn) (f : State → Turn)
    → Each P r
    → ((t : State) → P t → Each P (f t))
    → Each P (and_then r f)
Each-and_then (halt t) f h k = h
Each-and_then (continue t) f h k = k t h

module _ (c : Config) (w : World) where
  -- A property that offers keep and that the stop reason and the calls do not matter to.
  module _ {ℓ} (P : State → Type ℓ)
      (grow : (choices : List Text) (index : ℕ) (alternative : Text) (s : State)
        → P s
        → Each P (offer c w choices index alternative s))
      (keep : (s t : State) → P s → SameParts c w s t → P t) where
    offer_each-keeps :
        (choices : List Text) (index : ℕ) (choice : Text) (alternatives : List Text) (s : State)
        → P s
        → Each P (offer_each c w choices index choice alternatives s)
    offer_each-keeps choices index choice [] s h = rw (offer_each-end c w choices index choice s) h
    offer_each-keeps choices index choice (a ∷ rest) s h = elim (Bool-cases (text_eq a choice)) [
      | inl same ↦
          rw (offer_each-taken c w choices index choice a rest s same)
            (offer_each-keeps choices index choice rest s h)
      | inr other ↦ rw (offer_each-offer c w choices index choice a rest s other) (
          Each-and_then (offer c w choices index a s) _ (grow choices index a s h)
            (λ t k. offer_each-keeps choices index choice rest t k))
    ]

    pub branch-keeps :
        (multi : List Text) (decisions : List Decision) (bound : ℕ) (s : State)
        → P s
        → Each P (branch c w multi decisions bound s)
    branch-keeps multi decisions zero s h = unfold branch in h
    branch-keeps multi decisions (suc index) s h = elim (Option-cases (w.reasons s.calls)) [
      | inr (i, e) ↦
          rw (branch-interrupted c w multi decisions index s i e)
            (keep s _ h (refl, refl, refl, refl, refl, refl, refl, refl))
      | inl e ↦ elim (Option-cases (get_elem? decisions index)) [
        | inl d ↦ rw (branch-missing c w multi decisions index s e d) h
        | inr (decision, d) ↦ rw (branch-offer c w multi decisions index s decision e d) (
            Each-and_then _ _
              (offer_each-keeps (map (λ d. d.choice) decisions) index decision.choice
                (decision_choices decision.available multi c.overlap) _
                (keep s _ h (refl, refl, refl, refl, refl, refl, refl, refl)))
              (λ t k. branch-keeps multi decisions index t k))
      ]
    ]

    pub assess-keeps : (run : RunResult) (s : State) → P s → Each P (assess c w run s)
    assess-keeps run s h = go _ refl
      where
        go : (r : Turn) → assess c w run s ≡ r → Each P r
        go (halt t) e = keep s t h (assess-parts c w run s t (inl e))
        go (continue t) e = keep s t h (assess-parts c w run s t (inr e))

  -- As a sound state, with one run that is counted and neither retained nor omitted.
  record IsCounted (s : State) : Type 0 where
    pub counted :
        (p : List Text)
        → occurrences p s.dispatched + occurrences p s.frontier ≡ occurrences p s.seen
    pub once : (p : List Text) → occurrences p s.seen ≤ 1
    pub bytes : s.retained_bytes ≡ sum_of plan_bytes s.seen + sum_of (run_bytes w) s.runs
    pub within : s.retained_bytes ≤ c.most_bytes
    pub few : length s.seen ≤ max 1 c.most_candidates
    pub explored : length s.dispatched ≡ s.explored
    pub kept : s.explored ≡ suc (length s.runs + s.omitted_runs)
    pub first : IsFirstFailure s.runs s.first_failure

  first-snoc :
      (runs : List RunResult) (run : RunResult) (first : Option RunResult)
      → IsFirstFailure runs first
      → IsFirstFailure
          (runs ++ run ∷ [])
          (if is_violation run.outcome && not (is_some first) then some run else first)
  first-snoc runs run none h = elim (Bool-cases (is_violation run.outcome)) [
    | inl yes' ↦ rw yes' (In-append_right runs (run ∷ []) here, yes')
    | inr no' ↦ rw no' tt
  ]
  first-snoc runs run (some first) (at, violated) = elim (Bool-cases (is_violation run.outcome)) [
    | inl yes' ↦ rw yes' (In-append_left runs (run ∷ []) at, violated)
    | inr no' ↦ rw no' (In-append_left runs (run ∷ []) at, violated)
  ]

  omit-IsSound :
      (s t : State)
      → IsCounted s
      → t.omitted_runs ≡ suc s.omitted_runs
      → (t.frontier ≡ s.frontier)
        × (t.seen ≡ s.seen)
        × (t.dispatched ≡ s.dispatched)
        × (t.runs ≡ s.runs)
        × (t.retained_bytes ≡ s.retained_bytes)
        × (t.explored ≡ s.explored)
        × (t.first_failure ≡ s.first_failure)
      → IsSound c w t
  omit-IsSound s t h omitted (frontier, seen, dispatched, runs, retained, explored, first) =
      record {
        counted = rw frontier (rw seen (rw dispatched h.counted));
        once = rw seen h.once;
        bytes = rw retained (rw seen (rw runs h.bytes));
        within = rw retained h.within;
        few = rw seen h.few;
        explored = rw dispatched (rw explored h.explored);
        kept = rw explored (rw runs (rw omitted (let k = h.kept in omega arith)));
        first = rw runs (rw first h.first);
      }

  retain-IsSound :
      (run : RunResult) (s : State) → IsCounted s → Each (IsSound c w) (retain c w run s)
  retain-IsSound run s h = elim (Option-cases (w.parse_run_artifact run)) [
    | inl e ↦
        rw (retain-invalid c w run s e)
          (omit-IsSound s _ h refl (refl, refl, refl, refl, refl, refl, refl))
    | inr ((valid, bytes), e) ↦ elim (Bool-cases (ltb c.most_bytes (s.retained_bytes + bytes))) [
      | inl full ↦
          rw (retain-full c w run s valid bytes e full)
            (omit-IsSound s _ h refl (refl, refl, refl, refl, refl, refl, refl))
      | inr room ↦ rw (retain-kept c w run s valid bytes e room) record {
        counted = h.counted;
        once = h.once;
        bytes =
            let a = sum_of-append (run_bytes w) s.runs (run ∷ []) in
            let b : run_bytes w run ≡ bytes = ground arith in let k = h.bytes in omega arith;
        within = ground arith;
        few = h.few;
        explored = h.explored;
        kept = let l = length-append s.runs (run ∷ []) in let k = h.kept in omega arith;
        first = first-snoc s.runs run s.first_failure h.first;
      }
    ]
  ]

  count_run-IsCounted :
      (plan : List Text) (rest : List (List Text)) (s : State)
      → IsSound c w s
      → splice
          (frontier_index w.digest c.search s.metrics.attempted_runs (length s.frontier))
          s.frontier
        ≡ some (plan, rest)
      → (run : RunResult)
      → IsCounted (
          count_run c w run (dispatch c w plan (record s { frontier = rest; calls = suc s.calls })))
  unfolding count_run
  count_run-IsCounted plan rest s h e run = record {
    counted = λ p.
        let a = occurrences-append p s.dispatched (plan ∷ []) in
        let b = occurrences-splice p _ s.frontier plan rest e in let k = h.counted p in omega arith;
    once = h.once;
    bytes = h.bytes;
    within = h.within;
    few = h.few;
    explored = let l = length-append s.dispatched (plan ∷ []) in let k = h.explored in omega arith;
    kept = let k = h.kept in omega arith;
    first = h.first;
  }

  search_round-IsSound : (s : State) → IsSound c w s → Each (IsSound c w) (search_round c w s)
  search_round-IsSound s h = elim (Option-cases (w.reasons s.calls)) [
    | inr (i, e) ↦
        rw (search_round-interrupted c w s i e)
          (IsSound-same c w s _ h (refl, refl, refl, refl, refl, refl, refl, refl))
    | inl e ↦ elim (Option-cases (splice (chosen_index c w s) s.frontier)) [
      | inl d ↦ rw (search_round-missing c w s e d) h
      | inr ((plan, rest), d) ↦
          let s' = record s { frontier = rest; calls = suc s.calls } in
          rw (search_round-attempt c w s plan rest e d) (
            rw (attempt-turns c w plan s') (
              Each-and_then _ _
                (retain-IsSound (run_of c w plan s') _
                  (count_run-IsCounted plan rest s h d (run_of c w plan s')))
                (λ t k.
                  Each-and_then _ _
                    (assess-keeps (IsSound c w) (offer-IsSound c w) (IsSound-same c w)
                      (run_of c w plan s') t k)
                    (λ u l.
                      branch-keeps (IsSound c w) (offer-IsSound c w) (IsSound-same c w)
                        (qualified (run_of c w plan s')) (decisions_from_trace (run_of c w plan s'))
                        _ u l))))
    ]
  ]

  IsSound-proceed :
      (fuel : ℕ) (r : Turn)
      → ((t : State) → IsSound c w t → IsSound c w (search_loop c w fuel t))
      → Each (IsSound c w) r
      → IsSound c w (proceed c w fuel r)
  IsSound-proceed fuel (halt t) ih k = k
  IsSound-proceed fuel (continue t) ih k = ih t k

  pub search_loop-IsSound :
      (fuel : ℕ) (s : State) → IsSound c w s → IsSound c w (search_loop c w fuel s)
  search_loop-IsSound zero s h = unfold search_loop in h
  search_loop-IsSound (suc fuel) s h = elim (Bool-cases (is_over c w s)) [
    | inl over ↦ rw (search_loop-end c w fuel s over) h
    | inr busy ↦ rw (search_loop-round c w fuel s busy) (
        IsSound-proceed fuel (search_round c w s) (search_loop-IsSound fuel)
          (search_round-IsSound s h))
  ]
