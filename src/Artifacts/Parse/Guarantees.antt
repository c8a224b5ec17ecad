-- ===== src/Artifacts/Parse/Guarantees.antt =====
-- What the readers of a parsed run rely on.
use interleave.Prelude.{
  ℕ, ℤ, zero, suc, ◌≤◌, ◌≡◌, ◌≢◌, refl, sym, ◌∙◌, subst, Bool, true, false, ◌||◌, not, some, List,
  [], ◌∷◌, ◌++◌, Text, text_eq, has, map, any, all, In, all-In, In-any, map-In, In-append_left,
  In-append_right, In-concat, concat, get_elem?, ◌==◌, arith, some_injective, &&-true, All-intro,
}
use interleave.Lanes.Labels.{is_name, is_actor, split_on, plus_sign}
use interleave.Lanes.Plans.{plan_from_trace, qualified, step_name}
use interleave.Lanes.Plans.Traces.{IsPlain, PlainActors, plan_from_trace-names}
use interleave.Types.{RunResult, TraceStep, WaitObservation, or_else}
use interleave.Artifacts.Json.{Json}
use interleave.Artifacts.Steps.{Dialect}
use interleave.Artifacts.Steps.Facts.{IsStepAt}
use interleave.Artifacts.Stages.{step_key}
use interleave.Artifacts.Trace.{
  are_times_ordered, is_at_most, are_blockers_known, are_waits_explained, is_blocker, is_other,
  blocker_identity,
}
use interleave.Artifacts.Trace.Numbering.{commands_before, trace_value-IsNumbered}
use interleave.Artifacts.Parse.{parse_run_value}
use interleave.Artifacts.Parts.{
  Parts, requires_complete_actors, is_complete, actor_names, named_actors, plan_actors, step_actors,
  fits_statuses, is_rejected,
}
use interleave.Artifacts.Parse.Facts.{
  IsParsed, declared_dialect, parse_run_value-IsParsed, AreConsistent, check_parts-AreConsistent,
}

In-get_elem? :
    (trace : List TraceStep) {s : TraceStep} → In s trace → (i : ℕ) × (get_elem? trace i ≡ some s)
In-get_elem? [] m = elim m [ ]
In-get_elem? (t ∷ trace) In.here = (zero, refl)
In-get_elem? (t ∷ trace) (In.there m) = let (i, at) = In-get_elem? trace m in (suc i, at)

-- A release between two times, and a completion not after the second.
abbrev pub IsWithin : ℕ → ℕ → TraceStep → Type 0
IsWithin from to s =
    (from ≤ s.released_at) × (s.released_at ≤ to) × (is_at_most s.completed_at to ≡ true)

are_times_ordered-IsWithin :
    (duration before : ℕ) (trace : List TraceStep)
    → are_times_ordered duration before trace ≡ true
    → (i : ℕ) (s : TraceStep) → get_elem? trace i ≡ some s
    → IsWithin before duration s
unfolding are_times_ordered
are_times_ordered-IsWithin duration before [] h i s at = absurd cc
are_times_ordered-IsWithin duration before (t ∷ trace) h zero s at =
    let same : t ≡ s = some_injective at in subst (IsWithin before duration) same (ground arith)
are_times_ordered-IsWithin duration before (t ∷ trace) h (suc i) s at =
    let rest = are_times_ordered-IsWithin duration t.released_at trace (ground arith) i s at in
    ground arith

are_times_ordered-le :
    (duration before : ℕ) (trace : List TraceStep)
    → are_times_ordered duration before trace ≡ true
    → (i j : ℕ) (a b : TraceStep) → get_elem? trace i ≡ some a
    → get_elem? trace j ≡ some b
    → i ≤ j
    → IsWithin a.released_at duration b
unfolding are_times_ordered
are_times_ordered-le duration before [] h i j a b at_a at_b le = absurd cc
are_times_ordered-le duration before (t ∷ trace) h zero zero a b at_a at_b le =
    let same : b ≡ a = sym (some_injective at_b) ∙ some_injective at_a in
    let own = are_times_ordered-IsWithin duration before (t ∷ trace) h zero b at_b in
    (subst (λ x. x.released_at ≤ b.released_at) same (omega arith), own.1, own.2)
are_times_ordered-le duration before (t ∷ trace) h zero (suc j) a b at_a at_b le =
    let same : t ≡ a = some_injective at_a in
    subst (λ x. IsWithin x.released_at duration b) same
      (are_times_ordered-IsWithin duration t.released_at trace (ground arith) j b at_b)
are_times_ordered-le duration before (t ∷ trace) h (suc i) zero a b at_a at_b le =
    absurd (omega arith)
are_times_ordered-le duration before (t ∷ trace) h (suc i) (suc j) a b at_a at_b le =
    are_times_ordered-le duration t.released_at trace (ground arith) i j a b at_a at_b (omega arith)

-- A step of another actor, or of another lane, that ran on a backend.
abbrev pub HasOther : Bool → List TraceStep → TraceStep → ℕ → Type 0
HasOther lanes trace step pid =
    (other : TraceStep) × In other trace
    × (other.backend_pid ≡ pid)
    × (text_eq (blocker_identity lanes other) (blocker_identity lanes step) ≡ false)

are_blockers_known-HasOther :
    (lanes : Bool) (trace : List TraceStep)
    → are_blockers_known lanes trace ≡ true
    → (step : TraceStep) (wait : WaitObservation) (pid : ℕ) → In step trace
    → In wait step.waits
    → In pid wait.blocker_pids
    → (pid ≢ step.backend_pid) × HasOther lanes trace step pid
unfolding are_blockers_known
are_blockers_known-HasOther lanes trace h step wait pid in_trace in_waits in_pids =
    let own = all-In (are_waits_explained lanes trace) trace h in_trace in
    let waits =
      all-In (λ w. all (is_blocker lanes trace step) w.blocker_pids) step.waits own in_waits in
    let known = all-In (is_blocker lanes trace step) wait.blocker_pids waits in_pids in
    let (apart, found) = &&-true (not (pid == step.backend_pid)) _ known in
    let (other, in_other, is_it) = In-any (is_other lanes step pid) trace found in
    (ground arith, (other, in_other, ground arith, ground arith))

complete_step :
    (p : Parts)
    → (not (requires_complete_actors p.outcome) || is_complete p) ≡ true
    → requires_complete_actors p.outcome ≡ true
    → (step : TraceStep) → In step p.trace
    → has step.actor (actor_names p) ≡ true
unfolding is_complete
complete_step p h complete step in_trace =
    let whole : is_complete p ≡ true = ground arith in
    let named : all (λ name. has name (actor_names p)) (named_actors p) ≡ true = ground arith in
    let started = map (λ c. c.actor) (or_else p.connections []) in
    let ran = concat (map (step_actors p) p.trace) in
    let cancelled = map (λ c. c.actor) p.cancels in
    all-In (λ name. has name (actor_names p)) (named_actors p) named
      (In-append_left ((plan_actors p ++ started) ++ ran) cancelled (
        In-append_right (plan_actors p ++ started) ran (
          In-concat (map (step_actors p) p.trace) (map-In (step_actors p) p.trace in_trace)
            In.here)))

module _ (number_length : ℤ → ℕ) (value : Json) (run : RunResult)
    (h : parse_run_value number_length value ≡ some run) where
  parsed : IsParsed value run
  parsed = parse_run_value-IsParsed number_length value run h

  consistent : AreConsistent parsed.parts
  consistent = check_parts-AreConsistent parsed.parts parsed.checked

  pub parse_run_value-IsNumbered :
      (i : ℕ) (step : TraceStep)
      → get_elem? run.trace i ≡ some step
      → (d : Dialect) × (declared_dialect value ≡ some d)
        × IsStepAt d i step
        × (step.ordinal ≡ commands_before (step_key step) i run.trace)
  parse_run_value-IsNumbered i step at =
      let p = parsed in
      let (own, counted) =
        trace_value-IsNumbered p.parts.dialect p.keys p.recorded p.parts.trace p.traced i step
          (subst (λ t. get_elem? t i ≡ some step) p.same_trace at) in
      (
        p.parts.dialect,
        p.is_declared,
        own,
        subst (λ t. step.ordinal ≡ commands_before (step_key step) i t) (sym p.same_trace) counted,
      )

  -- In a parsed run releases do not decrease along the trace, and no release or completion is later
  -- than the end of the run.
  pub parse_run_value-IsOrdered :
      (i j : ℕ) (a b : TraceStep)
      → get_elem? run.trace i ≡ some a
      → get_elem? run.trace j ≡ some b
      → i ≤ j
      → IsWithin a.released_at run.duration_ms b
  parse_run_value-IsOrdered i j a b at_a at_b le =
      let p = parsed in
      subst (λ n. IsWithin a.released_at n b) (sym p.same_duration)
        (are_times_ordered-le p.parts.duration_ms 0 p.parts.trace consistent.ordered i j a b
          (subst (λ t. get_elem? t i ≡ some a) p.same_trace at_a)
          (subst (λ t. get_elem? t j ≡ some b) p.same_trace at_b) le)

  -- A blocker of a wait that a parsed run recorded is another backend than the waiting step's, and
  -- some step of another actor or lane ran on it.
  pub parse_run_value-HasOther :
      (step : TraceStep) (wait : WaitObservation) (pid : ℕ)
      → In step run.trace
      → In wait step.waits
      → In pid wait.blocker_pids
      → (pid ≢ step.backend_pid) × (lanes : Bool) × HasOther lanes run.trace step pid
  parse_run_value-HasOther step wait pid in_trace in_waits in_pids =
      let p = parsed in
      let (apart, other) =
        are_blockers_known-HasOther p.parts.dialect.lanes p.parts.trace consistent.explained step
          wait pid (subst (In step) p.same_trace in_trace) in_waits in_pids in
      (
        apart,
        p.parts.dialect.lanes,
        subst (λ t. HasOther p.parts.dialect.lanes t step pid) (sym p.same_trace) other,
      )

  -- Where a parsed run ended by itself, every step's actor has a result.
  pub parse_run_value_complete :
      (step : TraceStep)
      → requires_complete_actors run.outcome ≡ true
      → In step run.trace
      → has step.actor (map (λ a. a.actor) run.actors) ≡ true
  parse_run_value_complete step complete in_trace =
      let p = parsed in
      subst (λ l. has step.actor (map (λ a. a.actor) l) ≡ true) (sym p.same_actors)
        (complete_step p.parts consistent.complete
          (subst (λ o. requires_complete_actors o ≡ true) p.same_outcome complete) step
          (subst (In step) p.same_trace in_trace))

  -- The outcome of a parsed run is true to its actors: no actor was rejected in a run that passed or
  -- violated the invariant, and one was in a run that ended in an actor's error.
  pub parse_run_value-fits :
      fits_statuses run.outcome (any (λ a. is_rejected a.status) run.actors) ≡ true
  parse_run_value-fits =
      let p = parsed in
      subst (λ o. fits_statuses o (any (λ a. is_rejected a.status) run.actors) ≡ true)
        (sym p.same_outcome)
        (subst (λ l. fits_statuses p.parts.outcome (any (λ a. is_rejected a.status) l) ≡ true)
          (sym p.same_actors) consistent.fitting)

is_name-IsPlain : (t : Text) → all is_name t ≡ true → IsPlain t
unfolding is_name
is_name-IsPlain [] h = tt
is_name-IsPlain (c ∷ t) h = (ground arith, is_name-IsPlain t (ground arith))

module _ (number_length : ℤ → ℕ) (value : Json) (run : RunResult)
    (h : parse_run_value number_length value ≡ some run) where
  plain_steps : PlainActors run.trace
  unfolding is_name
  plain_steps =
      All-intro (λ (step : TraceStep). IsPlain step.actor) run.trace
        (λ step m.
          let (i, at) = In-get_elem? run.trace m in
          let (d, declared, own, counted) =
            parse_run_value-IsNumbered number_length value run h i step at in
          let (letters, named) =
            &&-true (is_actor step.actor) (all is_name step.actor) own.actor_valid in
          is_name-IsPlain step.actor named)

  -- Split at `+`, the choices that plan_from_trace makes anew from a parsed run's trace name every
  -- step of the trace once, in order.
  pub parse_run_value-names :
      concat (map (split_on plus_sign) (plan_from_trace run))
      ≡ map (step_name (qualified run)) run.trace
  parse_run_value-names = plan_from_trace-names run plain_steps
