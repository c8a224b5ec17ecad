-- ===== src/Artifacts/Steps/Facts.antt =====
-- What a step that is accepted by itself satisfies.
use interleave.Prelude.{
  ℕ, ◌*◌, ◌/◌, ◌≤◌, ◌≡◌, refl, sym, subst, Bool, true, ◌&&◌, Option, none, some, List, Text, Dict,
  lookup, codes, text_eq, has, all, All, ◌==◌, Option-cases, inl, inr, arith, Holds-of, Holds-at,
  pos, negsuc, bind-some, guard-some, some_injective, traverse, traverse-All,
}
use interleave.Types.{TraceStep, StepIdentity, StepStage, WaitObservation, is_some}
use interleave.Lanes.Labels.{is_actor, is_name}
use interleave.Artifacts.Json.{
  Json, null, boolean, string, array, object, foreign, finite, unusable, one,
}
use interleave.Artifacts.Fields.{
  actor_id, finite_number, is_safe_integer, safe_integer, array_value, shape, field,
}
use interleave.Artifacts.Completions.{optional, is_unique, bool_eq}
use interleave.Artifacts.Outcomes.{validate_wait}
use interleave.Artifacts.Steps.Units.{
  IsUnitOf, FitsRecovery, unit_value-IsUnitOf, optional-FitsRecovery,
}
use interleave.Artifacts.Steps.{
  Dialect, selected_choice, unit_value, completion_value, available_value, identity_value,
  progress_value, Progress, waits_value, step_allowed, step_required, max_waits_per_step,
  validate_trace_step,
}

abbrev pub is_valid_actor : Text → Bool
unfolding is_name
is_valid_actor name = is_actor name && all is_name name

pub actor_id-valid : (v : Json) (name : Text) → actor_id v ≡ some name → is_valid_actor name ≡ true
unfolding actor_id
actor_id-valid v name h = ground arith

-- The releases of a step, and when it completed.
abbrev pub IsAfter : ℕ → Option ℕ → Type 0
IsAfter at none = Unit
IsAfter at (some later) = at ≤ later

finite_number-le : (v : Json) (least n : ℕ) → finite_number v least ≡ some n → least ≤ n
unfolding finite_number
finite_number-le (Json.number (finite (pos ticks))) least n h = ground arith
finite_number-le (Json.number (finite (negsuc ticks))) least n h = cc
finite_number-le (Json.number unusable) least n h = cc
finite_number-le null least n h = cc
finite_number-le (boolean b) least n h = cc
finite_number-le (string t) least n h = cc
finite_number-le (array vs) least n h = cc
finite_number-le (object ms) least n h = cc
finite_number-le foreign least n h = cc

-- A safe integer is not below the least that is allowed.
safe_integer-le : (v : Json) (least n : ℕ) → safe_integer v least ≡ some n → least ≤ n
unfolding safe_integer one
safe_integer-le v least n h =
    let (ticks, e, k) = bind-some (finite_number v (least * one)) _ h in
    let (whole, k1) = guard-some (is_safe_integer ticks) _ k in
    let enough = finite_number-le v (least * one) ticks e in
    let same : ticks / one ≡ n = some_injective k1 in omega arith

pub record IsStepAt (d : Dialect) (index : ℕ) (step : TraceStep) : Type 0 where
  pub at_index : step.index ≡ index
  pub actor_valid : is_valid_actor step.actor ≡ true
  pub unit_valid : IsUnitOf d step.unit
  pub backend_live : 1 ≤ step.backend_pid
  pub chosen : has (selected_choice d step.actor step.connection) step.available ≡ true
  pub distinct : is_unique text_eq step.available ≡ true
  pub completed_later : IsAfter step.released_at step.completed_at
  pub completed_whole : is_some step.completed_at ≡ is_some step.completion
  pub recovered : FitsRecovery step.stage step.completion
  pub waits_own : All (λ w. w.pid ≡ step.backend_pid) step.waits

optional-IsAfter :
    (ms : Dict Json) (key : Text) (at : ℕ) (o : Option ℕ)
    → optional ms key (λ v. finite_number v at) ≡ some o
    → IsAfter at o
optional-IsAfter ms key at o h = elim (Option-cases (lookup key ms)) [
  | inl absent ↦ let gone : o ≡ none = ground arith in subst (IsAfter at) (sym gone) tt
  | inr (v, e) ↦ elim (Option-cases (finite_number v at)) [
    | inl bad ↦ absurd (ground arith)
    | inr (n, e') ↦
        let found : o ≡ some n = ground arith in
        subst (IsAfter at) (sym found) (finite_number-le v at n e')
  ]
]

available_value-chosen :
    (d : Dialect) (v : Json) (chosen : Text) (available : List Text)
    → available_value d v chosen ≡ some available
    → (has chosen available ≡ true) × (is_unique text_eq available ≡ true)
unfolding available_value
available_value-chosen d v chosen available h = ground arith

validate_wait-pid :
    (pid : ℕ) (v : Json) (w : WaitObservation) → validate_wait pid v ≡ some w → w.pid ≡ pid
unfolding validate_wait
validate_wait-pid pid v w h = ground arith

identity_value-actor :
    (d : Dialect) (ms : Dict Json) (index : ℕ) (i : StepIdentity)
    → identity_value d ms index ≡ some i
    → is_valid_actor i.actor ≡ true
unfolding identity_value
identity_value-actor d ms index i h =
    let (f, e, k) = bind-some (field ms (codes "index")) _ h in
    let (n, e1, k1) = bind-some (safe_integer f 0) _ k in
    let (at, k2) = guard-some (n == index) _ k1 in
    let (g, e2, k3) = bind-some (field ms (codes "actor")) _ k2 in
    let (actor, e3, k4) = bind-some (actor_id g) _ k3 in
    let valid = actor_id-valid g actor e3 in ground arith

identity_value-unit :
    (d : Dialect) (ms : Dict Json) (index : ℕ) (i : StepIdentity)
    → identity_value d ms index ≡ some i
    → IsUnitOf d i.unit
unfolding identity_value
identity_value-unit d ms index i h =
    let (f, e, k) = bind-some (field ms (codes "index")) _ h in
    let (n, e1, k1) = bind-some (safe_integer f 0) _ k in
    let (at, k2) = guard-some (n == index) _ k1 in
    let (g, e2, k3) = bind-some (field ms (codes "actor")) _ k2 in
    let (actor, e3, k4) = bind-some (actor_id g) _ k3 in
    let (c, e4, k5) = bind-some (field ms (codes "connection")) _ k4 in
    let (connection, e5, k6) = bind-some (safe_integer c 0) _ k5 in
    let (unit, e6, k7) = bind-some (unit_value d ms) _ k6 in
    subst (λ x. IsUnitOf d x.unit) (some_injective k7) (unit_value-IsUnitOf d ms unit e6)

same_presence : (a b : Bool) → bool_eq a b ≡ true → a ≡ b
same_presence a b h = ground arith

progress_value-fits :
    (d : Dialect) (ms : Dict Json) (stage : Option StepStage) (p : Progress)
    → progress_value d ms stage ≡ some p
    → IsAfter p.released_at p.completed_at
      × (is_some p.completed_at ≡ is_some p.completion)
      × FitsRecovery stage p.completion
unfolding progress_value
progress_value-fits d ms stage p h =
    let (f, e, k) = bind-some (field ms (codes "releasedAt")) _ h in
    let (at, e1, k1) = bind-some (finite_number f 0) _ k in
    let (later, e2, k2) =
      bind-some (optional ms (codes "completedAt") (λ v. finite_number v at)) _ k1 in
    let (completion, e3, k3) =
      bind-some (optional ms (codes "completion") (completion_value d stage)) _ k2 in
    let (whole, k4) = guard-some (bool_eq (is_some later) (is_some completion)) _ k3 in
    subst
      (λ x.
        IsAfter x.released_at x.completed_at
        × (is_some x.completed_at ≡ is_some x.completion)
        × FitsRecovery stage x.completion)
      (some_injective k4)
      (
        optional-IsAfter ms (codes "completedAt") at later e2,
        same_presence (is_some later) (is_some completion) whole,
        optional-FitsRecovery d ms stage completion e3,
      )

waits_value-own :
    (d : Dialect) (v : Json) (pid : ℕ) (waits : List WaitObservation)
    → waits_value d v pid ≡ some waits
    → All (λ w. w.pid ≡ pid) waits
unfolding waits_value
waits_value-own d v pid waits h =
    let (values, e, k) = bind-some (array_value v max_waits_per_step) _ h in
    let each =
      traverse-All (λ w. w.pid ≡ pid) (validate_wait pid)
        (λ w. Holds-of (λ o. o.pid ≡ pid) (validate_wait pid w) (validate_wait-pid pid w)) values in
    Holds-at (All (λ w. w.pid ≡ pid)) (traverse (validate_wait pid) values) each k

pub validate_trace_step-IsStepAt :
    (d : Dialect) (index : ℕ) (v : Json) (step : TraceStep)
    → validate_trace_step d index v ≡ some step
    → IsStepAt d index step
unfolding validate_trace_step
validate_trace_step-IsStepAt d index v step h =
    let (ms, e, k) = bind-some (shape v (step_allowed d) (step_required d)) _ h in
    let (i, e1, k1) = bind-some (identity_value d ms index) _ k in
    let (f, e2, k2) = bind-some (field ms (codes "backendPid")) _ k1 in
    let (pid, e3, k3) = bind-some (safe_integer f 1) _ k2 in
    let (g, e4, k4) = bind-some (field ms (codes "available")) _ k3 in
    let (available, e5, k5) =
      bind-some (available_value d g (selected_choice d i.actor i.connection)) _ k4 in
    let (p, e6, k6) = bind-some (progress_value d ms i.stage) _ k5 in
    let (w, e7, k7) = bind-some (field ms (codes "waits")) _ k6 in
    let (waits, e8, k8) = bind-some (waits_value d w pid) _ k7 in
    let (pair, e9, k9) =
      bind-some (optional ms (codes "overlap") (λ index_. safe_integer index_ 0)) _ k8 in
    let built : TraceStep = record {
      identity = i;
      index = index;
      backend_pid = pid;
      available = available;
      released_at = p.released_at;
      completed_at = p.completed_at;
      completion = p.completion;
      waits = waits;
      overlap = pair;
    } in
    let same : built ≡ step = some_injective k9 in
    let (present, distinct) =
      available_value-chosen d g (selected_choice d i.actor i.connection) available e5 in
    let (later, whole, recovered) = progress_value-fits d ms i.stage p e6 in
    subst (IsStepAt d index) same (record {
      at_index = refl;
      actor_valid = identity_value-actor d ms index i e1;
      unit_valid = identity_value-unit d ms index i e1;
      backend_live = safe_integer-le f 1 pid e3;
      chosen = present;
      distinct = distinct;
      completed_later = later;
      completed_whole = whole;
      recovered = recovered;
      waits_own = waits_value-own d w pid waits e8;
    })
