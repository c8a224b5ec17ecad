-- ===== src/Artifacts/Parse/Facts.antt =====
-- What a run that is parsed satisfies.
use interleave.Prelude.{
  ℕ, ℤ, ◌≡◌, refl, subst, true, ◌&&◌, ◌||◌, not, Option, some, List, [], ◌++◌, Text, Dict, codes,
  text_eq, length, any, leb, ◌==◌, ◌>>=◌, arith, if◌then◌else◌, bind-some, guard-some,
  some_injective,
}
use interleave.Types.{RunResult, Failure}
use interleave.Artifacts.Json.{Json}
use interleave.Artifacts.Fields.{
  shape, field, has_own, enum_value, finite_number, scenario_name, max_artifact_bytes,
}
use interleave.Artifacts.Steps.{Dialect}
use interleave.Artifacts.Plan.{version_value, dialect_of, plan_value, connections_value}
use interleave.Artifacts.Safety.{assert_json_safe, new_counter}
use interleave.Artifacts.Serialize.{serialized_bytes}
use interleave.Artifacts.Completions.{optional, is_unique}
use interleave.Artifacts.Trace.{trace_value, are_times_ordered, are_blockers_known}
use interleave.Artifacts.Pairs.{validate_overlap_pairs}
use interleave.Artifacts.Parse.{
  Heading, Opening, heading_value, parts_value, opening_value, run_result, Surroundings,
  cancels_value, actors_value, failure_value, surroundings_value, texts_value, parse_root,
  parse_run_value, root_allowed, root_required, recorded_keys,
}
use interleave.Artifacts.Parts.{
  Parts, outcome_names, mode_names, check_parts, max_actors, actor_names, named_actors,
  distinct_names, is_version_needed, check_sequence, is_complete, fits_statuses, is_rejected,
  requires_complete_actors,
}

parts_value-trace :
    (root : Dict Json) (version : ℕ) (p : Parts)
    → parts_value root version ≡ some p
    → (keys : Option (List Text)) × (v : Json) × (trace_value p.dialect keys v ≡ some p.trace)
unfolding parts_value
parts_value-trace root version p h =
    let (o, e0, k0) = bind-some (opening_value root version) _ h in
    let (recorded, e1, k1) = bind-some (field root (codes "trace")) _ k0 in
    let (trace, e2, k2) =
      bind-some (trace_value o.dialect (recorded_keys o.connections) recorded) _ k1 in
    let (cancels, e3, k3) = bind-some (cancels_value root version o trace) _ k2 in
    let (results, e4, k4) = bind-some (field root (codes "actors")) _ k3 in
    let (actors, e5, k5) = bind-some (actors_value results) _ k4 in
    (
      recorded_keys o.connections,
      recorded,
      subst (λ q. trace_value q.dialect (recorded_keys o.connections) recorded ≡ some q.trace)
          (some_injective k5) e2,
    )

opening_value-declared :
    (root : Dict Json) (version : ℕ) (o : Opening)
    → opening_value root version ≡ some o
    → (f : Json) × (field root (codes "limits") ≡ some f) × (dialect_of version f ≡ some o.dialect)
unfolding opening_value
opening_value-declared root version o h =
    let (f, e, k) = bind-some (field root (codes "limits")) _ h in
    let (d, e1, k1) = bind-some (dialect_of version f) _ k in
    let (g, e2, k2) = bind-some (field root (codes "outcome")) _ k1 in
    let (outcome, e3, k3) = bind-some (enum_value g outcome_names) _ k2 in
    let (t, e4, k4) = bind-some (field root (codes "durationMs")) _ k3 in
    let (duration, e5, k5) = bind-some (finite_number t 0) _ k4 in
    let (l, e6, k6) = bind-some (field root (codes "plan")) _ k5 in
    let (plan, e7, k7) = bind-some (plan_value d l) _ k6 in
    let (there_, k8) = guard-some (version == 1 || has_own root (codes "connections")) _ k7 in
    let (connections, e8, k9) =
      bind-some (optional root (codes "connections") connections_value) _ k8 in
    (f, e, subst (λ q. dialect_of version f ≡ some q.dialect) (some_injective k9) e1)

parts_value-declared :
    (root : Dict Json) (version : ℕ) (p : Parts)
    → parts_value root version ≡ some p
    → (f : Json) × (field root (codes "limits") ≡ some f) × (dialect_of version f ≡ some p.dialect)
unfolding parts_value
parts_value-declared root version p h =
    let (o, e0, k0) = bind-some (opening_value root version) _ h in
    let (recorded, e1, k1) = bind-some (field root (codes "trace")) _ k0 in
    let (trace, e2, k2) =
      bind-some (trace_value o.dialect (recorded_keys o.connections) recorded) _ k1 in
    let (cancels, e3, k3) = bind-some (cancels_value root version o trace) _ k2 in
    let (results, e4, k4) = bind-some (field root (codes "actors")) _ k3 in
    let (actors, e5, k5) = bind-some (actors_value results) _ k4 in
    let (f, e, declared) = opening_value-declared root version o e0 in
    (f, e, subst (λ q. dialect_of version f ≡ some q.dialect) (some_injective k5) declared)

-- What the version and the limits that a record has say of its steps.
abbrev pub declared_dialect : Json → Option Dialect
declared_dialect value = do
  root ← shape value root_allowed root_required
  version ← version_value (← field root (codes "schemaVersion"))
  dialect_of version (← field root (codes "limits"))

heading_value-version :
    (root : Dict Json) (heading : Heading)
    → heading_value root ≡ some heading
    → (f : Json) × (field root (codes "schemaVersion") ≡ some f)
      × (version_value f ≡ some heading.version)
unfolding heading_value
heading_value-version root heading h =
    let (f, e, k) = bind-some (field root (codes "schemaVersion")) _ h in
    let (version, e1, k1) = bind-some (version_value f) _ k in
    let (g, e2, k2) = bind-some (field root (codes "scenario")) _ k1 in
    let (scenario, e3, k3) = bind-some (scenario_name g) _ k2 in
    let (m, e4, k4) = bind-some (field root (codes "mode")) _ k3 in
    let (mode, e5, k5) = bind-some (enum_value m mode_names) _ k4 in
    (f, e, subst (λ q. version_value f ≡ some q.version) (some_injective k5) e1)

declared_dialect-lem :
    (value : Json) (root : Dict Json) (heading : Heading) (parts : Parts)
    → shape value root_allowed root_required ≡ some root
    → heading_value root ≡ some heading
    → parts_value root heading.version ≡ some parts
    → declared_dialect value ≡ some parts.dialect
declared_dialect-lem value root heading parts e1 e2 e3 =
    let (f, at_version, is_version) = heading_value-version root heading e2 in
    let (g, at_limits, is_dialect) = parts_value-declared root heading.version parts e3 in
    rw (e1, at_version, is_version, at_limits) is_dialect

-- The parts of a run that is parsed, and what was checked of them.
pub record IsParsed (value : Json) (run : RunResult) : Type 0 where
  pub parts : Parts
  pub is_declared : declared_dialect value ≡ some parts.dialect
  pub keys : Option (List Text)
  pub recorded : Json
  pub checked : check_parts parts ≡ some tt
  pub traced : trace_value parts.dialect keys recorded ≡ some parts.trace
  pub same_trace : run.trace ≡ parts.trace
  pub same_duration : run.duration_ms ≡ parts.duration_ms
  pub same_outcome : run.outcome ≡ parts.outcome
  pub same_actors : run.actors ≡ parts.actors

run_result-IsParsed :
    (value : Json) (root : Dict Json) (heading : Heading) (parts : Parts) (failure : Option Failure)
    (around : Surroundings) (plan : List Text) (keys : Option (List Text)) (v : Json)
    → declared_dialect value ≡ some parts.dialect
    → check_parts parts ≡ some tt
    → trace_value parts.dialect keys v ≡ some parts.trace
    → IsParsed value (run_result root heading parts failure around plan)
unfolding run_result
run_result-IsParsed value root heading parts failure around plan keys v declared checked traced =
    record {
      parts = parts;
      is_declared = declared;
      keys = keys;
      recorded = v;
      checked = checked;
      traced = traced;
      same_trace = refl;
      same_duration = refl;
      same_outcome = refl;
      same_actors = refl;
    }

module _ (number_length : ℤ → ℕ) (value : Json) (run : RunResult) where
  pub parse_run_value-IsParsed : parse_run_value number_length value ≡ some run → IsParsed value run
  unfolding parse_run_value parse_root
  parse_run_value-IsParsed h =
      let (counter, e0, k0) =
        bind-some (assert_json_safe max_artifact_bytes value 0 new_counter) _ h in
      let (root, e1, k1) = bind-some (shape value root_allowed root_required) _ k0 in
      let (heading, e2, k2) = bind-some (heading_value root) _ k1 in
      let (parts, e3, k3) = bind-some (parts_value root heading.version) _ k2 in
      let (checked, e4, k4) = bind-some (check_parts parts) _ k3 in
      let (failure, e5, k5) = bind-some (failure_value root parts.outcome) _ k4 in
      let (around, e6, k6) = bind-some (surroundings_value root heading.version) _ k5 in
      let (small, k7) =
        guard-some (leb (serialized_bytes number_length value) max_artifact_bytes) _ k6 in
      let (f8, e8, k8) = bind-some (field root (codes "plan")) _ k7 in
      let (plan, e9, k9) = bind-some (texts_value f8) _ k8 in
      let (keys, v, traced) = parts_value-trace root heading.version parts e3 in
      let same = some_injective k9 in
      let declared = declared_dialect-lem value root heading parts e1 e2 e3 in
      subst (IsParsed value) same
        (run_result-IsParsed value root heading parts failure around plan keys v declared e4 traced)

-- The checks between the parts, each by itself.
pub record AreConsistent (p : Parts) : Type 0 where
  pub paired :
      (if p.dialect.overlap then validate_overlap_pairs p.dialect.lanes p.trace else some tt)
      ≡ some tt
  pub ordered : are_times_ordered p.duration_ms 0 p.trace ≡ true
  pub explained : are_blockers_known p.dialect.lanes p.trace ≡ true
  pub few : (leb (length p.actors) max_actors && is_unique text_eq (actor_names p)) ≡ true
  pub sequenced : check_sequence p ≡ some tt
  pub complete : (not (requires_complete_actors p.outcome) || is_complete p) ≡ true
  pub fitting : fits_statuses p.outcome (any (λ a. is_rejected a.status) p.actors) ≡ true

pub check_parts-AreConsistent : (p : Parts) → check_parts p ≡ some tt → AreConsistent p
unfolding check_parts
check_parts-AreConsistent p h =
    let (u, paired, k0) =
      bind-some
        (if p.dialect.overlap then validate_overlap_pairs p.dialect.lanes p.trace else some tt) _
        h in
    let (needed, k1) = guard-some (is_version_needed p) _ k0 in
    let (ordered, k2) = guard-some (are_times_ordered p.duration_ms 0 p.trace) _ k1 in
    let (explained, k3) = guard-some (are_blockers_known p.dialect.lanes p.trace) _ k2 in
    let (few, k4) =
      guard-some (leb (length p.actors) max_actors && is_unique text_eq (actor_names p)) _ k3 in
    let (named, k5) =
      guard-some (leb (length (distinct_names p [] (named_actors p ++ actor_names p))) max_actors) _
        k4 in
    let (u', sequenced, k6) = bind-some (check_sequence p) _ k5 in
    let (complete, k7) =
      guard-some (not (requires_complete_actors p.outcome) || is_complete p) _ k6 in
    record {
      paired = paired;
      ordered = ordered;
      explained = explained;
      few = few;
      sequenced = sequenced;
      complete = complete;
      fitting = ground arith;
    }
