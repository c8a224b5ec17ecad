-- ===== src/Artifacts/Trace/Numbering.antt =====
-- The steps of a trace stand at their indices, and number the commands of their connections.
use interleave.Prelude.{
  ℕ, zero, suc, ◌+◌, ◌<◌, ◌≡◌, refl, sym, ap, ◌∙◌, subst, true, Option, some, List, [], ◌∷◌, Text,
  Dict, text_eq, text_eq_refl, Nat-cases, lookup, insert, lookup-insert, length, get_elem?, take,
  ◌==◌, Bool-cases, inl, inr, arith, if◌then◌else◌, bind-some, guard-some, some_injective, ==_iff,
  eq_of_text_eq,
}
use interleave.Types.{TraceStep, or_else}
use interleave.Artifacts.Json.{Json}
use interleave.Artifacts.Fields.{array_value, max_array_items}
use interleave.Artifacts.Steps.{Dialect, validate_trace_step}
use interleave.Artifacts.Steps.Facts.{IsStepAt, validate_trace_step-IsStepAt}
use interleave.Artifacts.Stages.{step_key}
use interleave.Artifacts.Stages.Lanes.{steps_of}
use interleave.Artifacts.Trace.{are_lanes_recorded, is_recorded, trace_from, trace_value}

-- How many commands of a connection the steps before a position released.
unfoldable pub commands_before : Text → ℕ → List TraceStep → ℕ
commands_before key i trace = length (steps_of key (take i trace))

-- A step at a position, where a connection's commands before the trace are counted by `ordinals`.
pub record IsNumbered (d : Dialect) (ordinals : Dict ℕ) (base : ℕ) (trace : List TraceStep) (i : ℕ)
    (step : TraceStep) : Type 0 where
  pub accepted : IsStepAt d (base + i) step
  pub numbered :
      step.ordinal
      ≡ or_else (lookup (step_key step) ordinals) 0 + commands_before (step_key step) i trace

commands_before_zero : (key : Text) (trace : List TraceStep) → commands_before key 0 trace ≡ 0
unfolding commands_before
commands_before_zero key trace = refl

-- A step is counted from the position after its own.
counted_below :
    (i j : ℕ) (trace : List TraceStep) (step : TraceStep)
    → get_elem? trace i ≡ some step
    → i < j
    → commands_before (step_key step) i trace < commands_before (step_key step) j trace
unfolding commands_before
counted_below i zero trace step at h = absurd (omega arith)
counted_below i (suc j) [] step at h = cc
counted_below zero (suc j) (s ∷ trace) step at h =
    let own : step ≡ s = sym (some_injective at) in
    let same : text_eq (step_key s) (step_key step) ≡ true =
      ap (λ t. text_eq (step_key s) (step_key t)) own ∙ text_eq_refl (step_key s) in
    rw same (omega arith)
counted_below (suc i) (suc j) (s ∷ trace) step at h =
    let rest = counted_below i j trace step at (omega arith) in
    elim (Bool-cases (text_eq (step_key s) (step_key step))) [
      | inl same ↦ rw same (omega arith)
      | inr other ↦ rw other rest
    ]

module _ (d : Dialect) (keys : Option (List Text)) where
  -- What the loop does with one step.
  trace_from-cons :
      (ordinals : Dict ℕ) (base : ℕ) (v : Json) (vs : List Json) (trace : List TraceStep)
      → trace_from d keys ordinals base (v ∷ vs) ≡ some trace
      → (step : TraceStep) × (rest : List TraceStep) × (trace ≡ step ∷ rest)
        × (validate_trace_step d base v ≡ some step)
        × (is_recorded d keys (step_key step) ≡ true)
        × (step.ordinal ≡ or_else (lookup (step_key step) ordinals) 0)
        × (trace_from d keys
              (insert (step_key step) (suc (or_else (lookup (step_key step) ordinals) 0)) ordinals)
              (suc base)
              vs
            ≡ some rest)
  unfolding trace_from
  trace_from-cons ordinals base v vs trace h =
      let (step, e, k) = bind-some (validate_trace_step d base v) _ h in
      let (recorded, k1) = guard-some (is_recorded d keys (step_key step)) _ k in
      let (u, e1, k2) =
        bind-some (if d.lanes then are_lanes_recorded d keys step.available else some tt) _ k1 in
      let expected = or_else (lookup (step_key step) ordinals) 0 in
      let (counted, k3) = guard-some (step.ordinal == expected) _ k2 in
      let (rest, e2, k4) =
        bind-some (trace_from d keys (insert (step_key step) (suc expected) ordinals) (suc base) vs)
          _ k3 in
      (
        step,
        rest,
        sym (some_injective k4),
        e,
        recorded,
        (==_iff step.ordinal expected).0 counted,
        e2,
      )

  counted_after :
      (ordinals : Dict ℕ) (first step : TraceStep) (i : ℕ) (rest : List TraceStep)
      → or_else
            (lookup (step_key step) (
              insert
                (step_key first)
                (suc (or_else (lookup (step_key first) ordinals) 0))
                ordinals))
            0
          + commands_before (step_key step) i rest
        ≡ or_else (lookup (step_key step) ordinals) 0
          + commands_before (step_key step) (suc i) (first ∷ rest)
  unfolding commands_before
  counted_after ordinals first step i rest =
      let k = step_key first in
      let j = step_key step in
      let shown = lookup-insert k j (suc (or_else (lookup k ordinals) 0)) ordinals in
      elim (Bool-cases (text_eq k j)) [
        | inl same ↦
            let own : or_else (lookup k ordinals) 0 ≡ or_else (lookup j ordinals) 0 =
              ap (λ x. or_else (lookup x ordinals) 0) (eq_of_text_eq k j same) in
            ap (λ o. or_else o 0 + commands_before j i rest) shown ∙ rw same (ground arith)
        | inr other ↦ ap (λ o. or_else o 0 + commands_before j i rest) shown ∙ rw other refl
      ]

  nothing_at : (i : ℕ) {step : TraceStep} → get_elem? [] i ≡ some step → ⊥
  nothing_at i h = cc

  trace_from-IsNumbered :
      (vs : List Json) (ordinals : Dict ℕ) (base : ℕ) (trace : List TraceStep)
      → trace_from d keys ordinals base vs ≡ some trace
      → (i : ℕ) (step : TraceStep) → get_elem? trace i ≡ some step
      → IsNumbered d ordinals base trace i step
  unfolding trace_from
  trace_from-IsNumbered [] ordinals base trace h i step at =
      let same : [] ≡ trace = some_injective h in
      absurd (nothing_at i (subst (λ t. get_elem? t i ≡ some step) (sym same) at))
  trace_from-IsNumbered (v ∷ vs) ordinals base trace h zero step at =
      let (s, rest, same, e, recorded, counted, more) =
        trace_from-cons ordinals base v vs trace h in
      let own : s ≡ step = some_injective (subst (λ t. get_elem? t 0 ≡ some step) same at) in
      record {
        accepted =
            subst (IsStepAt d (base + 0)) own (
              subst (λ b. IsStepAt d b s) (omega arith)
                (validate_trace_step-IsStepAt d base v s e));
        numbered =
            subst (λ t. t.ordinal ≡ or_else (lookup (step_key t) ordinals) 0) own counted
            ∙ omega (arith, commands_before_zero (step_key step) trace);
      }
  trace_from-IsNumbered (v ∷ vs) ordinals base trace h (suc i) step at =
      let (s, rest, same, e, recorded, counted, more) =
        trace_from-cons ordinals base v vs trace h in
      let after =
        trace_from-IsNumbered vs _ (suc base) rest more i step
          (subst (λ t. get_elem? t (suc i) ≡ some step) same at) in
      record {
        accepted = subst (λ b. IsStepAt d b step) (omega arith) after.accepted;
        numbered =
            after.numbered
            ∙ counted_after ordinals s step i rest
            ∙ ap
                (λ t.
                  or_else (lookup (step_key step) ordinals) 0
                  + commands_before (step_key step) (suc i) t)
                (sym same);
      }

module _ (d : Dialect) (keys : Option (List Text)) (v : Json) (trace : List TraceStep)
    (h : trace_value d keys v ≡ some trace) where
  -- A step of a trace that is accepted stands at its index and is accepted there, and its ordinal
  -- counts the commands that its connection released before it.
  pub trace_value-IsNumbered :
      (i : ℕ) (step : TraceStep)
      → get_elem? trace i ≡ some step
      → IsStepAt d i step × (step.ordinal ≡ commands_before (step_key step) i trace)
  unfolding trace_value lookup
  trace_value-IsNumbered i step at =
      let (values, e, k) = bind-some (array_value v max_array_items) _ h in
      let n = trace_from-IsNumbered d keys values [] 0 trace k i step at in
      (subst (λ b. IsStepAt d b step) (omega arith) n.accepted, n.numbered ∙ omega arith)

  -- In a trace that is accepted, no two steps share their connection and their ordinal.
  pub trace_value-identified :
      (i j : ℕ) (a b : TraceStep)
      → get_elem? trace i ≡ some a
      → get_elem? trace j ≡ some b
      → step_key a ≡ step_key b
      → a.ordinal ≡ b.ordinal
      → i ≡ j
  trace_value-identified i j a b at_i at_j same_lane same_ordinal =
      let count_a = (trace_value-IsNumbered i a at_i).1 in
      let count_b = (trace_value-IsNumbered j b at_j).1 in
      let moved : commands_before (step_key a) j trace ≡ commands_before (step_key b) j trace =
        ap (λ k. commands_before k j trace) same_lane in
      let moved' : commands_before (step_key a) i trace ≡ commands_before (step_key b) i trace =
        ap (λ k. commands_before k i trace) same_lane in
      elim (Nat-cases i j) [
        | inl same ↦ same
        | inr (inl below) ↦ absurd (omega (arith, counted_below i j trace a at_i below))
        | inr (inr above) ↦ absurd (omega (arith, counted_below j i trace b at_j above))
      ]
