-- ===== src/Lanes/Plans/Traces.antt =====
-- The plan of a recorded trace names every step, in order.
use interleave.Prelude.{
  ℕ, ◌+◌, ◌≡◌, ◌⊎◌, ◌↔◌, refl, sym, ap, ◌∙◌, true, false, none, some, List, [], ◌∷◌, ◌++◌, map,
  Text, text_eq, has, add, has-add, Dict, lookup, insert, lookup-insert, text_eq_iff, all, concat,
  All, All-append, decimal, decimal-digits, is_digit, arith, ◌==◌, if◌then◌else◌, Bool-cases,
  Option-cases, inl, inr,
}
use interleave.Types.{StepIdentity, TraceStep, RunResult, option_eq}
use interleave.Lanes.Labels.{plus_sign, hash_sign, split_on, lane_label}
use interleave.Lanes.Plans.{
  Decision, step_name, decisions_from, qualified, plan_from_trace, multi_from, multi_lane_actors,
}

-- No `+` in the text.
abbrev pub IsPlain : Text → Type 0
IsPlain t = All (λ c. (c == plus_sign) ≡ false) t

digits-IsPlain : (ds : Text) → all is_digit ds ≡ true → IsPlain ds
digits-IsPlain [] h = tt
digits-IsPlain (d ∷ ds) h = (ground arith, digits-IsPlain ds (ground arith))

lane_label-IsPlain : (actor : Text) (n : ℕ) → IsPlain actor → IsPlain (lane_label actor n)
unfolding lane_label
lane_label-IsPlain actor n h =
    All-append _ actor (hash_sign ∷ decimal n) h
      (refl, digits-IsPlain (decimal n) (decimal-digits n))

step_name-IsPlain :
    (multi : List Text) (step : TraceStep) → IsPlain step.actor → IsPlain (step_name multi step)
unfolding step_name
step_name-IsPlain multi step h = elim (Bool-cases (has step.actor multi)) [
  | inl m ↦ rw m (lane_label-IsPlain step.actor step.connection h)
  | inr s ↦ rw s h
]

split_on-plain : (t : Text) → IsPlain t → split_on plus_sign t ≡ t ∷ []
unfolding split_on
split_on-plain [] h = refl
split_on-plain (c ∷ t) h = rw (h.0, split_on-plain t h.1) refl

split_on-pair :
    (s t : Text) → IsPlain s → IsPlain t → split_on plus_sign (s ++ plus_sign ∷ t) ≡ s ∷ t ∷ []
unfolding split_on
split_on-pair [] t h k = rw (split_on-plain t k) refl
split_on-pair (c ∷ s) t h k = rw (h.0, split_on-pair s t h.1 k) refl

abbrev choices : List Decision → List Text
choices ds = map (λ (d : Decision). d.choice) ds

abbrev pub PlainActors : List TraceStep → Type 0
PlainActors trace = All (λ (step : TraceStep). IsPlain step.actor) trace

module _ (multi : List Text) (index : ℕ) (step next : TraceStep) (trace : List TraceStep) where
  decisions_from-pair :
      option_eq ◌==◌ step.overlap (some index) ≡ true
      → choices (decisions_from multi index (step ∷ next ∷ trace))
        ≡ (step_name multi step ++ plus_sign ∷ step_name multi next)
          ∷ choices (decisions_from multi (index + 2) trace)
  unfolding decisions_from
  decisions_from-pair h = ground arith

  decisions_from-single :
      option_eq ◌==◌ step.overlap (some index) ≡ false
      → choices (decisions_from multi index (step ∷ next ∷ trace))
        ≡ step_name multi step ∷ choices (decisions_from multi (index + 1) (next ∷ trace))
  unfolding decisions_from
  decisions_from-single h = ground arith

decisions_from-names :
    (multi : List Text) (index : ℕ) (trace : List TraceStep)
    → PlainActors trace
    → concat (map (split_on plus_sign) (choices (decisions_from multi index trace)))
      ≡ map (step_name multi) trace
decisions_from-names multi index [] h = unfold decisions_from in refl
decisions_from-names multi index (step ∷ []) h =
    unfold decisions_from in
    rw (split_on-plain (step_name multi step) (step_name-IsPlain multi step h.0)) refl
decisions_from-names multi index (step ∷ next ∷ trace) (p, (q, h)) =
    let first = step_name-IsPlain multi step p in
    let second = step_name-IsPlain multi next q in
    elim (Bool-cases (option_eq ◌==◌ step.overlap (some index))) [
      | inl pair ↦ rw (decisions_from-pair multi index step next trace pair) (
          ap
            (λ l.
              l
              ++ concat
                  (map (split_on plus_sign) (choices (decisions_from multi (index + 2) trace))))
            (split_on-pair (step_name multi step) (step_name multi next) first second)
          ∙ ap (λ l. step_name multi step ∷ step_name multi next ∷ l)
              (decisions_from-names multi (index + 2) trace h))
      | inr single ↦ rw (decisions_from-single multi index step next trace single) (
          ap
            (λ l.
              l
              ++ concat (
                  map (split_on plus_sign)
                    (choices (decisions_from multi (index + 1) (next ∷ trace)))))
            (split_on-plain (step_name multi step) first)
          ∙ ap (λ l. step_name multi step ∷ l)
              (decisions_from-names multi (index + 1) (next ∷ trace) (q, h)))
    ]

-- Split at `+`, the choices of a recorded run name every step of its trace once, in order, where no
-- actor's id holds a `+`.
pub plan_from_trace-names :
    (run : RunResult)
    → PlainActors run.trace
    → concat (map (split_on plus_sign) (plan_from_trace run))
      ≡ map (step_name (qualified run)) run.trace
unfolding plan_from_trace
plan_from_trace-names run h = decisions_from-names (qualified run) 0 run.trace h

-- Of the actor's steps, all are on one connection.
abbrev pub OnLane : Text → ℕ → StepIdentity → Type 0
OnLane a f step = (text_eq step.actor a ≡ false) ⊎ (step.connection ≡ f)

module _ (seen : Dict ℕ) (multi : List Text) (step : StepIdentity) (trace : List StepIdentity) where
  multi_from-new :
      lookup step.actor seen ≡ none
      → multi_from seen multi (step ∷ trace)
        ≡ multi_from (insert step.actor step.connection seen) multi trace
  unfolding multi_from
  multi_from-new e = ground arith

  abbrev marked : ℕ → List Text
  marked f = if f == step.connection then multi else add step.actor multi

  multi_from-old :
      (f : ℕ)
      → lookup step.actor seen ≡ some f
      → multi_from seen multi (step ∷ trace) ≡ multi_from seen (marked f) trace
  unfolding multi_from
  multi_from-old f e = ground arith

multi_from-keeps :
    (a : Text) (seen : Dict ℕ) (multi : List Text) (trace : List StepIdentity)
    → has a multi ≡ true
    → has a (multi_from seen multi trace) ≡ true
multi_from-keeps a seen multi [] h = unfold multi_from in h
multi_from-keeps a seen multi (step ∷ trace) h = elim (Option-cases (lookup step.actor seen)) [
  | inl new ↦
      rw (multi_from-new seen multi step trace new)
        (multi_from-keeps a (insert step.actor step.connection seen) multi trace h)
  | inr (f, old) ↦ rw (multi_from-old seen multi step trace f old) (
      multi_from-keeps a seen (marked seen multi step trace f) trace
        (ground (arith, has-add step.actor a multi)))
]

multi_from-seen :
    (a : Text) (f : ℕ) (seen : Dict ℕ) (multi : List Text) (trace : List StepIdentity)
    → lookup a seen ≡ some f
    → has a (multi_from seen multi trace) ≡ false
    → All (OnLane a f) trace
multi_from-seen a f seen multi [] s h = tt
multi_from-seen a f seen multi (step ∷ trace) s h = elim (Option-cases (lookup step.actor seen)) [
  | inl new ↦
      let other : text_eq step.actor a ≡ false = elim (Bool-cases (text_eq step.actor a)) [
        | inl same ↦
            let taken : lookup step.actor seen ≡ some f =
              ap (λ t. lookup t seen) ((text_eq_iff _ _).0 same) ∙ s in
            absurd (ground arith)
        | inr differs ↦ differs
      ] in
      (
        inl other,
        multi_from-seen a f (insert step.actor step.connection seen) multi trace
            (lookup-insert step.actor a step.connection seen ∙ rw other s)
            (rw (multi_from-new seen multi step trace new) at h),
      )
  | inr (g, old) ↦
      let multi' = marked seen multi step trace g in
      let h' : has a (multi_from seen multi' trace) ≡ false =
        rw (multi_from-old seen multi step trace g old) at h in
      let here' : OnLane a f step = elim (Bool-cases (text_eq step.actor a)) [
        | inr other ↦ inl other
        | inl same ↦ elim (Bool-cases (g == step.connection)) [
          | inl stay ↦
              let e : some g ≡ some f =
                sym old ∙ ap (λ t. lookup t seen) ((text_eq_iff step.actor a).0 same) ∙ s in
              inr (ground arith)
          | inr move ↦
              let now : has a multi' ≡ true = rw move (
                has-add step.actor a multi
                ∙ ground (arith, text_eq_iff step.actor a, text_eq_iff a step.actor)) in
              absurd (ground (arith, multi_from-keeps a seen multi' trace now))
        ]
      ] in
      (here', multi_from-seen a f seen multi' trace s h')
]

multi_from-missed :
    (a : Text) (seen : Dict ℕ) (multi : List Text) (trace : List StepIdentity)
    → lookup a seen ≡ none
    → has a (multi_from seen multi trace) ≡ false
    → (f : ℕ) × All (OnLane a f) trace
multi_from-missed a seen multi [] s h = (0, tt)
multi_from-missed a seen multi (step ∷ trace) s h = elim (Bool-cases (text_eq step.actor a)) [
  | inl same ↦
      let new : lookup step.actor seen ≡ none =
        ap (λ t. lookup t seen) ((text_eq_iff _ _).0 same) ∙ s in
      (
        step.connection,
        (
          inr refl,
          multi_from-seen a step.connection (insert step.actor step.connection seen) multi trace
              (lookup-insert step.actor a step.connection seen ∙ rw same refl)
              (rw (multi_from-new seen multi step trace new) at h),
        ),
      )
  | inr other ↦ elim (Option-cases (lookup step.actor seen)) [
    | inl new ↦
        let (f, rest) =
          multi_from-missed a (insert step.actor step.connection seen) multi trace
            (lookup-insert step.actor a step.connection seen ∙ rw other s)
            (rw (multi_from-new seen multi step trace new) at h) in
        (f, (inl other, rest))
    | inr (g, old) ↦
        let (f, rest) =
          multi_from-missed a seen (marked seen multi step trace g) trace s
            (rw (multi_from-old seen multi step trace g old) at h) in
        (f, (inl other, rest))
  ]
]

-- The actor's first connection, if the loop has seen one, is `f`.
abbrev AgreesOn : Text → ℕ → Dict ℕ → Type 0
AgreesOn a f seen = (lookup a seen ≡ none) ⊎ (lookup a seen ≡ some f)

multi_from-one_lane :
    (a : Text) (f : ℕ) (seen : Dict ℕ) (multi : List Text) (trace : List StepIdentity)
    → AgreesOn a f seen
    → All (OnLane a f) trace
    → has a multi ≡ false
    → has a (multi_from seen multi trace) ≡ false
multi_from-one_lane a f seen multi [] s all' h = unfold multi_from in h
multi_from-one_lane a f seen multi (step ∷ trace) s all' h =
    elim (Option-cases (lookup step.actor seen)) [
      | inl new ↦
          let after : AgreesOn a f (insert step.actor step.connection seen) =
            elim (Bool-cases (text_eq step.actor a)) [
              | inl same ↦
                  inr (lookup-insert step.actor a step.connection seen ∙ rw same (ground arith))
              | inr other ↦ elim s [
                | inl n ↦ inl (lookup-insert step.actor a step.connection seen ∙ rw other n)
                | inr n ↦ inr (lookup-insert step.actor a step.connection seen ∙ rw other n)
              ]
            ] in
          rw (multi_from-new seen multi step trace new) (
            multi_from-one_lane a f (insert step.actor step.connection seen) multi trace after
              all'.1 h)
      | inr (g, old) ↦
          let still : has a (marked seen multi step trace g) ≡ false =
            elim (Bool-cases (text_eq step.actor a)) [
              | inl same ↦
                  let here' : lookup a seen ≡ some g =
                    ap (λ t. lookup t seen) (sym ((text_eq_iff _ _).0 same)) ∙ old in
                  ground arith
              | inr other ↦ ground (
                arith,
                has-add step.actor a multi,
                text_eq_iff step.actor a,
                text_eq_iff a step.actor,
              )
            ] in
          rw (multi_from-old seen multi step trace g old)
            (multi_from-one_lane a f seen (marked seen multi step trace g) trace s all'.1 still)
    ]

-- An actor is lane-qualified exactly when no single connection carries all its steps.
pub multi_lane_actors_iff :
    (a : Text) (trace : List StepIdentity)
    → (has a (multi_lane_actors trace) ≡ false) ↔ ((f : ℕ) × All (OnLane a f) trace)
unfolding multi_lane_actors lookup
multi_lane_actors_iff a trace = (
  multi_from-missed a [] [] trace refl,
  λ e. multi_from-one_lane a e.0 [] [] trace (inl refl) e.1 refl,
)
