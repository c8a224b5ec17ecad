-- ===== src/Artifacts/Cancels/Hits.antt =====
-- Cancel requests against the trace: the step that a request names, and the steps of one that names
-- none.
use interleave.Prelude.{
  ℕ, ◌≤◌, ◌<◌, ◌≡◌, ◌≢◌, ◌⊎◌, ◌↔◌, refl, sym, subst, true, false, ◌&&◌, not, Option, none, some,
  List, [], ◌∷◌, Text, In, In-cons, All, any, get_elem?, length, text_eq, Bool-cases, leb, ◌==◌,
  Option-cases, inl, inr, arith, bind-some, guard-some, some_injective, text_eq_iff,
}
use interleave.Types.{TraceStep, CancelRecord, is_some, option_eq}
use interleave.Artifacts.Json.{Json}
use interleave.Artifacts.Fields.{array_value, max_array_items}
use interleave.Artifacts.Completions.{bool_eq}
use interleave.Artifacts.Cancels.{
  cancel_record, cancel_value, cancels_from, validate_cancels, is_hit, is_missed, is_step_right,
  is_pid, completed_before, completed_after,
}

-- The request's connection and backend ran the step, from its release to no earlier than its arrival.
pub record IsHit (cancel : CancelRecord) (step : TraceStep) : Type 0 where
  pub same_actor : step.actor ≡ cancel.actor
  pub same_connection : cancel.connection ≡ some step.connection
  pub same_backend : is_pid cancel.backend_pid step.backend_pid ≡ true
  pub released : step.released_at ≤ cancel.at
  pub not_completed : completed_before step.completed_at cancel.at ≡ false

-- A step that had ended when the request arrived.
abbrev pub EndedBy : ℕ → Option ℕ → Type 0
EndedBy at none = Unit
EndedBy at (some completed) = completed ≤ at

-- The request is of another connection, or arrived before the step's release, or the step had ended
-- by then or never did.
abbrev pub IsUnhit : CancelRecord → TraceStep → Type 0
IsUnhit cancel step =
    (step.actor ≢ cancel.actor)
    ⊎ (cancel.connection ≢ some step.connection)
    ⊎ (cancel.at < step.released_at)
    ⊎ EndedBy cancel.at step.completed_at

-- What a trace says of a request that names a step, and of one that names none.
abbrev pub AgreesWith : List TraceStep → CancelRecord → Option ℕ → Type 0
AgreesWith trace cancel none = (cancel.forwarded ≡ false) ⊎ All (IsUnhit cancel) trace
AgreesWith trace cancel (some index) =
    (cancel.forwarded ≡ true)
    × (step : TraceStep) × (get_elem? trace index ≡ some step)
    × IsHit cancel step

connection-eq_iff : (o : Option ℕ) (n : ℕ) → option_eq ◌==◌ o (some n) ≡ true ↔ (o ≡ some n)
connection-eq_iff o n = ground arith

EndedBy-lem : (o : Option ℕ) (at : ℕ) → completed_after o at ≡ false → EndedBy at o
EndedBy-lem none at h = tt
EndedBy-lem (some completed) at h = ground arith

unhit : (c : CancelRecord) (step : TraceStep) → is_missed c step ≡ false → IsUnhit c step
unhit c step h = elim (Bool-cases (text_eq step.actor c.actor)) [
  | inr other ↦ inl (λ e. absurd (ground (arith, text_eq_iff step.actor c.actor)))
  | inl same ↦ elim (Bool-cases (option_eq ◌==◌ c.connection (some step.connection))) [
    | inr other ↦
        inr (inl (λ e. absurd (ground (arith, connection-eq_iff c.connection step.connection))))
    | inl there_ ↦ elim (Bool-cases (leb step.released_at c.at)) [
      | inr early ↦ inr (inr (inl (ground arith)))
      | inl released ↦ inr (inr (inr (EndedBy-lem step.completed_at c.at (ground arith))))
    ]
  ]
]

IsUnhit-All :
    (c : CancelRecord) (trace : List TraceStep)
    → any (is_missed c) trace ≡ false
    → All (IsUnhit c) trace
IsUnhit-All c [] h = tt
IsUnhit-All c (step ∷ trace) h = elim (Bool-cases (is_missed c step)) [
  | inl missed ↦ (let clash : true ≡ false = rw missed at h in absurd cc)
  | inr fine ↦ (unhit c step fine, IsUnhit-All c trace (rw fine at h))
]

module _ (trace : List TraceStep) (keys : List Text) (duration : ℕ) where
  arrives :
      (before at : ℕ) → (leb at duration && leb before at) ≡ true → (at ≤ duration) × (before ≤ at)
  arrives before at h = ground arith

  cancel_value-right :
      (before : ℕ) (v : Json) (c : CancelRecord)
      → cancel_value trace keys duration before v ≡ some c
      → (c.at ≤ duration) × (before ≤ c.at) × (is_step_right trace keys duration c ≡ true)
  unfolding cancel_value
  cancel_value-right before v c h =
      let (r, e, k) = bind-some (cancel_record v) _ h in
      let (timely, k1) = guard-some (leb r.at duration && leb before r.at) _ k in
      let (whole, k2) = guard-some (bool_eq r.forwarded (is_some r.connection)) _ k1 in
      let (backed, k3) = guard-some _ _ k2 in
      let (right, k4) = guard-some (is_step_right trace keys duration r) _ k3 in
      subst
        (λ x. (x.at ≤ duration) × (before ≤ x.at) × (is_step_right trace keys duration x ≡ true))
        (some_injective k4) ((arrives before r.at timely).0, (arrives before r.at timely).1, right)

  cancels_from-right :
      (before : ℕ) (vs : List Json) (cancels : List CancelRecord)
      → cancels_from trace keys duration before vs ≡ some cancels
      → (c : CancelRecord) → In c cancels
      → (c.at ≤ duration) × (before ≤ c.at) × (is_step_right trace keys duration c ≡ true)
  unfolding cancels_from
  cancels_from-right before [] cancels h c m =
      let gone : [] ≡ cancels = some_injective h in elim (subst (In c) (sym gone) m) [ ]
  cancels_from-right before (v ∷ vs) cancels h c m =
      let (first, e, k) = bind-some (cancel_value trace keys duration before v) _ h in
      let (rest, e1, k1) = bind-some (cancels_from trace keys duration first.at vs) _ k in
      let own = cancel_value-right before v first e in
      elim (In-cons (subst (In c) (sym (some_injective k1)) m)) [
        | inl same ↦
            subst
              (λ x.
                (x.at ≤ duration) × (before ≤ x.at) × (is_step_right trace keys duration x ≡ true))
              (sym same) own
        | inr later ↦
            let there_ = cancels_from-right first.at vs rest e1 c later in
            (there_.0, omega arith, there_.2)
      ]

  is_step_right-AgreesWith :
      (c : CancelRecord) (named : Option ℕ)
      → c.step ≡ named
      → is_step_right trace keys duration c ≡ true
      → AgreesWith trace c named
  unfolding is_step_right
  is_step_right-AgreesWith c none e h = elim (Bool-cases c.forwarded) [
    | inr kept ↦ inl kept
    | inl passed ↦ inr (IsUnhit-All c trace (ground arith))
  ]
  is_step_right-AgreesWith c (some k) e h = elim (Option-cases (get_elem? trace k)) [
    | inl absent ↦ absurd (ground arith)
    | inr (step, at) ↦ (ground arith, step, at, hit step at)
  ]
    where
      hit : (step : TraceStep) → get_elem? trace k ≡ some step → IsHit c step
      hit step at =
          let is_it : is_hit c step ≡ true = ground arith in
          let same_text = text_eq_iff step.actor c.actor in
          record {
            same_actor = ground arith;
            same_connection = ground arith;
            same_backend = ground arith;
            released = ground arith;
            not_completed = ground arith;
          }

  -- Every request of an accepted list arrived within the run and agrees with the trace. One that
  -- names a step was forwarded, and the trace has that step, which was running on the request's
  -- connection and backend when it arrived. One that names no step was not forwarded, or each step
  -- of the trace is of another connection, was released later, had ended or never did.
  pub validate_cancels-AgreesWith :
      (v : Json) (cancels : List CancelRecord) (c : CancelRecord)
      → validate_cancels trace keys duration v ≡ some cancels
      → In c cancels
      → (c.at ≤ duration) × AgreesWith trace c c.step
  unfolding validate_cancels
  validate_cancels-AgreesWith v cancels c h m =
      let (values, e0, k0) = bind-some (array_value v max_array_items) _ h in
      let (some_, k1) = guard-some (not (length values == 0)) _ k0 in
      let (within_, after, right) = cancels_from-right 0 values cancels k1 c m in
      (within_, is_step_right-AgreesWith c c.step refl right)
