-- ===== src/Lanes/Plans/Validation.antt =====
-- The validation of a plan accepts exactly the plans that the rules allow.
use interleave.Prelude.{
  ◌≤◌, ◌≡◌, ◌≢◌, ◌⊎◌, ◌↔◌, refl, subst, true, false, Option, none, some, List, [], ◌∷◌, Text,
  text_eq_iff, All, length, arith, Option-cases, inl, inr,
}
use interleave.Types.{Value, ConnectionProfile, multi_producer, OverlapMode, is_some}
use interleave.Lanes.Labels.{PlanEntry, parse_plan_choice}
use interleave.Lanes.Plans.{
  entries, knows, check_entry, check_entries, same_lane, check_pair, check_choice, check_choices,
  validate_plan_entries,
}

module _ (profile : ConnectionProfile) (actors : Option (List Text))
    (overlap : Option OverlapMode) where
  -- Only multi-producer plans name connections; every actor is a known one.
  abbrev pub IsAllowed : PlanEntry → Type 0
  IsAllowed entry =
      ((entry.connection ≡ none) ⊎ (profile ≡ multi_producer)) × (knows actors entry.actor ≡ true)

  -- Two actors, or two lanes of one actor of a multi-producer run.
  abbrev pub AreDistinct : PlanEntry → PlanEntry → Type 0
  AreDistinct first second =
      (first.actor ≢ second.actor)
      ⊎ ((profile ≡ multi_producer)
          × ((first.connection ≡ none) ⊎ (first.connection ≢ second.connection)))

  abbrev pub IsAllowedPair : List PlanEntry → Type 0
  IsAllowedPair (first ∷ second ∷ []) = (is_some overlap ≡ true) × AreDistinct first second
  IsAllowedPair _ = Unit

  abbrev pub IsChoice : Value → Type 0
  IsChoice value =
      (choice : List PlanEntry) × (parse_plan_choice value ≡ some choice)
      × All IsAllowed choice
      × IsAllowedPair choice

  check_entry_iff :
      (entry : PlanEntry) → (check_entry profile actors overlap entry ≡ none) ↔ IsAllowed entry
  unfolding check_entry
  check_entry_iff entry = (λ h. (ground arith, ground arith), λ h. ground arith)

  check_entries_iff :
      (choice : List PlanEntry)
      → (check_entries profile actors overlap choice ≡ none) ↔ All IsAllowed choice
  unfolding check_entries
  check_entries_iff [] = (λ h. tt, λ h. refl)
  check_entries_iff (entry ∷ more) =
      let (to, from) = check_entry_iff entry in
      let (to', from') = check_entries_iff more in
      (λ h. (to (ground arith), to' (ground arith)), λ h. ground (arith, from h.0, from' h.1))

  same_lane_iff :
      (first second : PlanEntry)
      → (same_lane profile actors overlap first second ≡ false) ↔ AreDistinct first second
  unfolding same_lane
  same_lane_iff first second = (
    λ h. ground (arith, text_eq_iff first.actor second.actor),
    λ h. ground (arith, text_eq_iff first.actor second.actor),
  )

  check_pair_iff :
      (choice : List PlanEntry)
      → (check_pair profile actors overlap choice ≡ none) ↔ IsAllowedPair choice
  unfolding check_pair
  check_pair_iff [] = (λ h. tt, λ h. refl)
  check_pair_iff (first ∷ []) = (λ h. tt, λ h. refl)
  check_pair_iff (first ∷ second ∷ third ∷ more) = (λ h. tt, λ h. refl)
  check_pair_iff (first ∷ second ∷ []) =
      let (to, from) = same_lane_iff first second in
      (λ h. (ground arith, to (ground arith)), λ h. ground (arith, from h.1))

  check_choice_iff :
      (value : Value) → (check_choice profile actors overlap value ≡ none) ↔ IsChoice value
  unfolding check_choice
  check_choice_iff value = elim (Option-cases (parse_plan_choice value)) [
    | inl bad ↦ (λ h. absurd (ground arith), λ h. absurd (ground (arith, h.1)))
    | inr (choice, parsed) ↦
        let (to, from) = check_entries_iff choice in
        let (to', from') = check_pair_iff choice in
        (
          λ h. (choice, parsed, to (ground arith), to' (ground arith)),
          λ h.
              let e : h.0 ≡ choice = ground (arith, h.1) in
              ground (
                arith,
                from (subst (λ c. All IsAllowed c) e h.2),
                from' (subst (λ c. IsAllowedPair c) e h.3),
              ),
        )
  ]

  check_choices_iff :
      (plan : List Value) → (check_choices profile actors overlap plan ≡ none) ↔ All IsChoice plan
  unfolding check_choices
  check_choices_iff [] = (λ h. tt, λ h. refl)
  check_choices_iff (value ∷ more) =
      let (to, from) = check_choice_iff value in
      let (to', from') = check_choices_iff more in
      (λ h. (to (ground arith), to' (ground arith)), λ h. ground (arith, from h.0, from' h.1))

  -- A plan is accepted exactly when it has at most 100000 choices and each parses, names known
  -- actors, qualifies connections only in a multi-producer run, and pairs only different lanes, with
  -- overlap on.
  pub validate_plan_entries_iff :
      (plan : List Value)
      → (validate_plan_entries profile actors overlap (entries plan) ≡ none)
        ↔ ((length plan ≤ 100000) × All IsChoice plan)
  unfolding validate_plan_entries
  validate_plan_entries_iff plan =
      let (to, from) = check_choices_iff plan in
      (λ h. (ground arith, to (ground arith)), λ h. ground (arith, from h.1))
