-- ===== src/Artifacts/Pairs/Partners.antt =====
-- Each step of a pair has its partner: the pair's two steps stand side by side, where they say.
use interleave.Prelude.{
  ℕ, zero, suc, ◌+◌, ◌≡◌, refl, sym, ap, ◌∙◌, Bool, true, none, some, List, [], ◌∷◌, get_elem?,
  ◌==◌, ◌⊎◌, Option-cases, inl, inr, arith, guard, ◌>>◌, guard-some,
}
use interleave.Types.{TraceStep}
use interleave.Artifacts.Pairs.{
  are_different, is_partner, pairs_from, validate_overlap_pairs, texts_eq,
}

-- The pair that begins at a position: two steps of different lanes, released at one time by one
-- decision.
pub record IsPair (lanes : Bool) (trace : List TraceStep) (base start : ℕ) : Type 0 where
  pub first : TraceStep
  pub second : TraceStep
  pub at_first : get_elem? trace start ≡ some first
  pub at_second : get_elem? trace (suc start) ≡ some second
  pub first_named : first.overlap ≡ some (base + start)
  pub second_named : second.overlap ≡ some (base + start)
  pub different : are_different lanes first second ≡ true
  pub together : second.released_at ≡ first.released_at
  pub one_decision : texts_eq second.available first.available ≡ true

abbrev pub HasPartner : Bool → List TraceStep → ℕ → ℕ → Type 0
HasPartner lanes trace base i =
    IsPair lanes trace base i ⊎ ((j : ℕ) × (suc j ≡ i) × IsPair lanes trace base j)

module _ (lanes : Bool) where
  single :
      (base : ℕ) (s t : TraceStep) (rest : List TraceStep)
      → s.overlap ≡ none
      → pairs_from lanes base (s ∷ t ∷ rest) ≡ pairs_from lanes (suc base) (t ∷ rest)
  unfolding pairs_from
  single base s t rest h = ground arith

  double :
      (base named : ℕ) (s t : TraceStep) (rest : List TraceStep)
      → s.overlap ≡ some named
      → pairs_from lanes base (s ∷ t ∷ rest)
        ≡ guard (named == base)
          >> (guard (is_partner lanes base s t) >> pairs_from lanes (suc (suc base)) rest)
  unfolding pairs_from
  double base named s t rest h = ground arith

  IsPair-opening :
      (base : ℕ) (s t : TraceStep) (rest : List TraceStep)
      → s.overlap ≡ some base
      → is_partner lanes base s t ≡ true
      → IsPair lanes (s ∷ t ∷ rest) base 0
  IsPair-opening base s t rest e h = record {
    first = s;
    second = t;
    at_first = refl;
    at_second = refl;
    first_named = e ∙ ap some (omega arith);
    second_named = ground arith;
    different = ground arith;
    together = ground arith;
    one_decision = ground arith;
  }

  IsPair-later :
      (base : ℕ) (s : TraceStep) (trace : List TraceStep) (i : ℕ)
      → IsPair lanes trace (suc base) i
      → IsPair lanes (s ∷ trace) base (suc i)
  IsPair-later base s trace i p = record {
    first = p.first;
    second = p.second;
    at_first = p.at_first;
    at_second = p.at_second;
    first_named = p.first_named ∙ ap some (omega arith);
    second_named = p.second_named ∙ ap some (omega arith);
    different = p.different;
    together = p.together;
    one_decision = p.one_decision;
  }

  partner_after :
      (base : ℕ) (s : TraceStep) (trace : List TraceStep) (i : ℕ)
      → HasPartner lanes trace (suc base) i
      → HasPartner lanes (s ∷ trace) base (suc i)
  partner_after base s trace i (inl p) = inl (IsPair-later base s trace i p)
  partner_after base s trace i (inr (j, e, p)) =
      inr (suc j, ap suc e, IsPair-later base s trace j p)

  -- A step that names a pair opens it.
  opening :
      (base named : ℕ) (s t : TraceStep) (rest : List TraceStep)
      → s.overlap ≡ some named
      → pairs_from lanes base (s ∷ t ∷ rest) ≡ some tt
      → IsPair lanes (s ∷ t ∷ rest) base 0 × (pairs_from lanes (suc (suc base)) rest ≡ some tt)
  opening base named s t rest paired h =
      let (is_here, more) =
        guard-some (named == base) _ (sym (double base named s t rest paired) ∙ h) in
      let (partner, rest_ok) = guard-some (is_partner lanes base s t) _ more in
      (IsPair-opening base s t rest (paired ∙ ap some (ground arith)) partner, rest_ok)

  pairs_from-HasPartner :
      (base : ℕ) (trace : List TraceStep)
      → pairs_from lanes base trace ≡ some tt
      → (i : ℕ) (step : TraceStep) (named : ℕ) → get_elem? trace i ≡ some step
      → step.overlap ≡ some named
      → HasPartner lanes trace base i
  unfolding pairs_from
  pairs_from-HasPartner base [] h i step named at e = cc
  pairs_from-HasPartner base (s ∷ []) h zero step named at e =
      let same : s ≡ step = cc in absurd (ground arith)
  pairs_from-HasPartner base (s ∷ []) h (suc i) step named at e = cc
  pairs_from-HasPartner base (s ∷ t ∷ rest) h zero step named at e = elim (Option-cases s.overlap) [
    | inl alone ↦ let same : s ≡ step = cc in absurd (ground arith)
    | inr (n, paired) ↦ inl (opening base n s t rest paired h).0
  ]
  pairs_from-HasPartner base (s ∷ t ∷ rest) h (suc zero) step named at e =
      elim (Option-cases s.overlap) [
        | inl alone ↦ partner_after base s (t ∷ rest) zero (
            pairs_from-HasPartner (suc base) (t ∷ rest) (sym (single base s t rest alone) ∙ h) zero
              step named at e)
        | inr (n, paired) ↦ inr (zero, refl, (opening base n s t rest paired h).0)
      ]
  pairs_from-HasPartner base (s ∷ t ∷ rest) h (suc (suc i)) step named at e =
      elim (Option-cases s.overlap) [
        | inl alone ↦ partner_after base s (t ∷ rest) (suc i) (
            pairs_from-HasPartner (suc base) (t ∷ rest) (sym (single base s t rest alone) ∙ h)
              (suc i) step named at e)
        | inr (n, paired) ↦ partner_after base s (t ∷ rest) (suc i) (
            partner_after (suc base) t rest i (
              pairs_from-HasPartner (suc (suc base)) rest (opening base n s t rest paired h).1 i
                step named at e))
      ]

-- In a trace whose pairs are accepted, a step that names a pair is its first or its second step:
-- the pair's steps stand side by side at the index that they name, on different lanes (actors where
-- no lanes are recorded), with one release time and the same available choices.
pub validate_overlap_pairs-HasPartner :
    (lanes : Bool) (trace : List TraceStep)
    → validate_overlap_pairs lanes trace ≡ some tt
    → (i : ℕ) (step : TraceStep) (named : ℕ) → get_elem? trace i ≡ some step
    → step.overlap ≡ some named
    → HasPartner lanes trace 0 i
unfolding validate_overlap_pairs
validate_overlap_pairs-HasPartner lanes trace h = pairs_from-HasPartner lanes 0 trace h
