-- ===== src/Search/Minimize/Results.antt =====
-- What a minimization promises of its result.
use interleave.Prelude.{
  ℕ, ◌≤◌, ◌<◌, ◌≡◌, ◌≢◌, ap, ◌∙◌, subst, true, false, some, Text, length, Option-cases, inl, inr,
  max, arith, Sub,
}
use interleave.Types.{RunResult}
use interleave.Lanes.Plans.{plan_from_trace}
use interleave.Search.Minimize.{
  World, Reduction, locally_minimal, reproduces, reduction, begin, minimize, minimized,
  fingerprint_of,
}
use interleave.Search.Minimize.Evidence.{IsEvidence}
use interleave.Search.Minimize.Locality.{IsTried}
use interleave.Search.Minimize.Endings.{
  is_minimal, is_minimal-ne, Ends, reduction-Ends, begin-Between,
}

module _ (w : World) (original verified : RunResult) (max_tries n : ℕ) (t : Reduction) where
  -- A reduction starts only from a replay that reproduced the original failure.
  minimized-cases :
      minimize w original verified max_tries ≡ minimized n t
      → (fingerprint : Text) × (fingerprint_of original ≡ some fingerprint)
        × (reproduces fingerprint verified ≡ true)
        × (reduction w fingerprint verified.environment max_tries max_tries (begin verified) ≡ t)
  unfolding minimize
  minimized-cases h = elim (Option-cases (fingerprint_of original)) [
    | inl e ↦ absurd (ground arith)
    | inr (fingerprint, e) ↦ (fingerprint, e, ground arith, ground arith)
  ]

  minimized-Ends :
      minimize w original verified max_tries ≡ minimized n t
      → (fingerprint : Text) × (fingerprint_of original ≡ some fingerprint)
        × Ends w fingerprint verified.environment max_tries verified t
  minimized-Ends h =
      let (fingerprint, named, reproduced, e) = minimized-cases h in
      (
        fingerprint,
        named,
        subst (λ x. Ends w fingerprint verified.environment max_tries verified x) e
            (reduction-Ends w fingerprint verified.environment max_tries verified max_tries
              (begin verified)
              (begin-Between w fingerprint verified.environment max_tries verified reproduced)),
      )

  -- A minimized plan is a subsequence of the plan of the verifying replay, and it has evidence: its
  -- run is that replay itself, with its whole plan, or it is an attempt that ran under this plan;
  -- the run violates the invariant with the original fingerprint. The attempts are within the limit
  -- (the verifying replay counts as one).
  pub minimize-IsSound :
      minimize w original verified max_tries ≡ minimized n t
      → (fingerprint : Text) × (fingerprint_of original ≡ some fingerprint)
        × Sub t.plan (plan_from_trace verified)
        × (reproduces fingerprint t.run ≡ true)
        × IsEvidence w fingerprint verified.environment max_tries verified t
        × (t.attempts ≤ max 1 max_tries)
  minimize-IsSound h =
      let (fingerprint, named, ends) = minimized-Ends h in
      let holds = ends.holds in
      (fingerprint, named, holds.sub, holds.reproduced, holds.evidence, holds.bounded)

  -- Where a minimization stopped as locally minimal its result says so, and for every choice of its
  -- plan an attempt was made under the plan without that choice, which did not reproduce the failure.
  pub minimize-IsMinimal :
      (i : ℕ)
      → minimize w original verified max_tries ≡ minimized n t
      → t.stop ≡ locally_minimal
      → i < length t.plan
      → (t.locally ≡ true)
        × (fingerprint : Text) × (fingerprint_of original ≡ some fingerprint)
        × IsTried w fingerprint t i
  minimize-IsMinimal i h stopped inside =
      let (fingerprint, named, ends) = minimized-Ends h in
      let claimed : t.locally ≡ true = ends.agrees ∙ ap is_minimal stopped in
      (claimed, fingerprint, named, ends.local claimed i inside)

  -- Where a minimization stopped for another reason than local minimality, its result does not claim
  -- to be locally minimal.
  pub minimize-claims_no_more :
      minimize w original verified max_tries ≡ minimized n t
      → t.stop ≢ locally_minimal
      → t.locally ≡ false
  minimize-claims_no_more h other =
      let (fingerprint, named, ends) = minimized-Ends h in ends.agrees ∙ is_minimal-ne t.stop other
