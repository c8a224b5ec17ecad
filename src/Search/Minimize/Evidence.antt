-- ===== src/Search/Minimize/Evidence.antt =====
-- The reduced plan is a subsequence of the recorded one, and its run is evidence of the failure.
use interleave.Prelude.{
  ℕ, zero, suc, ◌+◌, ◌≤◌, ◌<◌, ◌≡◌, ◌⊎◌, sym, ap, ◌∙◌, true, false, Text, length, ltb, Sub,
  Sub-trans, Sub-cut, Bool-cases, inl, inr, max, arith,
}
use interleave.Types.{RunResult, Environment}
use interleave.Lanes.Plans.{plan_from_trace}
use interleave.Search.Minimize.{
  World, Reduction, Round, leave, reduced, next, without, reproduces, try_chunk, pass,
}
use interleave.Search.Minimize.Steps.{
  Round-cases, IsReduced, try_chunk-leave, try_chunk-reduced, try_chunk-next,
}

abbrev pub Each {ℓ} : (Reduction → Type ℓ) → Round → Type ℓ
Each P (leave t) = P t
Each P (reduced t) = P t
Each P (next t) = P t

module _ (w : World) (fingerprint : Text) (expected : Environment) (max_tries : ℕ) where
  module _ (fuel size start : ℕ) where
    -- How the loop over the chunks goes on after a round.
    abbrev pub continue : Round → Round
    continue (leave t) = leave t
    continue (reduced t) = reduced t
    continue (next t) = pass w fingerprint expected max_tries fuel size (start + size) t

    pub pass-end :
        (s : Reduction)
        → ltb start (length s.plan) ≡ false
        → pass w fingerprint expected max_tries (suc fuel) size start s ≡ next s
    unfolding pass
    pass-end s h = ground arith

    pass-round :
        (s : Reduction)
        → ltb start (length s.plan) ≡ true
        → pass w fingerprint expected max_tries (suc fuel) size start s
          ≡ continue (try_chunk w fingerprint expected max_tries size start s)
    unfolding pass
    pass-round s h = ground arith

    pub pass_of_round :
        (s : Reduction) {r : Round}
        → ltb start (length s.plan) ≡ true
        → try_chunk w fingerprint expected max_tries size start s ≡ r
        → pass w fingerprint expected max_tries (suc fuel) size start s ≡ continue r
    pass_of_round s h e = pass-round s h ∙ ap continue e

  module _ (verified : RunResult) where
    -- The run is the verifying replay under its own plan, or an attempt under the plan.
    abbrev pub IsEvidence : Reduction → Type 0
    IsEvidence t =
        ((t.run ≡ verified) × (t.plan ≡ plan_from_trace verified))
        ⊎ ((n : ℕ) × (n < t.attempts) × (t.run ≡ w.run_target n t.plan))

    pub record Holds (t : Reduction) : Type 0 where
      pub sub : Sub t.plan (plan_from_trace verified)
      pub reproduced : reproduces fingerprint t.run ≡ true
      pub evidence : IsEvidence t
      pub bounded : t.attempts ≤ max 1 max_tries

    IsEvidence-later :
        (s t : Reduction)
        → t.plan ≡ s.plan
        → t.run ≡ s.run
        → s.attempts ≤ t.attempts
        → IsEvidence s
        → IsEvidence t
    IsEvidence-later s t p r a e = elim e [
      | inl (run, plan) ↦ inl (r ∙ run, p ∙ plan)
      | inr (n, before, run) ↦ inr (n, omega arith, r ∙ run ∙ ap (w.run_target n) (sym p))
    ]

    pub Holds-same :
        (s t : Reduction)
        → Holds s
        → t.plan ≡ s.plan
        → t.run ≡ s.run
        → s.attempts ≤ t.attempts
        → t.attempts ≤ max 1 max_tries
        → Holds t
    Holds-same s t h p r a b = record {
      sub = rw p h.sub;
      reproduced = rw r h.reproduced;
      evidence = IsEvidence-later s t p r a h.evidence;
      bounded = b;
    }

    Holds-reduced :
        (s t : Reduction) (size start : ℕ)
        → Holds s
        → IsReduced fingerprint s
            (without start size s.plan)
            (w.run_target s.attempts (without start size s.plan))
            t
        → t.attempts ≡ suc s.attempts
        → s.attempts < max_tries
        → Holds t
    unfolding without
    Holds-reduced s t size start h r a b = record {
      sub = rw r.plan (Sub-trans h.sub (Sub-cut start size s.plan));
      reproduced = rw r.run r.reproduced;
      evidence = inr (s.attempts, omega arith, r.run ∙ ap (w.run_target s.attempts) (sym r.plan));
      bounded = omega arith;
    }

    pub pass-Holds :
        (fuel size start : ℕ) (s : Reduction)
        → Holds s
        → Each Holds (pass w fingerprint expected max_tries fuel size start s)
    pass-Holds zero size start s h = unfold pass in h
    pass-Holds (suc fuel) size start s h = elim (Bool-cases (ltb start (length s.plan))) [
      | inr past ↦ rw (pass-end fuel size start s past) h
      | inl inside ↦ elim (Round-cases (try_chunk w fingerprint expected max_tries size start s)) [
        | inl (t, e) ↦
            let (l, a, b) = try_chunk-leave w fingerprint expected max_tries s size start t e in
            let low = h.bounded in
            rw (pass_of_round fuel size start s inside e)
              (Holds-same s t h l.plan l.run a (omega arith))
        | inr (inl (t, e)) ↦
            let (r, a, b) = try_chunk-reduced w fingerprint expected max_tries s size start t e in
            rw (pass_of_round fuel size start s inside e) (Holds-reduced s t size start h r a b)
        | inr (inr (t, e)) ↦
            let (r, a, b) = try_chunk-next w fingerprint expected max_tries s size start t e in
            rw (pass_of_round fuel size start s inside e) (
              pass-Holds fuel size (start + size) t
                (Holds-same s t h r.plan r.run (omega arith) (omega arith)))
      ]
    ]
