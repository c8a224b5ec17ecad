-- ===== src/Search/Minimize/Locality.antt =====
-- A reduction that stops as locally minimal has tried to take away every single choice.
use interleave.Prelude.{
  ℕ, zero, suc, ◌+◌, ◌/◌, ◌-◌, ◌≤◌, ◌<◌, ◌≡◌, refl, sym, ◌∙◌, subst, false, Text, length, ltb,
  Bool-cases, inl, inr, arith,
}
use interleave.Types.{Environment}
use interleave.Search.Minimize.{
  World, Reduction, Round, leave, reduced, next, without, reproduces, try_chunk, pass,
}
use interleave.Search.Minimize.Steps.{Round-cases, IsPassed, try_chunk-next}
use interleave.Search.Minimize.Evidence.{pass-end, pass_of_round}
use native.Mathlib.Nat.{le-div_iff_mul-le, div-lt_iff_lt-mul}

-- An attempt without the choice at this index did not reproduce the failure.
abbrev pub IsTried : World → Text → Reduction → ℕ → Type 0
IsTried w fingerprint t i =
    (n : ℕ) × (n < t.attempts)
    × (reproduces fingerprint (w.run_target n (without i 1 t.plan)) ≡ false)

-- From `s`, a pass that goes through to the end has tried every choice from `start` on.
abbrev pub Tried : World → Text → Reduction → ℕ → Round → Type 0
Tried w fingerprint s start (leave t) = Unit
Tried w fingerprint s start (reduced t) = Unit
Tried w fingerprint s start (next t) =
    (t.plan ≡ s.plan)
    × (s.attempts ≤ t.attempts)
    × ((i : ℕ) → start ≤ i → i < length t.plan → IsTried w fingerprint t i)

-- Chunks as many as choices hold one choice each.
pub chunk_size-one : (n chunks : ℕ) → 0 < n → n ≤ chunks → (n + (chunks - 1)) / chunks ≡ 1
chunk_size-one n chunks h k =
    let sum = n + (chunks - 1) in
    let pos : 0 < chunks = omega arith in
    let low : 1 ≤ sum / chunks = (le-div_iff_mul-le pos).1 (omega arith) in
    let high : sum / chunks < 2 = (div-lt_iff_lt-mul pos).1 (omega arith) in omega arith

module _ (w : World) (fingerprint : Text) (expected : Environment) (max_tries : ℕ) where
  Tried-step :
      (start : ℕ) (s t : Reduction) (r : Round)
      → IsPassed fingerprint s (w.run_target s.attempts (without start 1 s.plan)) t
      → t.attempts ≡ suc s.attempts
      → Tried w fingerprint t (start + 1) r
      → Tried w fingerprint s start r
  Tried-step start s t (leave u) p a rest = tt
  Tried-step start s t (reduced u) p a rest = tt
  Tried-step start s t (next u) p a (same, grown, rest) = (
    same ∙ p.plan,
    omega arith,
    λ i low high. elim (Bool-cases (ltb start i)) [
      | inl later ↦ rest i (ground arith) high
      | inr here ↦
          let at : start ≡ i = ground arith in
          (
            s.attempts,
            omega arith,
            subst (λ x. reproduces fingerprint (w.run_target s.attempts (without i 1 x)) ≡ false)
                (sym (same ∙ p.plan))
                (subst
                  (λ x.
                    reproduces fingerprint (w.run_target s.attempts (without x 1 s.plan)) ≡ false)
                  at p.refuted),
          )
    ],
  )

  -- The pass with chunks of one choice; the length of the plan is fuel enough.
  pub pass-Tried :
      (fuel start : ℕ) (s : Reduction)
      → length s.plan ≤ fuel + start
      → Tried w fingerprint s start (pass w fingerprint expected max_tries fuel 1 start s)
  pass-Tried zero start s f = unfold pass in (refl, omega arith, λ i low high. absurd (omega arith))
  pass-Tried (suc fuel) start s f = elim (Bool-cases (ltb start (length s.plan))) [
    | inr past ↦
        rw (pass-end w fingerprint expected max_tries fuel 1 start s past)
          (refl, omega arith, λ i low high. absurd (ground arith))
    | inl inside ↦ elim (Round-cases (try_chunk w fingerprint expected max_tries 1 start s)) [
      | inl (t, e) ↦ rw (pass_of_round w fingerprint expected max_tries fuel 1 start s inside e) tt
      | inr (inl (t, e)) ↦
          rw (pass_of_round w fingerprint expected max_tries fuel 1 start s inside e) tt
      | inr (inr (t, e)) ↦
          let (r, a, b) = try_chunk-next w fingerprint expected max_tries s 1 start t e in
          let enough : length t.plan ≤ fuel + (start + 1) = rw r.plan (omega arith) in
          rw (pass_of_round w fingerprint expected max_tries fuel 1 start s inside e) (
            Tried-step start s t (pass w fingerprint expected max_tries fuel 1 (start + 1) t) r a
              (pass-Tried fuel (start + 1) t enough))
    ]
  ]
