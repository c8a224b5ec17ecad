-- ===== src/Search/Minimize/Fuel.antt =====
-- The loops of the reduction end: their fuel is enough.
use interleave.Prelude.{
  ℕ, zero, suc, ◌+◌, ◌≤◌, ◌<◌, ◌≡◌, refl, sym, ap, ◌∙◌, true, Text, length, ltb, leb, ◌==◌,
  Bool-cases, Option-cases, inl, inr, arith, ◌||◌, if◌then◌else◌,
}
use interleave.Types.{Environment}
use interleave.Search.Minimize.{
  World, Reduction, Round, leave, reduced, next, locally_minimal, try_chunk, pass, chunk_size,
  reduction,
}
use interleave.Search.Minimize.Steps.{Round-cases, try_chunk-reduced, try_chunk-next}
use interleave.Search.Minimize.Evidence.{pass-end, pass_of_round}
use interleave.Search.Minimize.Rounds.{
  proceed, reduction-end, reduction-interrupted, reduction_round,
}

-- At least `n` attempts were made when the loop goes on.
abbrev Grows : ℕ → Round → Type 0
Grows n (leave t) = Unit
Grows n (reduced t) = n ≤ t.attempts
Grows n (next t) = n ≤ t.attempts

Grows-le : (m n : ℕ) (r : Round) → m ≤ n → Grows n r → Grows m r
Grows-le m n (leave t) h g = tt
Grows-le m n (reduced t) h g = omega arith
Grows-le m n (next t) h g = omega arith

module _ (w : World) (fingerprint : Text) (expected : Environment) (max_tries : ℕ) where
  -- What a pass does after its first round, and with the attempt of that round.
  pass-Grows :
      (fuel size start : ℕ) (s : Reduction)
      → Grows s.attempts (pass w fingerprint expected max_tries fuel size start s)
  pass-Grows zero size start s = unfold pass in omega arith
  pass-Grows (suc fuel) size start s = elim (Bool-cases (ltb start (length s.plan))) [
    | inr past ↦ rw (pass-end w fingerprint expected max_tries fuel size start s past) (omega arith)
    | inl inside ↦ elim (Round-cases (try_chunk w fingerprint expected max_tries size start s)) [
      | inl (t, e) ↦
          rw (pass_of_round w fingerprint expected max_tries fuel size start s inside e) tt
      | inr (inl (t, e)) ↦
          let (r, a, b) = try_chunk-reduced w fingerprint expected max_tries s size start t e in
          rw (pass_of_round w fingerprint expected max_tries fuel size start s inside e)
            (omega arith)
      | inr (inr (t, e)) ↦
          let (r, a, b) = try_chunk-next w fingerprint expected max_tries s size start t e in
          rw (pass_of_round w fingerprint expected max_tries fuel size start s inside e)
            (Grows-le s.attempts t.attempts _ (omega arith) (pass-Grows fuel size (start + size) t))
    ]
  ]

  pass-Grows_strict :
      (fuel size start : ℕ) (s : Reduction)
      → start < length s.plan
      → Grows (suc s.attempts) (pass w fingerprint expected max_tries (suc fuel) size start s)
  pass-Grows_strict fuel size start s h =
      elim (Round-cases (try_chunk w fingerprint expected max_tries size start s)) [
        | inl (t, e) ↦
            rw (pass_of_round w fingerprint expected max_tries fuel size start s (ground arith) e)
              tt
        | inr (inl (t, e)) ↦
            let (r, a, b) = try_chunk-reduced w fingerprint expected max_tries s size start t e in
            rw (pass_of_round w fingerprint expected max_tries fuel size start s (ground arith) e)
              (omega arith)
        | inr (inr (t, e)) ↦
            let (r, a, b) = try_chunk-next w fingerprint expected max_tries s size start t e in
            rw (pass_of_round w fingerprint expected max_tries fuel size start s (ground arith) e) (
              Grows-le (suc s.attempts) t.attempts _ (omega arith)
                (pass-Grows fuel size (start + size) t))
      ]

  first-Grows :
      (s : Reduction)
      → 0 < length s.plan
      → Grows (suc s.attempts) (
          pass w fingerprint expected max_tries
            (length s.plan)
            (chunk_size w fingerprint expected max_tries s)
            0
            (record s { calls = suc s.calls }))
  first-Grows s h = go (length s.plan) refl
    where
      go :
          (n : ℕ)
          → length s.plan ≡ n
          → Grows (suc s.attempts) (
              pass w fingerprint expected max_tries n
                (chunk_size w fingerprint expected max_tries s)
                0
                (record s { calls = suc s.calls }))
      go zero e = absurd (omega arith)
      go (suc n) e =
          pass-Grows_strict n (chunk_size w fingerprint expected max_tries s) 0
            (record s { calls = suc s.calls }) h

  pass_empty :
      (k size start : ℕ) (s : Reduction)
      → length s.plan ≤ start
      → pass w fingerprint expected max_tries k size start s ≡ next s
  pass_empty zero size start s h = unfold pass in refl
  pass_empty (suc k) size start s h =
      pass-end w fingerprint expected max_tries k size start s (ground arith)

  -- The loop over the chunks ends after at most as many rounds as the plan has choices after the
  -- start, where the chunks are not empty: more fuel changes nothing.
  pub pass-fuel :
      (k fuel size start : ℕ) (s : Reduction)
      → 0 < size
      → length s.plan ≤ fuel + start
      → fuel ≤ k
      → pass w fingerprint expected max_tries k size start s
        ≡ pass w fingerprint expected max_tries fuel size start s
  pass-fuel k zero size start s h enough more =
      pass_empty k size start s (omega arith) ∙ sym (pass_empty 0 size start s (omega arith))
  pass-fuel zero (suc fuel) size start s h enough more = absurd (omega arith)
  pass-fuel (suc k) (suc fuel) size start s h enough more =
      elim (Bool-cases (ltb start (length s.plan))) [
        | inr past ↦
            pass-end w fingerprint expected max_tries k size start s past
            ∙ sym (pass-end w fingerprint expected max_tries fuel size start s past)
        | inl inside ↦
            elim (Round-cases (try_chunk w fingerprint expected max_tries size start s)) [
              | inl (t, e) ↦
                  pass_of_round w fingerprint expected max_tries k size start s inside e
                  ∙ sym (pass_of_round w fingerprint expected max_tries fuel size start s inside e)
              | inr (inl (t, e)) ↦
                  pass_of_round w fingerprint expected max_tries k size start s inside e
                  ∙ sym (pass_of_round w fingerprint expected max_tries fuel size start s inside e)
              | inr (inr (t, e)) ↦
                  let (r, a, b) =
                    try_chunk-next w fingerprint expected max_tries s size start t e in
                  let rest : length t.plan ≤ fuel + (start + size) = rw r.plan (omega arith) in
                  pass_of_round w fingerprint expected max_tries k size start s inside e
                  ∙ pass-fuel k fuel size (start + size) t h rest (omega arith)
                  ∙ sym (pass_of_round w fingerprint expected max_tries fuel size start s inside e)
            ]
      ]

  reduction_spent :
      (k : ℕ) (s : Reduction)
      → max_tries ≤ s.attempts
      → reduction w fingerprint expected max_tries k s ≡ s
  reduction_spent zero s h = unfold reduction in refl
  reduction_spent (suc k) s h = reduction-end w fingerprint expected max_tries k s (ground arith)

  proceed-fuel :
      (k fuel : ℕ) (s : Reduction) (r : Round)
      → ((t : Reduction)
          → max_tries ≤ fuel + t.attempts
          → reduction w fingerprint expected max_tries k t
            ≡ reduction w fingerprint expected max_tries fuel t)
      → max_tries ≤ suc fuel + s.attempts
      → Grows (suc s.attempts) r
      → proceed w fingerprint expected max_tries k s r
        ≡ proceed w fingerprint expected max_tries fuel s r
  proceed-fuel k fuel s (leave t) ih enough g = refl
  proceed-fuel k fuel s (reduced t) ih enough g = ih _ (ground arith)
  proceed-fuel k fuel s (next t) ih enough g =
      ap
        (λ x.
          if leb (length t.plan) t.chunks
          then record t { locally = true; stop = locally_minimal }
          else x)
        (ih _ (omega arith))

  -- The reduction ends within the attempts that are left: more fuel changes nothing.
  pub reduction-fuel :
      (k fuel : ℕ) (s : Reduction)
      → max_tries ≤ fuel + s.attempts
      → fuel ≤ k
      → reduction w fingerprint expected max_tries k s
        ≡ reduction w fingerprint expected max_tries fuel s
  reduction-fuel k zero s enough more =
      reduction_spent k s (omega arith) ∙ sym (reduction_spent 0 s (omega arith))
  reduction-fuel zero (suc fuel) s enough more = absurd (omega arith)
  reduction-fuel (suc k) (suc fuel) s enough more =
      elim (Bool-cases ((length s.plan == 0) || leb max_tries s.attempts)) [
        | inl over ↦
            reduction-end w fingerprint expected max_tries k s over
            ∙ sym (reduction-end w fingerprint expected max_tries fuel s over)
        | inr busy ↦ elim (Option-cases (w.reasons s.calls)) [
          | inr (i, e) ↦
              reduction-interrupted w fingerprint expected max_tries k s i busy e
              ∙ sym (reduction-interrupted w fingerprint expected max_tries fuel s i busy e)
          | inl e ↦
              reduction_round w fingerprint expected max_tries k s busy e
              ∙ proceed-fuel k fuel s
                  (pass w fingerprint expected max_tries (length s.plan)
                    (chunk_size w fingerprint expected max_tries s) 0
                    (record s { calls = suc s.calls }))
                  (λ t h. reduction-fuel k fuel t h (omega arith)) enough
                  (first-Grows s (ground arith))
              ∙ sym (reduction_round w fingerprint expected max_tries fuel s busy e)
        ]
      ]
