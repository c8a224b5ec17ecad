-- ===== src/Search/Minimize/Rounds.antt =====
-- What a pass over the chunks changes, and the rounds of the reduction as equations.
use interleave.Prelude.{
  ℕ, zero, suc, ◌+◌, ◌*◌, ◌≡◌, ◌≢◌, ◌⊎◌, refl, ◌∙◌, true, false, none, some, Text, length, ltb, leb,
  ◌==◌, Bool-cases, inl, inr, min, arith, if◌then◌else◌, ◌||◌,
}
use interleave.Types.{Environment}
use interleave.Search.Limits.{Interruption}
use interleave.Search.Minimize.{
  World, Reduction, Round, leave, reduced, next, locally_minimal, interrupted, try_chunk, pass,
  chunk_size, settle, reduction,
}
use interleave.Search.Minimize.Steps.{
  Round-cases, try_chunk-leave, try_chunk-reduced, try_chunk-next,
}
use interleave.Search.Minimize.Evidence.{pass-end, pass_of_round}

-- What a pass that starts at `s` leaves as it was.
abbrev pub After : Reduction → Round → Type 0
After s (leave t) =
    (t.plan ≡ s.plan) × (t.locally ≡ s.locally) × ((t.stop ≡ s.stop) ⊎ (t.stop ≢ locally_minimal))
After s (reduced t) = (t.locally ≡ s.locally) × (t.stop ≡ s.stop)
After s (next t) =
    (t.plan ≡ s.plan) × (t.locally ≡ s.locally) × (t.stop ≡ s.stop) × (t.chunks ≡ s.chunks)

After-trans : (s t : Reduction) (r : Round) → After s (next t) → After t r → After s r
After-trans s t (leave u) (p, l, e, c) (p', l', e') =
    (p' ∙ p, l' ∙ l, elim e' [ inl same ↦ inl (same ∙ e) | inr other ↦ inr other ])
After-trans s t (reduced u) (p, l, e, c) (l', e') = (l' ∙ l, e' ∙ e)
After-trans s t (next u) (p, l, e, c) (p', l', e', c') = (p' ∙ p, l' ∙ l, e' ∙ e, c' ∙ c)

module _ (w : World) (fingerprint : Text) (expected : Environment) (max_tries : ℕ) where
  pub pass-After :
      (fuel size start : ℕ) (s : Reduction)
      → After s (pass w fingerprint expected max_tries fuel size start s)
  pass-After zero size start s = unfold pass in (refl, refl, refl, refl)
  pass-After (suc fuel) size start s = elim (Bool-cases (ltb start (length s.plan))) [
    | inr past ↦
        rw (pass-end w fingerprint expected max_tries fuel size start s past)
          (refl, refl, refl, refl)
    | inl inside ↦ elim (Round-cases (try_chunk w fingerprint expected max_tries size start s)) [
      | inl (t, e) ↦
          let (l, a, b) = try_chunk-leave w fingerprint expected max_tries s size start t e in
          rw (pass_of_round w fingerprint expected max_tries fuel size start s inside e)
            (l.plan, l.locally, l.stop)
      | inr (inl (t, e)) ↦
          let (r, a, b) = try_chunk-reduced w fingerprint expected max_tries s size start t e in
          rw (pass_of_round w fingerprint expected max_tries fuel size start s inside e)
            (r.locally, r.stop)
      | inr (inr (t, e)) ↦
          let (r, a, b) = try_chunk-next w fingerprint expected max_tries s size start t e in
          rw (pass_of_round w fingerprint expected max_tries fuel size start s inside e) (
            After-trans s t (pass w fingerprint expected max_tries fuel size (start + size) t)
              (r.plan, r.locally, r.stop, r.chunks) (pass-After fuel size (start + size) t))
    ]
  ]

  module _ (fuel : ℕ) (s : Reduction) where
    -- How the reduction goes on after a pass.
    abbrev pub proceed : Round → Reduction
    proceed (leave t) = t
    proceed (reduced t) =
        reduction w fingerprint expected max_tries fuel (settle w fingerprint expected max_tries t)
    proceed (next t) =
        if leb (length t.plan) t.chunks
        then record t { locally = true; stop = locally_minimal }
        else reduction w fingerprint expected max_tries fuel
            (record t { chunks = min (length t.plan) (t.chunks * 2) })

    pub reduction-end :
        (length s.plan == 0) || leb max_tries s.attempts ≡ true
        → reduction w fingerprint expected max_tries (suc fuel) s ≡ s
    unfolding reduction
    reduction-end h = ground arith

    pub reduction-interrupted :
        (i : Interruption)
        → (length s.plan == 0) || leb max_tries s.attempts ≡ false
        → w.reasons s.calls ≡ some i
        → reduction w fingerprint expected max_tries (suc fuel) s
          ≡ record s { stop = interrupted i; calls = suc s.calls }
    unfolding reduction
    reduction-interrupted i h e = ground arith

    pub reduction_round :
        (length s.plan == 0) || leb max_tries s.attempts ≡ false
        → w.reasons s.calls ≡ none
        → reduction w fingerprint expected max_tries (suc fuel) s
          ≡ proceed (
              pass w fingerprint expected max_tries
                (length s.plan)
                (chunk_size w fingerprint expected max_tries s)
                0
                (record s { calls = suc s.calls }))
    unfolding reduction
    reduction_round h e = ground arith
