-- ===== src/Search/Minimize/Endings.antt =====
-- How a reduction ends: with evidence, and minimal only where every single choice was tried.
use interleave.Prelude.{
  ℕ, zero, suc, ◌≤◌, ◌<◌, ◌≡◌, ◌≢◌, ◌⊎◌, refl, sym, ap, ◌∙◌, Bool, true, false, Text, length, leb,
  ◌==◌, Bool-cases, Option-cases, inl, inr, arith, ◌||◌, Sub-refl,
}
use interleave.Types.{RunResult, Environment}
use interleave.Lanes.Plans.{plan_from_trace}
use interleave.Search.Minimize.{
  World, Reduction, Round, leave, reduced, next, StopReason, locally_minimal, interrupted,
  inconclusive, max_attempts, reproduces, pass, chunk_size, settle, reduction, begin,
}
use interleave.Search.Minimize.Evidence.{Holds, Holds-same, pass-Holds, Each}
use interleave.Search.Minimize.Locality.{IsTried, Tried, pass-Tried, chunk_size-one}
use interleave.Search.Minimize.Rounds.{
  After, pass-After, proceed, reduction-end, reduction-interrupted, reduction_round,
}

abbrev pub is_minimal : StopReason → Bool
is_minimal locally_minimal = true
is_minimal max_attempts = false
is_minimal inconclusive = false
is_minimal (interrupted i) = false

pub is_minimal-ne : (stop : StopReason) → stop ≢ locally_minimal → is_minimal stop ≡ false
is_minimal-ne locally_minimal h = absurd (h refl)
is_minimal-ne max_attempts h = refl
is_minimal-ne inconclusive h = refl
is_minimal-ne (interrupted i) h = refl

module _ (w : World) (fingerprint : Text) (expected : Environment) (max_tries : ℕ)
    (verified : RunResult) where
  -- Between the rounds minimality is claimed of an empty plan only.
  pub record Between (s : Reduction) : Type 0 where
    pub holds : Holds w fingerprint expected max_tries verified s
    pub agrees : s.locally ≡ is_minimal s.stop
    pub empty : s.locally ≡ true → length s.plan ≡ 0

  pub record Ends (t : Reduction) : Type 0 where
    pub holds : Holds w fingerprint expected max_tries verified t
    pub agrees : t.locally ≡ is_minimal t.stop
    pub local : t.locally ≡ true → (i : ℕ) → i < length t.plan → IsTried w fingerprint t i

  Between-Ends : (s : Reduction) → Between s → Ends s
  Between-Ends s b = record {
    holds = b.holds;
    agrees = b.agrees;
    local = λ h i k. absurd (let e = b.empty h in omega arith);
  }

  module _ (s : Reduction) (b : Between s)
      (busy : (length s.plan == 0) || leb max_tries s.attempts ≡ false) where
    locally-false : s.locally ≡ false
    locally-false = elim (Bool-cases s.locally) [
      | inl claimed ↦ let e = b.empty claimed in ground arith
      | inr other ↦ other
    ]

    leave-Ends :
        (t : Reduction)
        → Holds w fingerprint expected max_tries verified t
        → t.locally ≡ s.locally
        → (t.stop ≡ s.stop) ⊎ (t.stop ≢ locally_minimal)
        → Ends t
    leave-Ends t h l e = record {
      holds = h;
      agrees = elim e [
        | inl same ↦ l ∙ b.agrees ∙ ap is_minimal (sym same)
        | inr other ↦ l ∙ locally-false ∙ sym (is_minimal-ne t.stop other)
      ];
      local = λ h. absurd (ground arith);
    }

    module _ (fuel : ℕ)
        (ih : (t : Reduction)
          → Between t
          → Ends (reduction w fingerprint expected max_tries fuel t)) where
      settle-Between :
          (t : Reduction)
          → Holds w fingerprint expected max_tries verified t
          → t.locally ≡ s.locally
          → t.stop ≡ s.stop
          → Between (settle w fingerprint expected max_tries t)
      settle-Between t h l e = elim (Bool-cases (length t.plan == 0)) [
        | inl none_left ↦ rw none_left record {
          holds =
              Holds-same w fingerprint expected max_tries verified t _ h refl refl (omega arith)
                h.bounded;
          agrees = refl;
          empty = λ claimed. ground arith;
        }
        | inr some_left ↦ rw some_left record {
          holds =
              Holds-same w fingerprint expected max_tries verified t _ h refl refl (omega arith)
                h.bounded;
          agrees = sym (ap is_minimal e ∙ sym b.agrees ∙ locally-false);
          empty = λ claimed. absurd (ground arith);
        }
      ]

      -- The round after a pass that took nothing away.
      next-Ends :
          (t : Reduction)
          → Holds w fingerprint expected max_tries verified t
          → After s (next t)
          → (length s.plan ≤ s.chunks → Tried w fingerprint s 0 (next t))
          → Ends (proceed w fingerprint expected max_tries fuel s (next t))
      next-Ends t h (p, l, e, c) tried = elim (Bool-cases (leb (length t.plan) t.chunks)) [
        | inl whole ↦
            let small : length s.plan ≤ s.chunks = ground arith in
            rw whole record {
              holds =
                  Holds-same w fingerprint expected max_tries verified t _ h refl refl (omega arith)
                    h.bounded;
              agrees = refl;
              local = λ claimed i k. (tried small).2 i (omega arith) k;
            }
        | inr more ↦ rw more (
            ih _ record {
              holds =
                  Holds-same w fingerprint expected max_tries verified t _ h refl refl (omega arith)
                    h.bounded;
              agrees = l ∙ b.agrees ∙ ap is_minimal (sym e);
              empty = λ claimed. absurd (ground arith);
            })
      ]

      proceed-Ends :
          (r : Round)
          → Each (Holds w fingerprint expected max_tries verified) r
          → After s r
          → (length s.plan ≤ s.chunks → Tried w fingerprint s 0 r)
          → Ends (proceed w fingerprint expected max_tries fuel s r)
      proceed-Ends (leave t) h (p, l, e) tried = leave-Ends t h l e
      proceed-Ends (reduced t) h (l, e) tried = ih _ (settle-Between t h l e)
      proceed-Ends (next t) h after tried = next-Ends t h after tried

  pub reduction-Ends :
      (fuel : ℕ) (s : Reduction)
      → Between s
      → Ends (reduction w fingerprint expected max_tries fuel s)
  reduction-Ends zero s b = unfold reduction in Between-Ends s b
  reduction-Ends (suc fuel) s b =
      elim (Bool-cases ((length s.plan == 0) || leb max_tries s.attempts)) [
        | inl over ↦
            rw (reduction-end w fingerprint expected max_tries fuel s over) (Between-Ends s b)
        | inr busy ↦ elim (Option-cases (w.reasons s.calls)) [
          | inr (i, e) ↦
              rw (reduction-interrupted w fingerprint expected max_tries fuel s i busy e) (
                leave-Ends s b busy _
                  (Holds-same w fingerprint expected max_tries verified s _ b.holds refl refl
                    (omega arith) b.holds.bounded)
                  refl (inr (λ e. ground arith)))
          | inl e ↦
              let s' = record s { calls = suc s.calls } in
              let b' : Between s' = record {
                holds =
                    Holds-same w fingerprint expected max_tries verified s s' b.holds refl refl
                      (omega arith) b.holds.bounded;
                agrees = b.agrees;
                empty = b.empty;
              } in
              rw (reduction_round w fingerprint expected max_tries fuel s busy e) (
                proceed-Ends s' b' busy fuel (reduction-Ends fuel)
                  (pass w fingerprint expected max_tries (length s.plan)
                    (chunk_size w fingerprint expected max_tries s) 0 s')
                  (pass-Holds w fingerprint expected max_tries verified (length s.plan)
                    (chunk_size w fingerprint expected max_tries s) 0 s' b'.holds)
                  (pass-After w fingerprint expected max_tries (length s.plan)
                    (chunk_size w fingerprint expected max_tries s) 0 s')
                  (λ small. rw (chunk_size-one (length s.plan) s.chunks (ground arith) small) (
                    pass-Tried w fingerprint expected max_tries (length s.plan) 0 s'
                      (omega arith))))
        ]
      ]

  pub begin-Between : reproduces fingerprint verified ≡ true → Between (begin verified)
  unfolding begin
  begin-Between h = elim (Bool-cases (length (plan_from_trace verified) == 0)) [
    | inl none_left ↦ record {
      holds = record {
        sub = Sub-refl (plan_from_trace verified);
        reproduced = h;
        evidence = inl (refl, refl);
        bounded = omega arith;
      };
      agrees = ground arith;
      empty = λ claimed. ground arith;
    }
    | inr some_left ↦ record {
      holds = record {
        sub = Sub-refl (plan_from_trace verified);
        reproduced = h;
        evidence = inl (refl, refl);
        bounded = omega arith;
      };
      agrees = ground arith;
      empty = λ claimed. absurd (ground arith);
    }
  ]
