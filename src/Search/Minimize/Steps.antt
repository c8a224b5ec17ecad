-- ===== src/Search/Minimize/Steps.antt =====
-- What one round of the reduction changes.
use interleave.Prelude.{
  ℕ, suc, ◌-◌, ◌≤◌, ◌<◌, ◌≡◌, ◌≢◌, refl, true, false, List, Text, Option-cases, Bool-cases, inl,
  inr, ◌⊎◌, arith, max, leb,
}
use interleave.Types.{RunResult, Environment}
use interleave.Search.Minimize.{
  World, Reduction, Round, leave, reduced, next, locally_minimal, without, reproduces, judge,
  try_chunk,
}

pub Round-cases :
    (r : Round)
    → ((t : Reduction) × (r ≡ leave t))
      ⊎ ((t : Reduction) × (r ≡ reduced t))
      ⊎ ((t : Reduction) × (r ≡ next t))
Round-cases (leave t) = inl (t, refl)
Round-cases (reduced t) = inr (inl (t, refl))
Round-cases (next t) = inr (inr (t, refl))

-- The loop is left: the plan and its evidence stay, and the stop is no claim of minimality.
pub record IsLeft (s t : Reduction) : Type 0 where
  pub plan : t.plan ≡ s.plan
  pub run : t.run ≡ s.run
  pub locally : t.locally ≡ s.locally
  pub stop : (t.stop ≡ s.stop) ⊎ (t.stop ≢ locally_minimal)

-- The candidate takes the plan's place, and the attempt is its evidence.
pub record IsReduced (fingerprint : Text) (s : Reduction) (candidate : List Text)
    (trial : RunResult) (t : Reduction) : Type 0 where
  pub plan : t.plan ≡ candidate
  pub run : t.run ≡ trial
  pub reproduced : reproduces fingerprint trial ≡ true
  pub locally : t.locally ≡ s.locally
  pub stop : t.stop ≡ s.stop
  pub chunks : t.chunks ≡ max 2 (s.chunks - 1)

-- The candidate did not reproduce the failure, and nothing else changes.
pub record IsPassed (fingerprint : Text) (s : Reduction) (trial : RunResult) (t : Reduction)
    : Type 0 where
  pub plan : t.plan ≡ s.plan
  pub run : t.run ≡ s.run
  pub refuted : reproduces fingerprint trial ≡ false
  pub locally : t.locally ≡ s.locally
  pub stop : t.stop ≡ s.stop
  pub chunks : t.chunks ≡ s.chunks

module _ (w : World) (fingerprint : Text) (expected : Environment) (max_tries : ℕ) where
  module _ (s : Reduction) (candidate : List Text) (trial : RunResult) (t : Reduction) where
    judge-leave :
        judge w fingerprint expected max_tries s candidate trial ≡ leave t
        → IsLeft s t × (t.attempts ≡ s.attempts)
    unfolding judge
    judge-leave h = ground arith

    judge-reduced :
        judge w fingerprint expected max_tries s candidate trial ≡ reduced t
        → IsReduced fingerprint s candidate trial t × (t.attempts ≡ s.attempts)
    unfolding judge
    judge-reduced h = ground arith

    judge-next :
        judge w fingerprint expected max_tries s candidate trial ≡ next t
        → IsPassed fingerprint s trial t × (t.attempts ≡ s.attempts)
    unfolding judge
    judge-next h = ground arith

module _ (w : World) (fingerprint : Text) (expected : Environment) (max_tries : ℕ) (s : Reduction)
    (size start : ℕ) (t : Reduction) where
  abbrev candidate : List Text
  candidate = without start size s.plan

  abbrev trial : RunResult
  trial = w.run_target s.attempts candidate

  -- The variables when the attempt has run.
  abbrev counted : Reduction
  counted = record s { attempts = suc s.attempts; calls = suc s.calls }

  pub try_chunk-leave :
      try_chunk w fingerprint expected max_tries size start s ≡ leave t
      → IsLeft s t
        × (s.attempts ≤ t.attempts)
        × ((t.attempts ≤ s.attempts) ⊎ (t.attempts ≤ max_tries))
  unfolding try_chunk
  try_chunk-leave h = elim (Option-cases (w.reasons s.calls)) [
    | inr (i, e) ↦ (ground arith, ground arith, ground arith)
    | inl e ↦ elim (Bool-cases (leb max_tries s.attempts)) [
      | inl spent ↦ (ground arith, ground arith, ground arith)
      | inr more ↦
          let (left', same) =
            judge-leave w fingerprint expected max_tries counted candidate trial t (ground arith) in
          (
            record {
              plan = left'.plan;
              run = left'.run;
              locally = left'.locally;
              stop = left'.stop;
            },
            omega arith,
            inr (ground arith),
          )
    ]
  ]

  pub try_chunk-reduced :
      try_chunk w fingerprint expected max_tries size start s ≡ reduced t
      → IsReduced fingerprint s candidate trial t
        × (t.attempts ≡ suc s.attempts)
        × (s.attempts < max_tries)
  unfolding try_chunk
  try_chunk-reduced h = elim (Option-cases (w.reasons s.calls)) [
    | inr (i, e) ↦ absurd (ground arith)
    | inl e ↦ elim (Bool-cases (leb max_tries s.attempts)) [
      | inl spent ↦ absurd (ground arith)
      | inr more ↦
          let (r, same) =
            judge-reduced w fingerprint expected max_tries counted candidate trial t
              (ground arith) in
          (
            record {
              plan = r.plan;
              run = r.run;
              reproduced = r.reproduced;
              locally = r.locally;
              stop = r.stop;
              chunks = r.chunks;
            },
            same,
            ground arith,
          )
    ]
  ]

  pub try_chunk-next :
      try_chunk w fingerprint expected max_tries size start s ≡ next t
      → IsPassed fingerprint s trial t × (t.attempts ≡ suc s.attempts) × (s.attempts < max_tries)
  unfolding try_chunk
  try_chunk-next h = elim (Option-cases (w.reasons s.calls)) [
    | inr (i, e) ↦ absurd (ground arith)
    | inl e ↦ elim (Bool-cases (leb max_tries s.attempts)) [
      | inl spent ↦ absurd (ground arith)
      | inr more ↦
          let (r, same) =
            judge-next w fingerprint expected max_tries counted candidate trial t (ground arith) in
          (
            record {
              plan = r.plan;
              run = r.run;
              refuted = r.refuted;
              locally = r.locally;
              stop = r.stop;
              chunks = r.chunks;
            },
            same,
            ground arith,
          )
    ]
  ]
