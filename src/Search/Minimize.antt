-- ===== src/Search/Minimize.antt =====
-- minimize.ts: the reduction of the explicit choices of a failing plan.
pub mod Steps
pub mod Evidence
pub mod Rounds
pub mod Locality
pub mod Endings
pub mod Results
pub mod Fuel
use interleave.Prelude.{
  ℕ, zero, suc, ◌+◌, ◌-◌, ◌*◌, ◌/◌, ◌≡◌, Bool, true, false, ◌&&◌, ◌||◌, not, Option, none, some,
  List, [], ◌∷◌, ◌++◌, Text, codes, text_eq, take, drop, length, min, max, ltb, leb, ◌==◌,
  if◌then◌else◌,
}
use interleave.Types.{
  RunResult, Outcome, actor_error, harness_error, Cleanup, Environment, option_eq, is_some, or_else,
}
use interleave.Lanes.Plans.{plan_from_trace}
use interleave.Search.Limits.{Interruption, aborted, deadline}
use interleave.Search.Environment.{environment_matches, is_violation, is_hard, is_inconclusive}

pub record AttemptFailure : Type 0 where
  pub outcome : Outcome
  pub reason : Option Text
  pub cleanup : Cleanup

abbrev is_actor_error : Outcome → Bool
is_actor_error actor_error = true
is_actor_error _ = false

-- A reason longer than 4096 code units is cut, with an ellipsis and a note.
unfoldable pub bounded_reason : Text → Text
bounded_reason t =
    if ltb 4096 (length t) then take 4096 t ++ 8230 ∷ codes " [message truncated]" else t

abbrev bounded : Option Text → Option Text
bounded none = none
bounded (some t) = some (bounded_reason t)

unfoldable pub summarize_hard_failure : RunResult → Option AttemptFailure
summarize_hard_failure run =
    if not (is_hard run.outcome) && run.cleanup.complete
    then none
    else some (record {
      outcome =
          if is_actor_error run.outcome && run.cleanup.complete then actor_error else harness_error;
      reason = bounded run.reason;
      cleanup = run.cleanup;
    })

pub data StopReason : Type 0 where
  locally_minimal max_attempts inconclusive : StopReason
  interrupted : Interruption → StopReason

-- `run_target` is an execution under a plan, which may differ from attempt to attempt; `reasons` is
-- what each call of the budget's `reason` returns, in order.
pub record World : Type 0 where
  pub run_target : ℕ → List Text → RunResult
  pub reasons : ℕ → Option Interruption

-- The variables of the loop; `calls` counts the calls of the budget.
pub record Reduction : Type 0 where
  pub plan : List Text
  pub run : RunResult
  pub attempts : ℕ
  pub chunks : ℕ
  pub locally : Bool
  pub stop : StopReason
  pub reason : Option Text
  pub attempt_failure : Option AttemptFailure
  pub calls : ℕ

-- How a round of a loop goes on: by leaving the reduction, with a smaller plan, or to the next chunk.
pub data Round : Type 0 where
  leave reduced next : Reduction → Round

-- The plan without the chunk of the given size at the given start.
unfoldable pub without : ℕ → ℕ → List Text → List Text
without start size plan = take start plan ++ drop (start + size) plan

abbrev pub fingerprint_of : RunResult → Option Text
fingerprint_of run = elim run.failure [ none ↦ none | some failure ↦ some failure.fingerprint ]

-- The run violates the invariant in the same way.
unfoldable pub reproduces : Text → RunResult → Bool
reproduces fingerprint run =
    is_violation run.outcome && option_eq text_eq (fingerprint_of run) (some fingerprint)

abbrev pub mismatch_reason : Text
mismatch_reason =
    codes "Reduction candidate environment differs from the verified starting conditions"

abbrev pub unevaluated_reason : Text
unevaluated_reason = codes "A reduction candidate could not be evaluated"

module _ (w : World) (fingerprint : Text) (expected : Environment) (max_tries : ℕ) where
  -- What the finished attempt means, in the order of the source's tests.
  unfoldable pub judge : Reduction → List Text → RunResult → Round
  unfolding reproduces
  judge s candidate trial =
      if is_some (summarize_hard_failure trial)
      then leave (record s { attempt_failure = summarize_hard_failure trial; stop = inconclusive })
      else elim (w.reasons s.calls) [
        | some i ↦
            leave (record s { attempt_failure = none; stop = interrupted i; calls = suc s.calls })
        | none ↦
            if not (environment_matches expected trial.environment)
            then leave (record s {
              attempt_failure = none;
              stop = inconclusive;
              reason = some (or_else trial.reason mismatch_reason);
              calls = suc s.calls;
            })
            else if reproduces fingerprint trial
            then reduced (record s {
              plan = candidate;
              run = trial;
              chunks = max 2 (s.chunks - 1);
              attempt_failure = none;
              calls = suc s.calls;
            })
            else if is_inconclusive trial.outcome
            then leave (record s {
              attempt_failure = none;
              stop = inconclusive;
              reason = some (or_else trial.reason unevaluated_reason);
              calls = suc s.calls;
            })
            else next (record s { attempt_failure = none; calls = suc s.calls })
      ]

  -- One round of the loop over the chunks.
  unfoldable pub try_chunk : ℕ → ℕ → Reduction → Round
  try_chunk size start s = elim (w.reasons s.calls) [
    | some i ↦ leave (record s { stop = interrupted i; calls = suc s.calls })
    | none ↦
        if leb max_tries s.attempts
        then leave (record s { calls = suc s.calls })
        else judge (record s { attempts = suc s.attempts; calls = suc s.calls })
            (without start size s.plan) (w.run_target s.attempts (without start size s.plan))
  ]

  -- The loop over the chunks: each start is `size` after the one before.
  unfoldable pub pass : ℕ → ℕ → ℕ → Reduction → Round
  pass zero size start s = next s
  pass (suc fuel) size start s =
      if ltb start (length s.plan)
      then elim (try_chunk size start s) [
        | leave t ↦ leave t
        | reduced t ↦ reduced t
        | next t ↦ pass fuel size (start + size) t
      ]
      else next s

  -- `Math.ceil(plan.length / chunks)`
  abbrev pub chunk_size : Reduction → ℕ
  chunk_size s = (length s.plan + (s.chunks - 1)) / s.chunks

  abbrev settle : Reduction → Reduction
  settle s =
      if length s.plan == 0
      then record s { locally = true; stop = locally_minimal }
      else record s { locally = false }

  -- The reduction: the loop around the passes.
  unfoldable pub reduction : ℕ → Reduction → Reduction
  reduction zero s = s
  reduction (suc fuel) s =
      if length s.plan == 0 || leb max_tries s.attempts then s else elim (w.reasons s.calls) [
        | some i ↦ record s { stop = interrupted i; calls = suc s.calls }
        | none ↦ elim (pass (length s.plan) (chunk_size s) 0 (record s { calls = suc s.calls })) [
          | leave t ↦ t
          | reduced t ↦ reduction fuel (settle t)
          | next t ↦
              if leb (length t.plan) t.chunks
              then record t { locally = true; stop = locally_minimal }
              else reduction fuel (record t { chunks = min (length t.plan) (t.chunks * 2) })
        ]
      ]

-- The variables before the loop, after a replay that reproduced the failure.
unfoldable pub begin : RunResult → Reduction
begin verified =
    let plan = plan_from_trace verified in
    record {
      plan = plan;
      run = verified;
      attempts = 1;
      chunks = 2;
      locally = length plan == 0;
      stop = if length plan == 0 then locally_minimal else max_attempts;
      reason = none;
      attempt_failure = none;
      calls = 0;
    }

pub data Minimization : Type 0 where
  not_a_failure : Minimization
  -- the original failure did not reproduce
  unverified : Outcome → Option AttemptFailure → Minimization
  minimized : (original_choices : ℕ) → Reduction → Minimization

abbrev blamed : RunResult → Outcome
blamed verified = elim (summarize_hard_failure verified) [
  | none ↦ verified.outcome
  | some f ↦ f.outcome
]

-- `minimize`, given the result of the verifying replay. The attempts left bound the rounds.
unfoldable pub minimize : World → RunResult → RunResult → ℕ → Minimization
unfolding begin
minimize w original verified max_tries = elim (fingerprint_of original) [
  | none ↦ not_a_failure
  | some fingerprint ↦
      if not (is_violation original.outcome)
      then not_a_failure
      else if is_some (summarize_hard_failure verified) || not (reproduces fingerprint verified)
      then unverified (blamed verified) (summarize_hard_failure verified)
      else minimized (length (plan_from_trace verified))
          (reduction w fingerprint verified.environment max_tries max_tries (begin verified))
]
