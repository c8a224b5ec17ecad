-- ===== src/Artifacts/Cancels.antt =====
-- artifact-schema.ts, `validateCancels`: the cancel requests that reached actors.
pub mod Hits
use interleave.Prelude.{
  ℕ, suc, ◌<◌, ◌≤◌, ℤ, pos, negsuc, Bool, true, false, ◌&&◌, ◌||◌, not, Option, none, some, List,
  [], ◌∷◌, Text, Dict, codes, text_eq, has, lookup, insert, get_elem?, length, any, leb, ltb, ◌==◌,
  if◌then◌else◌, guard, ◌>>=◌, ◌>>◌,
}
use interleave.Types.{TraceStep, CancelRecord, option_eq, is_some}
use interleave.Artifacts.Json.{Json}
use interleave.Artifacts.Fields.{
  shape, field, has_own, array_value, safe_integer, signed_integer, finite_number, boolean_value,
  actor_id, lane_key, max_array_items,
}
use interleave.Artifacts.Completions.{optional, bool_eq}
use interleave.Artifacts.Stages.{step_key}

-- The backend that the last recorded step of each connection ran on.
unfoldable pub pids_by_connection : Dict ℕ → List TraceStep → Dict ℕ
pids_by_connection pids [] = pids
pids_by_connection pids (step ∷ trace) =
    pids_by_connection (insert (step_key step) step.backend_pid pids) trace

abbrev pub is_pid : ℤ → ℕ → Bool
is_pid (pos n) pid = n == pid
is_pid (negsuc n) pid = false

abbrev pub is_live : ℤ → Bool
is_live (pos n) = ltb 0 n
is_live (negsuc n) = false

abbrev pub completed_before : Option ℕ → ℕ → Bool
completed_before none at = false
completed_before (some completed) at = ltb completed at

abbrev pub completed_after : Option ℕ → ℕ → Bool
completed_after none at = false
completed_after (some completed) at = ltb at completed

-- A step of the request's connection that was running when it arrived.
abbrev pub is_hit : CancelRecord → TraceStep → Bool
is_hit cancel step =
    text_eq step.actor cancel.actor
    && option_eq ◌==◌ cancel.connection (some step.connection)
    && is_pid cancel.backend_pid step.backend_pid
    && leb step.released_at cancel.at
    && not (completed_before step.completed_at cancel.at)

-- A step that the request should have named.
abbrev pub is_missed : CancelRecord → TraceStep → Bool
is_missed cancel step =
    text_eq step.actor cancel.actor
    && option_eq ◌==◌ cancel.connection (some step.connection)
    && leb step.released_at cancel.at
    && completed_after step.completed_at cancel.at

abbrev pub cancel_required : List Text
cancel_required = codes "at" ∷ codes "actor" ∷ codes "backendPid" ∷ codes "forwarded" ∷ []

abbrev pub cancel_allowed : List Text
cancel_allowed = codes "connection" ∷ codes "step" ∷ cancel_required

-- The members of a request by themselves.
unfoldable pub cancel_record : Json → Option CancelRecord
unfolding shape finite_number actor_id signed_integer boolean_value safe_integer
cancel_record value = do
  ms ← shape value cancel_allowed cancel_required
  at_ ← finite_number (← field ms (codes "at")) 0
  actor_ ← actor_id (← field ms (codes "actor"))
  pid ← signed_integer (← field ms (codes "backendPid")) 2147483648 2147483647
  forwarded_ ← boolean_value (← field ms (codes "forwarded"))
  connection_ ← optional ms (codes "connection") (λ c. safe_integer c 0)
  step_ ← optional ms (codes "step") (λ index. safe_integer index 0)
  some (record {
    at = at_;
    actor = actor_;
    backend_pid = pid;
    forwarded = forwarded_;
    connection = connection_;
    step = step_;
  })

module _ (trace : List TraceStep) (connection_keys : List Text) (duration_ms : ℕ) where
  -- A forwarded request names a recorded connection, and its backend where a step ran on it.
  unfoldable pub is_forwarded_to : Text → ℤ → ℕ → Bool
  unfolding pids_by_connection
  is_forwarded_to actor backend_pid connection =
      let key = lane_key actor connection in
      is_live backend_pid
      && has key connection_keys
      && elim (lookup key (pids_by_connection [] trace)) [
        | none ↦ true
        | some pid ↦ is_pid backend_pid pid
      ]

  -- What is said of the step that a request hit.
  unfoldable pub is_step_right : CancelRecord → Bool
  is_step_right cancel = elim cancel.step [
    | none ↦ not (cancel.forwarded && any (is_missed cancel) trace)
    | some index ↦
        cancel.forwarded
        && elim (get_elem? trace index) [ none ↦ false | some step ↦ is_hit cancel step ]
  ]

  -- One request, after the arrival of the one before it.
  unfoldable pub cancel_value : ℕ → Json → Option CancelRecord
  unfolding cancel_record is_forwarded_to is_step_right
  cancel_value before value = do
    cancel ← cancel_record value
    guard (leb cancel.at duration_ms && leb before cancel.at)
    guard (bool_eq cancel.forwarded (is_some cancel.connection))
    guard (elim cancel.connection [
      | none ↦ true
      | some c ↦ is_forwarded_to cancel.actor cancel.backend_pid c
    ])
    guard (is_step_right cancel)
    some cancel

  unfoldable pub cancels_from : ℕ → List Json → Option (List CancelRecord)
  unfolding cancel_value
  cancels_from before [] = some []
  cancels_from before (value ∷ values) = do
    cancel ← cancel_value before value
    cancels ← cancels_from cancel.at values
    some (cancel ∷ cancels)

  unfoldable pub validate_cancels : Json → Option (List CancelRecord)
  unfolding array_value cancels_from
  validate_cancels value = do
    values ← array_value value max_array_items
    guard (not (length values == 0))
    cancels_from 0 values
