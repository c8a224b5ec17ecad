-- ===== src/Artifacts/Outcomes.antt =====
-- artifact-schema.ts: the waits of steps, the results of actors and failures.
use interleave.Prelude.{
  ℕ, not, Option, some, List, [], ◌∷◌, Text, Dict, codes, length, ◌==◌, guard, ◌>>=◌, ◌>>◌,
  traverse,
}
use interleave.Types.{WaitObservation, ActorResult, ActorStatus, fulfilled, rejected, Failure}
use interleave.Artifacts.Json.{Json}
use interleave.Artifacts.Fields.{
  shape, field, has_own, array_value, bounded_string, enum_value, literal, safe_integer,
  fingerprint_value, actor_id, max_general_string_bytes, max_artifact_bytes,
}
use interleave.Artifacts.Safety.{assert_json_safe, actor_value_wrapper_depth, new_counter}
use interleave.Artifacts.Completions.{max_blocker_pids, optional, is_unique}

abbrev wait_keys : List Text
wait_keys = codes "pid" ∷ codes "blockerPids" ∷ codes "waitEvent" ∷ codes "waitEventType" ∷ []

unfoldable pub validate_wait : ℕ → Json → Option WaitObservation
unfolding shape safe_integer array_value traverse literal bounded_string
validate_wait backend_pid value = do
  ms ← shape value wait_keys wait_keys
  pid ← safe_integer (← field ms (codes "pid")) 1
  guard (pid == backend_pid)
  blockers ← array_value (← field ms (codes "blockerPids")) max_blocker_pids
  guard (not (length blockers == 0))
  blocker_pids ← traverse (λ blocker. safe_integer blocker 1) blockers
  guard (is_unique ◌==◌ blocker_pids)
  event_type ← field ms (codes "waitEventType")
  literal event_type (codes "Lock")
  wait_event ← bounded_string (← field ms (codes "waitEvent")) 1 256
  wait_event_type ← bounded_string event_type 1 256
  some (record {
    pid = pid;
    blocker_pids = blocker_pids;
    wait_event = wait_event;
    wait_event_type = wait_event_type;
  })

unfoldable pub actor_outcome : Dict Json → ActorStatus → Option (Unit {0})
unfolding assert_json_safe bounded_string
actor_outcome ms fulfilled = do
  guard (not (has_own ms (codes "error")))
  checked ←
      optional ms (codes "value")
        (λ value. assert_json_safe max_artifact_bytes value actor_value_wrapper_depth new_counter)
  some tt
actor_outcome ms rejected = do
  guard (not (has_own ms (codes "value")))
  message ← bounded_string (← field ms (codes "error")) 0 max_general_string_bytes
  some tt

unfoldable pub validate_actor_result : Json → Option ActorResult
unfolding shape actor_id enum_value actor_outcome
validate_actor_result value = do
  ms ←
      shape value (codes "actor" ∷ codes "status" ∷ codes "value" ∷ codes "error" ∷ [])
        (codes "actor" ∷ codes "status" ∷ [])
  actor ← actor_id (← field ms (codes "actor"))
  status ←
      enum_value (← field ms (codes "status"))
        ((codes "fulfilled", fulfilled) ∷ (codes "rejected", rejected) ∷ [])
  actor_outcome ms status
  some (record { actor = actor; status = status })

abbrev failure_keys : List Text
failure_keys = codes "name" ∷ codes "message" ∷ codes "fingerprint" ∷ []

unfoldable pub validate_failure : Json → Option Failure
unfolding shape bounded_string fingerprint_value
validate_failure value = do
  ms ← shape value failure_keys failure_keys
  name ← bounded_string (← field ms (codes "name")) 1 256
  message ← bounded_string (← field ms (codes "message")) 0 max_general_string_bytes
  fingerprint ← fingerprint_value (← field ms (codes "fingerprint"))
  some (record { name = name; message = message; fingerprint = fingerprint })
