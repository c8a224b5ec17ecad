-- ===== src/Artifacts/Samples.antt =====
-- Recorded runs as values: two actors of version 1, and lanes, pairs and stages of later versions.
use interleave.Prelude.{ℕ, zero, suc, ◌*◌, pos, true, List, [], ◌∷◌, Text, Dict, codes}
use interleave.Artifacts.Json.{
  Json, boolean, string, array, object, Items, nil, cons, Members, end, member, finite, one,
}

abbrev pub arr_items : List Json → Items
arr_items [] = nil
arr_items (v ∷ vs) = cons v (arr_items vs)

abbrev pub arr : List Json → Json
arr vs = array (arr_items vs)

abbrev pub obj_members : Dict Json → Members
obj_members [] = end
obj_members ((k, v) ∷ ms) = member k v (obj_members ms)

abbrev pub obj : Dict Json → Json
obj ms = object (obj_members ms)

abbrev pub num : ℕ → Json
unfolding one
num n = Json.number (finite (pos (n * one)))

abbrev pub repeat : ℕ → ℕ → Text
repeat zero c = []
repeat (suc n) c = c ∷ repeat n c

abbrev pub digest_a : Json
digest_a = string (repeat 64 97)

abbrev pub text_json : Text → Json
text_json t = string t

-- A completion of one command.
abbrev pub one_row : Json
one_row = obj (
    (codes "transactionStatus", string (codes "I"))
    ∷ (codes "commandTags", arr (string (codes "SELECT 1") ∷ []))
    ∷ (codes "rowCount", num 1)
    ∷ [])

abbrev pub wait_on : ℕ → ℕ → Json
wait_on pid blocker = obj (
    (codes "pid", num pid)
    ∷ (codes "blockerPids", arr (num blocker ∷ []))
    ∷ (codes "waitEvent", string (codes "transactionid"))
    ∷ (codes "waitEventType", string (codes "Lock"))
    ∷ [])

-- The step of an actor's first connection, at an index, released and completed at two times.
abbrev pub step_json :
    (index : ℕ) (actor : Text) (ordinal pid : ℕ) (available waits : List Json) (released done : ℕ)
    → Dict Json
    → Json
step_json index actor ordinal pid available waits released done more = obj (
    (codes "index", num index)
    ∷ (codes "actor", string actor)
    ∷ (codes "connection", num 0)
    ∷ (codes "ordinal", num ordinal)
    ∷ (codes "protocol", string (codes "simple"))
    ∷ (codes "sql", string (codes "SELECT 1"))
    ∷ (codes "fingerprint", digest_a)
    ∷ (codes "backendPid", num pid)
    ∷ (codes "available", arr available)
    ∷ (codes "releasedAt", num released)
    ∷ (codes "completedAt", num done)
    ∷ (codes "completion", one_row)
    ∷ (codes "waits", arr waits)
    ∷ more)

abbrev pub fulfilled_json : Text → Json
fulfilled_json actor = obj (
    (codes "actor", string actor)
    ∷ (codes "status", string (codes "fulfilled"))
    ∷ (codes "value", obj ((codes "balance", num 10) ∷ []))
    ∷ [])

abbrev pub reader : Text
reader = codes "reader"

abbrev pub writer : Text
writer = codes "writer"

abbrev pub first_json : Json
first_json = step_json 0 reader 0 123 (string reader ∷ string writer ∷ []) [] 0 2 []

abbrev pub second_json : Json
second_json = step_json 1 writer 0 124 (string writer ∷ []) (wait_on 124 123 ∷ []) 3 5 []

abbrev pub passed_run : Json
passed_run = obj (
    (codes "schemaVersion", num 1)
    ∷ (codes "scenario", string (codes "lost update"))
    ∷ (codes "outcome", string (codes "passed"))
    ∷ (codes "mode", string (codes "explore"))
    ∷ (codes "plan", arr (string reader ∷ string writer ∷ []))
    ∷ (codes "trace", arr (first_json ∷ second_json ∷ []))
    ∷ (codes "actors", arr (fulfilled_json reader ∷ fulfilled_json writer ∷ []))
    ∷ (
      codes "environment",
      obj (
          (codes "serverVersion", string (codes "17.4"))
          ∷ (codes "nodeVersion", string (codes "22.18.0"))
          ∷ []),
    )
    ∷ (codes "startedAt", string (codes "2026-09-08T00:00:00.000Z"))
    ∷ (codes "durationMs", num 5)
    ∷ (codes "limits", obj ((codes "maxSteps", num 100) ∷ (codes "timeoutMs", num 1000) ∷ []))
    ∷ (codes "cleanup", obj ((codes "complete", boolean true) ∷ []))
    ∷ [])
