-- ===== src/Lib.antt =====
-- Verification of Interleave, which runs the actors of a scenario against PostgreSQL through
-- proxies, decides the order in which their commands are released, searches orders that break an
-- invariant, and replays and shrinks them.
--
-- Parts. A proxy cuts each actor's byte stream into protocol frames; the scheduler sees each
-- connection as a lane with a queued command, chooses lanes by a plan or fairly, and on replay
-- binds live lanes to recorded ones.
--
-- - Framing models src/protocol/framing.ts: `Decoder` is FrameDecoder, `push` its method push with
--   the state that a throw leaves, `scan` the loop of push.
-- - Types models the records of src/types.ts.
-- - Lanes models src/lanes.ts: Labels the parsing of plan entries, Plans the validation of plans
--   and the plan of a trace, Fair the choice fairLane, Resolve the function resolvePlanEntry,
--   Binder the class LaneBinder with its maps, and Replay its methods mismatch and resolve, one
--   function for each method.
-- - Search/Limits models src/search-budget.ts and src/exploration-search.ts, Search/Environment
--   src/environment.ts, src/replay-readiness.ts, src/completed-run.ts and the exit code of a run
--   in src/cli/status.ts.
-- - Search/Minimize models src/minimize.ts from the verifying replay on: `judge` what an attempt
--   means, `try_chunk` a round of the inner loop, `pass` that loop, `reduction` the outer one.
-- - Search/Encoding and Search/Explore model src/explore.ts after the validation of options:
--   `offer` one alternative, `branch` the loops over the decisions of a run, `retain` and `assess`
--   what follows a run, `search_round` a round of the search. A plan stands for its JSON text,
--   with its bytes counted by `plan_bytes`; runs, the artifact parser, the answers of the budget
--   and the digest are parameters (`World`), which may answer differently at each attempt.
-- - Protocol/Cycles models FrontendCycleBuffer of src/protocol/frontend.ts: `accept` is its
--   method, `accept_all` a sequence of calls. Protocol/Messages and Protocol/Backend model
--   src/protocol/backend.ts: `backend_error`, and `summarize`, `await_flush` and `describe` for
--   the methods accept of BackendSummary, FlushSummary and MetadataSummary; the decoding of UTF-8
--   is the parameter `utf8`. Protocol/Session models the metadata of FrontendAssembler: `forget`,
--   `remember_statement` and `remember_portal` for remember, and `reconcile`; Protocol/Reader
--   models Reader, and Protocol/Assembler the function `assemble`, the method accept of
--   FrontendAssembler, with the hashes and the decoding as parameters (`Host`), and the state that
--   a throw leaves is not modelled, since a throw ends the session. Protocol/Releases models the
--   other methods of FrontendAssembler: `fork`, `describe_unit`, `continuation`,
--   `is_describe_prefix`, `flush_stage` and `flush_continuation`; Protocol/Announcements models
--   the choice between them in the function announce of src/proxy.ts. Protocol/Results has the
--   lemmas on results that the proofs share.
-- - Artifacts models src/artifact-schema.ts, the validation of recorded runs. Json has the values,
--   Fields the checks of one value, Safety assertJsonSafe, Serialize the size of the serialized
--   form, Completions the completions, Outcomes the waits, actor results and failures, Steps
--   validateTraceStep, Pairs validateOverlapPairs, Stages and FlushStages the two stage sequences,
--   Cancels validateCancels, Environment the environment, Limits the limits, cleanup and
--   timestamp, Plan the version, plan and connections, Trace the loops over steps, times and
--   blockers, Parts the checks between the parts of a record, and Parse the function
--   parseRunArtifact: `parse_run_value` on a value and `parse_run_text` on a text.
-- - Artifacts/Source models src/source-schema.ts: Source the checks of one value, Files the
--   manifests of files, Graph the packages and their edges, and Identity validateSourceIdentity,
--   of which parseRunArtifact keeps the fingerprint (`source_fingerprint`).
-- - Prelude holds the names, list lemmas, texts and maps that the modules share; Samples holds the
--   runs that the tests share.
--
-- Texts are lists of UTF-16 code units, byte buffers are lists of numbers, a Map is an association
-- list in insertion order. A method of a mutable object returns the new object. Errors are values:
-- a result type of the part, or none where the only error is one TypeError. In Artifacts a number
-- is a signed count of ticks of 2 ^ -1074, so that times and integers of any finite value are
-- exact, and an unusable one where it is not finite or negative zero. Messages of errors are not
-- modelled beyond the label and step that they name.
--
-- Fuel. The loop of push has the length of the buffer as fuel: each round cuts a frame of at least
-- five bytes, and Framing.Stream.scan-fuel shows that more fuel changes nothing. A reduction has
-- the limit on attempts as fuel and a pass the length of the plan, an exploration the limit on
-- runs; Search.Minimize.Fuel and Search.Explore.Results show that more changes nothing.
--
-- Parameters of the parsing of artifacts: the parse of JSON text, and the length of the numeral
-- that the language writes for a number.
--
-- Not modelled: sockets, timers, child processes, Docker, the PostgreSQL client, the file system
-- and hashing, which the parts above only call.
pub mod Prelude
pub mod Types
pub mod Samples
pub mod Framing
pub mod Lanes
pub mod Search
pub mod Protocol
pub mod Artifacts
