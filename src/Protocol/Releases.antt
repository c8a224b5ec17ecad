-- ===== src/Protocol/Releases.antt =====
-- protocol/frontend.ts, FrontendAssembler: the releases of a cycle in stages.
pub mod Acknowledged
pub mod Gathering
pub mod Messages
pub mod Proposals
pub mod Naming
pub mod Continuations
mod Tests
use interleave.Prelude.{
  ℕ, ◌≡◌, ◌&&◌, ◌||◌, not, Bool, true, false, Option, none, some, List, [], ◌∷◌, ◌++◌, map, Text,
  Bytes, codes, text_eq, length, drop, concat, ltb, ◌==◌, if◌then◌else◌,
}
use interleave.Types.{
  extended, StepStage, complete, describe, execute, recover, flush, sync, stage_eq, ErrorInfo,
  ProtocolProfile, sync_cycle, describe_flush, flush_stages, is_some,
}
use interleave.Protocol.Cycles.{type_of, is_flush, is_sync}
use interleave.Protocol.Session.{Statement, BackendOperation, parsed, Journal}
use interleave.Protocol.Reader.{
  AssemblerError, cycle_limit, expected_prefix, malformed_prefix, foreign_describe,
  invalid_continuation, sync_only, expected_continuation, foreign_bind, foreign_execute,
  limited_execute, incomplete_continuation, invalid_flush_stage, incomplete_flush_stage,
  invalid_flush_continuation, incomplete_flush_continuation, incomplete_unit, Result, error, ok,
  and_then, ◌>>=◌, ◌>>◌, throw_if, take_bytes, cstring, read_i32, finish,
}
use interleave.Protocol.Assembler.{Host, FrontendUnit, Assembler, hex, reset, assemble}

unfoldable pub fork : Assembler → Assembler
fork a = record {
  session = a.session;
  frames = [];
  backend_operations = [];
  executions = [];
  dependencies = [];
  operations = [];
  bytes = 0;
  flushes = a.flushes;
}

-- `frames.map(frame => String.fromCharCode(frame[0])).join('')`
abbrev pub has_types : Text → List Bytes → Bool
has_types types frames = text_eq (map type_of frames) types

-- A Parse, a Describe and a Flush without fields.
abbrev pub is_prefix_release : List Bytes → Bool
is_prefix_release (parse ∷ named ∷ end ∷ []) =
    has_types (codes "PDH") (parse ∷ named ∷ end ∷ []) && length end == 5
is_prefix_release _ = false

-- A Sync without fields, by itself.
abbrev pub is_bare_sync : List Bytes → Bool
is_bare_sync (frame ∷ []) = is_sync frame && length frame == 5
is_bare_sync _ = false

-- `frames.at(-1)?.[0] === 72`
abbrev pub ends_in_flush : List Bytes → Bool
ends_in_flush [] = false
ends_in_flush (frame ∷ []) = is_flush frame
ends_in_flush (frame ∷ next ∷ frames) = ends_in_flush (next ∷ frames)

abbrev pub no_operations : Journal
no_operations = record { operations = []; index = 0; failed = false }

abbrev pub first_parsed : List BackendOperation → Result (Text × Statement)
first_parsed (parsed name statement ∷ operations) = ok (name, statement)
first_parsed _ = error malformed_prefix

-- The Describe names the statement that the Parse before it prepares.
unfoldable pub check_described : Bytes → Text → Result (Unit {0})
unfolding take_bytes cstring finish
check_described frame name = do
  byte ← take_bytes 1 (drop 5 frame)
  throw_if (not (text_eq byte.0 (codes "S"))) foreign_describe
  described ← cstring byte.1
  throw_if (not (text_eq (hex described.0) name)) foreign_describe
  finish described.1

-- The Bind is of the prefix's statement, and the Execute of its portal, without a row limit.
unfoldable pub check_continuation : Bytes → Bytes → Text → Result (Unit {0})
unfolding cstring read_i32 finish
check_continuation bind execute_ name = do
  portal ← cstring (drop 5 bind)
  source ← cstring portal.1
  throw_if (not (text_eq (hex source.0) name)) foreign_bind
  target ← cstring (drop 5 execute_)
  throw_if (not (text_eq (hex target.0) (hex portal.0))) foreign_execute
  count ← read_i32 target.1
  throw_if (not (count.0 == 0)) limited_execute
  finish count.1

-- The statement that a prefix's unit described.
abbrev pub prefix_name : FrontendUnit → Result Text
prefix_name prefix = elim prefix.stage [
  | some describe ↦ elim prefix.statement_name [
    | none ↦ error invalid_continuation
    | some name ↦ ok name
  ]
  | _ ↦ error invalid_continuation
]

abbrev pub is_open_stage : Option StepStage → Bool
is_open_stage none = false
is_open_stage (some stage) = stage_eq stage flush || stage_eq stage describe

module _ (names : Bytes) (frame : Bytes) where
  -- Whether the Describe names what the Parse names; a message that cannot be read does not.
  unfoldable pub names_same : Bool
  unfolding cstring take_bytes
  names_same =
      let read : Result Bool = do
        name ← cstring (drop 5 names)
        byte ← take_bytes 1 (drop 5 frame)
        if not (text_eq byte.0 (codes "S"))
            then ok false
            else (cstring byte.1 >>= λ described. ok (text_eq described.0 name.0))
      in elim read [ error e ↦ false | ok same ↦ same ]

unfoldable pub is_describe_prefix : List Bytes → Bool
unfolding names_same
is_describe_prefix (parse ∷ named ∷ end ∷ []) =
    is_prefix_release (parse ∷ named ∷ end ∷ []) && names_same parse named
is_describe_prefix _ = false

module _ (h : Host) where
  -- The messages of a release in order, with what the last one gave.
  unfoldable pub accept_each :
      Assembler → Option FrontendUnit → List Bytes → Result (Assembler × Option FrontendUnit)
  accept_each a unit [] = ok (a, unit)
  accept_each a unit (frame ∷ frames) = do
    next ← assemble h a frame
    accept_each next.0 next.1 frames

  -- The unit that the messages of a release end in.
  unfoldable pub accept_unit :
      AssemblerError → Assembler → List Bytes → Result (Assembler × FrontendUnit)
  unfolding accept_each
  accept_unit refusal a frames = do
    accepted ← accept_each a none frames
    elim accepted.1 [ none ↦ error refusal | some unit ↦ ok (accepted.0, unit) ]

  abbrev pub stage_unit : StepStage → List Text → FrontendUnit → FrontendUnit
  stage_unit stage identity unit = record unit {
    stage = some stage;
    fingerprint = h.hash_texts identity;
  }

  -- After an error only a Sync may follow.
  unfoldable pub recover_unit : Text → FrontendUnit → List Bytes → Result FrontendUnit
  recover_unit profile previous frames = do
    throw_if (not (is_bare_sync frames)) sync_only
    ok (record {
      protocol = extended;
      sql = previous.sql;
      fingerprint = h.hash_texts (profile ∷ codes "recover" ∷ previous.fingerprint ∷ []);
      bytes = concat frames;
      stage = some recover;
      statement_name = none;
      reconciliation = no_operations;
    })

  unfoldable pub describe_messages :
      Assembler → Bytes → Bytes → Bytes → Result (Assembler × FrontendUnit)
  unfolding check_described reset
  describe_messages a parse named end = do
    prepared ← assemble h a parse
    first ← first_parsed prepared.0.backend_operations
    check_described named first.0
    done ← assemble h prepared.0 named
    ok (
      reset done.0,
      record {
        protocol = extended;
        sql = first.1.sql;
        fingerprint =
            h.hash_texts (codes "describe-flush-v1" ∷ codes "describe" ∷ first.1.identity ∷ []);
        bytes = concat (parse ∷ named ∷ end ∷ []);
        stage = some describe;
        statement_name = some first.0;
        reconciliation = record {
          operations = done.0.backend_operations;
          index = 0;
          failed = false;
        };
      },
    )

  unfoldable pub describe_unit : Assembler → List Bytes → Result (Assembler × FrontendUnit)
  unfolding describe_messages
  describe_unit a (parse ∷ named ∷ end ∷ []) = do
    throw_if (not (a.bytes == 0) || not (is_prefix_release (parse ∷ named ∷ end ∷ [])))
        expected_prefix
    throw_if (ltb a.session.max_buffered (length (concat (parse ∷ named ∷ end ∷ [])))) cycle_limit
    describe_messages a parse named end
  describe_unit a _ = error expected_prefix

  unfoldable pub continue_bound :
      Assembler → FrontendUnit → Text → List Bytes → Result (Assembler × FrontendUnit)
  unfolding check_continuation accept_unit
  continue_bound a prefix name (bind ∷ execute_ ∷ end ∷ []) = do
    throw_if (not (has_types (codes "BES") (bind ∷ execute_ ∷ end ∷ []))) expected_continuation
    check_continuation bind execute_ name
    accepted ← accept_unit incomplete_continuation a (bind ∷ execute_ ∷ end ∷ [])
    ok (
      accepted.0,
      stage_unit execute
          (codes "describe-flush-v1"
            ∷ codes "execute"
            ∷ prefix.fingerprint
            ∷ accepted.1.fingerprint
            ∷ [])
          accepted.1,
    )
  continue_bound a prefix name _ = error expected_continuation

  -- `failed` is whether the stage before ended in an error.
  unfoldable pub continuation :
      Assembler → FrontendUnit → Bool → List Bytes → Result (Assembler × FrontendUnit)
  unfolding recover_unit continue_bound
  continuation a prefix failed frames = do
    throw_if (not (a.bytes == 0)) invalid_continuation
    name ← prefix_name prefix
    if failed
        then (recover_unit (codes "describe-flush-v1") prefix frames >>= λ unit. ok (a, unit))
        else continue_bound a prefix name frames

  unfoldable pub flush_stage : Assembler → List Bytes → Result (Assembler × FrontendUnit)
  unfolding accept_unit
  flush_stage a frames = do
    throw_if (not (a.bytes == 0) || not (ends_in_flush frames)) invalid_flush_stage
    accepted ← accept_unit incomplete_flush_stage a frames
    ok (
      accepted.0,
      stage_unit flush (codes "flush-stages-v1" ∷ codes "flush" ∷ accepted.1.fingerprint ∷ [])
          accepted.1,
    )

  -- A later stage; one without a text of its own has the text of the stage before.
  unfoldable pub flush_more :
      Assembler → FrontendUnit → List Bytes → Result (Assembler × FrontendUnit)
  unfolding accept_unit
  flush_more a previous frames = do
    accepted ← accept_unit incomplete_flush_continuation a frames
    let more = ends_in_flush frames
    let text = if text_eq accepted.1.sql [] then previous.sql else accepted.1.sql
    ok (
      accepted.0,
      stage_unit (if more then flush else sync)
          (codes "flush-stages-v1"
            ∷ (if more then codes "flush" else codes "sync")
            ∷ previous.fingerprint
            ∷ accepted.1.fingerprint
            ∷ [])
          (record accepted.1 { sql = text }),
    )

  unfoldable pub flush_continuation :
      Assembler → FrontendUnit → Bool → List Bytes → Result (Assembler × FrontendUnit)
  unfolding recover_unit flush_more
  flush_continuation a previous failed frames = do
    throw_if (not (a.bytes == 0) || not (is_open_stage previous.stage)) invalid_flush_continuation
    if failed
        then (recover_unit (codes "flush-stages-v1") previous frames >>= λ unit. ok (a, unit))
        else flush_more a previous frames
