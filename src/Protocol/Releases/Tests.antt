-- ===== src/Protocol/Releases/Tests.antt =====
-- A describe stage and its continuation, proposed and acknowledged.
use interleave.Prelude.{
  ◌≡◌, refl, if◌then◌else◌, Bool, true, false, none, some, List, [], ◌∷◌, ◌++◌, Bytes, Text, codes,
  text_eq, lookup, insert, concat, inr, length,
}
use interleave.Types.{describe_flush}
use interleave.Search.Explore.{choice_bytes, escaped_bytes}
use interleave.Protocol.Messages.{split_zero, u16}
use interleave.Protocol.Cycles.Grouping.{IsCycle}
use interleave.Protocol.Session.{
  statement_bytes, portal_bytes, remember_statement, remember_portal, is_terminal,
}
use interleave.Protocol.Reader.{
  ok, error, cstring, read_u16, read_i32, take_bytes, finish, skip_bind, skip_formats, skip_values,
  limited_execute,
}
use interleave.Protocol.Assembler.{
  Host, Assembler, FrontendUnit, assemble, accept_extended, accept_parse, accept_bind,
  accept_execute, accept_named, name_target, find_target, find_statement, find_portal,
  install_statement, install_portal, hex, unit_of, reset, others, additional, join,
}
use interleave.Protocol.Releases.{
  fork, describe_unit, describe_messages, check_described, continuation, continue_bound,
  check_continuation, accept_unit, accept_each, is_describe_prefix,
}
use interleave.Protocol.Announcements.{propose, propose_next, propose_first}
use interleave.Protocol.Releases.Acknowledged.{reconcile_all}
use interleave.Protocol.Releases.Proposals.{propose-acknowledged}
use interleave.Protocol.Releases.Continuations.{RunsStatement, continuation-RunsStatement}

release_tests : Unit {0}
unfolding propose propose_next propose_first fork describe_unit describe_messages check_described
    continuation continue_bound check_continuation accept_unit accept_each is_describe_prefix
    assemble accept_extended accept_parse accept_bind accept_execute accept_named name_target
    find_target find_statement find_portal cstring read_u16 read_i32 take_bytes finish skip_bind
    skip_formats skip_values install_statement install_portal hex unit_of reset others additional
    join split_zero u16 remember_statement remember_portal statement_bytes portal_bytes choice_bytes
    escaped_bytes lookup insert text_eq is_terminal
release_tests = tt

abbrev plain : Host
plain = record {
  hash = λ b. [];
  hash_text = λ t. [];
  hash_extended = λ ids. [];
  hash_texts = concat;
  utf8 = λ b. b;
}

abbrev fresh : Assembler
fresh = record {
  session = record { statements = []; portals = []; metadata_bytes = 0; max_buffered = 500 };
  frames = [];
  backend_operations = [];
  executions = [];
  dependencies = [];
  operations = [];
  bytes = 0;
  flushes = false;
}

-- A message of a type, with some fields.
abbrev message : Text → Bytes → Bytes
message type fields = type ++ (0 ∷ 0 ∷ 0 ∷ 0 ∷ fields)

-- The statement `s` with the text `X`, and its Describe.
abbrev describe_body : List Bytes
describe_body =
    message (codes "P") (115 ∷ 0 ∷ 88 ∷ 0 ∷ 0 ∷ 0 ∷ [])
    ∷ message (codes "D") (83 ∷ 115 ∷ 0 ∷ [])
    ∷ []

abbrev flush_frame : Bytes
flush_frame = message (codes "H") []

abbrev describe_frames : List Bytes
describe_frames = describe_body ++ flush_frame ∷ []

describe_frames-IsCycle : IsCycle describe_frames
describe_frames-IsCycle =
    inr (describe_body, flush_frame, refl, ((refl, refl, refl), ((refl, refl, refl), tt)), refl)

-- A Bind of `s` to the unnamed portal, its Execute with a row limit, and a Sync.
abbrev continue_frames : Bytes → List Bytes
continue_frames count =
    message (codes "B") (0 ∷ 115 ∷ 0 ∷ 0 ∷ 0 ∷ 0 ∷ 0 ∷ 0 ∷ 0 ∷ [])
    ∷ message (codes "E") (0 ∷ count)
    ∷ message (codes "S") []
    ∷ []

described_s :
    (made : Assembler × FrontendUnit) × (propose plain describe_flush fresh none describe_frames
      ≡ ok (some made))
unfolding release_tests
described_s = (_, refl)

-- The server's ParseComplete and RowDescription.
abbrev answers : List Bytes
answers = message (codes "1") [] ∷ message (codes "T") [] ∷ []

propose-acknowledged_example :
    (described_s.0.1.bytes ≡ concat describe_frames)
    × (reconcile_all fresh.session described_s.0.1.protocol described_s.0.1.reconciliation answers
        ≡ record {
          session = described_s.0.0.session;
          journal = record described_s.0.1.reconciliation {
            index = length described_s.0.1.reconciliation.operations;
          };
          error = none;
        })
unfolding release_tests described_s
propose-acknowledged_example =
    propose-acknowledged plain describe_flush fresh described_s.0.0 none describe_frames answers
      described_s.0.1 describe_frames-IsCycle described_s.1 (refl, (refl, tt))

continued_s :
    (made : Assembler × FrontendUnit) × (continuation plain described_s.0.0 described_s.0.1 false
        (continue_frames (0 ∷ 0 ∷ 0 ∷ 0 ∷ []))
      ≡ ok made)
unfolding release_tests described_s
continued_s = (_, refl)

-- While the describe stage is under way nothing is proposed; then its continuation is.
stages_wait :
    (complete : Bool)
    → propose plain describe_flush described_s.0.0
        (some (record { original = described_s.0.1; complete = complete; error = none }))
        (continue_frames (0 ∷ 0 ∷ 0 ∷ 0 ∷ []))
      ≡ (if complete then ok (some continued_s.0) else ok none)
unfolding release_tests described_s continued_s
stages_wait true = refl
stages_wait false = refl

limited_refused :
    continuation plain described_s.0.0 described_s.0.1 false (continue_frames (0 ∷ 0 ∷ 0 ∷ 5 ∷ []))
    ≡ error limited_execute
unfolding release_tests described_s
limited_refused = refl

continuation-RunsStatement_example :
    RunsStatement described_s.0.0.session
      (codes "73")
      (continue_frames (0 ∷ 0 ∷ 0 ∷ 0 ∷ []))
      continued_s.0.1.reconciliation.operations
unfolding release_tests described_s
continuation-RunsStatement_example =
    continuation-RunsStatement plain described_s.0.0 continued_s.0.0 described_s.0.1 continued_s.0.1
      (codes "73") (continue_frames (0 ∷ 0 ∷ 0 ∷ 0 ∷ []))
      (record { no_frames = refl; nothing_queued = refl }) refl continued_s.1
