-- ===== src/Protocol/Assembler/Tests.antt =====
-- A Parse and a Sync, as one unit.
use interleave.Prelude.{
  ◌≡◌, refl, false, none, some, [], ◌∷◌, ◌++◌, Bytes, codes, text_eq, lookup, insert, arith, concat,
}
use interleave.Types.{extended}
use interleave.Search.Explore.{choice_bytes, escaped_bytes}
use interleave.Protocol.Messages.{split_zero, u16}
use interleave.Protocol.Session.{statement_bytes, remember_statement, parsed}
use interleave.Protocol.Session.Accounting.{IsMetered}
use interleave.Protocol.Assembler.{
  Host, Assembler, assemble, accept_extended, accept_parse, install_statement, hex, unit_of, reset,
  others, additional, join, accept_execute, find_portal,
}
use interleave.Protocol.Reader.{ok, error, cstring, read_u16, take_bytes, finish, unknown_portal}
use interleave.Protocol.Assembler.Metadata.{assemble-IsMetered}

assembler_tests : Unit {0}
unfolding assemble accept_extended accept_parse accept_execute find_portal cstring read_u16
    take_bytes finish install_statement hex unit_of reset others additional join split_zero u16
    remember_statement statement_bytes choice_bytes escaped_bytes lookup insert text_eq
assembler_tests = tt

-- Hashes and decoding that keep the bytes.
abbrev plain : Host
plain = record {
  hash = λ b. b;
  hash_text = λ t. t;
  hash_extended = λ ids. [];
  hash_texts = concat;
  utf8 = λ b. b;
}

abbrev fresh : Assembler
fresh = record {
  session = record { statements = []; portals = []; metadata_bytes = 0; max_buffered = 100 };
  frames = [];
  backend_operations = [];
  executions = [];
  dependencies = [];
  operations = [];
  bytes = 0;
  flushes = false;
}

-- The statement `s` with the text `X` and no parameter types.
abbrev parse_frame : Bytes
parse_frame = 80 ∷ 0 ∷ 0 ∷ 0 ∷ 10 ∷ 115 ∷ 0 ∷ 88 ∷ 0 ∷ 0 ∷ 0 ∷ []

abbrev sync_frame : Bytes
sync_frame = 83 ∷ 0 ∷ 0 ∷ 0 ∷ 4 ∷ []

prepared : (a : Assembler) × (assemble plain fresh parse_frame ≡ ok (a, none))
unfolding assembler_tests
prepared = (_, refl)

synced :
    assemble plain prepared.0 sync_frame
    ≡ ok (
      reset prepared.0,
      some (record {
        protocol = extended;
        sql = codes "X";
        fingerprint = [];
        bytes = parse_frame ++ sync_frame;
        stage = none;
        statement_name = none;
        reconciliation = record {
          operations =
              parsed (codes "73") (record { sql = codes "X"; identity = 88 ∷ 0 ∷ [] }) ∷ [];
          index = 0;
          failed = false;
        };
      }),
    )
unfolding assembler_tests prepared
synced = refl

no_portal :
    assemble plain fresh (69 ∷ 0 ∷ 0 ∷ 0 ∷ 9 ∷ 0 ∷ 0 ∷ 0 ∷ 0 ∷ 0 ∷ []) ≡ error unknown_portal
unfolding assembler_tests
no_portal = refl

fresh-IsMetered : IsMetered fresh.session
fresh-IsMetered = record { statements = tt; portals = tt; exact = refl; within = omega arith }

assemble-IsMetered_example : IsMetered prepared.0.session
assemble-IsMetered_example =
    assemble-IsMetered plain fresh prepared.0 none parse_frame fresh-IsMetered prepared.1
