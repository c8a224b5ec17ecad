-- ===== src/Protocol/Session/Tests.antt =====
-- A named statement that is prepared, used and dropped.
use interleave.Prelude.{
  ℕ, ◌≡◌, refl, false, none, some, [], ◌∷◌, Bytes, codes, text_eq, lookup, insert, remove, arith,
}
use interleave.Types.{extended}
use interleave.Search.Explore.{choice_bytes, escaped_bytes}
use interleave.Protocol.Session.{
  Session, Statement, Journal, parsed, executed, reconcile, reconcile_operation, apply, is_terminal,
  remember_statement, forget, settle, statement_bytes, incomplete, metadata_limit,
}
use interleave.Protocol.Session.Accounting.{IsMetered}
use interleave.Protocol.Session.Reconciliation.{reconcile-IsMetered}

session_tests : Unit {0}
unfolding reconcile reconcile_operation apply is_terminal remember_statement forget settle
    statement_bytes choice_bytes escaped_bytes text_eq lookup insert remove
session_tests = tt

abbrev select : Statement
select = record { sql = codes "SELECT 1"; identity = codes "a1" }

abbrev empty : ℕ → Session
empty limit = record { statements = []; portals = []; metadata_bytes = 0; max_buffered = limit }

abbrev journal : ℕ → Journal
journal index = record {
  operations = parsed (codes "7331") select ∷ executed ∷ [];
  index = index;
  failed = false;
}

abbrev parse_complete : Bytes
parse_complete = 49 ∷ 0 ∷ 0 ∷ 0 ∷ 4 ∷ []

abbrev ready_for_query : Bytes
ready_for_query = 90 ∷ 0 ∷ 0 ∷ 0 ∷ 5 ∷ 73 ∷ []

installed_bytes :
    (reconcile (empty 100) extended (journal 0) parse_complete).session.metadata_bytes ≡ 38
unfolding session_tests
installed_bytes = refl

too_large : (reconcile (empty 37) extended (journal 0) parse_complete).error ≡ some metadata_limit
unfolding session_tests
too_large = refl

too_early : (reconcile (empty 100) extended (journal 1) ready_for_query).error ≡ some incomplete
unfolding session_tests
too_early = refl

empty-IsMetered : IsMetered (empty 100)
empty-IsMetered = record { statements = tt; portals = tt; exact = refl; within = omega arith }

installed_fine : (reconcile (empty 100) extended (journal 0) parse_complete).error ≡ none
unfolding session_tests
installed_fine = refl

reconcile-IsMetered_example :
    IsMetered (reconcile (empty 100) extended (journal 0) parse_complete).session
reconcile-IsMetered_example =
    reconcile-IsMetered (empty 100) extended (journal 0) parse_complete empty-IsMetered
      installed_fine

ended_fine : (reconcile (empty 100) extended (journal 2) ready_for_query).error ≡ none
unfolding session_tests
ended_fine = refl
