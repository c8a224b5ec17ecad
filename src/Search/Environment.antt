-- ===== src/Search/Environment.antt =====
-- environment.ts, replay-readiness.ts, completed-run.ts and cli/status.ts: comparing starting
-- conditions, what exact replay needs of a record, and exit codes.
use interleave.Prelude.{
  ℕ, Bool, true, false, ◌&&◌, ◌||◌, not, Option, none, some, text_eq, any, ◌==◌, if◌then◌else◌,
}
use interleave.Types.{
  Environment, FixtureIdentity, TransportIdentity, Upstream, plaintext, tls_verify_full, RunResult,
  TraceStep, Outcome, passed, violation, actor_error, incompatible, inconclusive, harness_error,
  option_eq, is_some,
}

unfoldable pub upstream_matches : Upstream → Upstream → Bool
upstream_matches plaintext plaintext = true
upstream_matches plaintext (tls_verify_full n l h s t r) = false
upstream_matches (tls_verify_full n l h s t r) plaintext = false
upstream_matches (tls_verify_full n l h s t r) (tls_verify_full n' l' h' s' t' r') =
    text_eq n n' && text_eq l l' && text_eq h h' && text_eq s s' && text_eq t t' && text_eq r r'

unfoldable pub transport_matches : TransportIdentity → Option TransportIdentity → Bool
unfolding upstream_matches
transport_matches expected none = false
transport_matches expected (some actual) =
    expected.version == actual.version
    && text_eq expected.frontend actual.frontend
    && text_eq expected.authentication actual.authentication
    && upstream_matches expected.upstream actual.upstream

abbrev fixture_matches : Option FixtureIdentity → Option FixtureIdentity → Bool
fixture_matches (some fixture) (some captured) =
    fixture.version == captured.version
    && text_eq fixture.profile captured.profile
    && text_eq fixture.algorithm captured.algorithm
    && text_eq fixture.fingerprint captured.fingerprint
fixture_matches none captured = false
fixture_matches (some fixture) none = false

abbrev transport_allows : Option TransportIdentity → Option TransportIdentity → Bool
transport_allows none actual = true
transport_allows (some expected) actual = transport_matches expected actual

unfoldable pub environment_matches : Environment → Environment → Bool
unfolding transport_matches
environment_matches expected actual =
    text_eq expected.server_version actual.server_version
    && text_eq expected.node_version actual.node_version
    && option_eq text_eq expected.source actual.source
    && transport_allows expected.transport actual.transport
    && fixture_matches expected.fixture actual.fixture

abbrev pub is_violation : Outcome → Bool
is_violation violation = true
is_violation _ = false

abbrev pub is_hard : Outcome → Bool
is_hard actor_error = true
is_hard harness_error = true
is_hard _ = false

abbrev pub is_inconclusive : Outcome → Bool
is_inconclusive inconclusive = true
is_inconclusive _ = false

-- Outcomes of an execution that ran to its end.
abbrev pub is_completed : Outcome → Bool
is_completed passed = true
is_completed violation = true
is_completed actor_error = true
is_completed _ = false

pub data MissingIdentity : Type 0 where
  no_connections no_fixture no_transport : MissingIdentity

unfoldable pub missing_replay_identity : RunResult → Option MissingIdentity
missing_replay_identity run =
    if not (is_some run.connections)
    then some no_connections
    else if not (is_some run.environment.fixture)
    then some no_fixture
    else if not (is_some run.environment.transport)
    then some no_transport
    else none

-- `assertCompletedRun`: whether it does not throw.
unfoldable pub is_completed_run : RunResult → Bool
is_completed_run run =
    is_completed run.outcome
    && run.cleanup.complete
    && not (
        any (λ (step : TraceStep). not (is_some step.completion) || not (is_some step.completed_at))
          run.trace)

abbrev outcome_code : Outcome → ℕ
outcome_code passed = 0
outcome_code violation = 1
outcome_code actor_error = 2
outcome_code harness_error = 2
outcome_code incompatible = 3
outcome_code inconclusive = 4

unfoldable pub run_exit_code : RunResult → ℕ
run_exit_code run = if run.cleanup.complete then outcome_code run.outcome else 2
