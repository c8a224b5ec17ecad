-- ===== src/Samples.antt =====
-- Recorded runs that the tests share: two increments of a counter, by `alice` and `bob`.
use interleave.Prelude.{ℕ, true, none, some, List, [], ◌∷◌, Text, codes}
use interleave.Types.{
  simple, idle, passed, explore, StepIdentity, TraceStep, UnitIdentity, RunResult, ready,
  multi_producer, ConnectionIdentity, sync_cycle,
}

abbrev pub alice : Text
alice = codes "alice"

abbrev pub bob : Text
bob = codes "bob"

abbrev pub unit_at : ℕ → UnitIdentity
unit_at n = record {
  ordinal = n;
  protocol = simple;
  sql = codes "SELECT 1";
  fingerprint = codes "f1";
  stage = none;
  cycle = none;
  prefix_ordinal = none;
}

abbrev pub step_by : Text → ℕ → ℕ → StepIdentity
step_by actor connection n = record { actor = actor; connection = connection; unit = unit_at n }

abbrev pub traced : StepIdentity → ℕ → List Text → TraceStep
traced identity index available = record {
  identity = identity;
  index = index;
  backend_pid = 100;
  available = available;
  released_at = index;
  completed_at = some index;
  completion = some (
      ready (record {
        transaction_status = idle;
        command_tags = [];
        row_count = 0;
        error = none;
        copy = [];
      }));
  waits = [];
  overlap = none;
}

abbrev pub startup_of : Text → ℕ → ConnectionIdentity
startup_of actor connection = record {
  actor = actor;
  connection = connection;
  fingerprint = codes "s";
}

-- A multi-producer run in which alice used two connections.
abbrev pub two_lanes : RunResult
two_lanes = record {
  schema_version = 4;
  scenario = codes "counter";
  outcome = passed;
  mode = explore;
  plan = [];
  connections = some (startup_of alice 0 ∷ startup_of alice 1 ∷ startup_of bob 0 ∷ []);
  trace =
      traced (step_by alice 0 0) 0 (codes "alice#0" ∷ codes "bob#0" ∷ [])
      ∷ traced (step_by bob 0 0) 1 (codes "bob#0" ∷ [])
      ∷ traced (step_by alice 1 0) 2 (codes "alice#1" ∷ [])
      ∷ [];
  cancels = none;
  actors = [];
  failure = none;
  reason = none;
  environment = record {
    server_version = codes "16.4";
    node_version = codes "v22";
    fixture = none;
    source = none;
    transport = none;
  };
  duration_ms = 10;
  limits = record {
    max_steps = 100;
    timeout_ms = 1000;
    max_evidence_bytes = none;
    max_connections_per_actor = some 8;
    protocol_profile = some sync_cycle;
    connection_profile = some multi_producer;
    overlap = none;
  };
  cleanup = record { complete = true; error = none };
}
