-- ===== src/Types.antt =====
-- types.ts: the records that the components exchange. Times are natural numbers of a unit small
-- enough for the clock; callbacks and client handles are left out.
use interleave.Prelude.{ℕ, ℤ, Bool, true, false, Option, none, some, List, Text, ◌==◌}

pub data ProtocolKind : Type 0 where
  simple extended : ProtocolKind

pub data ProtocolProfile : Type 0 where
  sync_cycle describe_flush flush_stages : ProtocolProfile

pub data ConnectionProfile : Type 0 where
  single_producer multi_producer : ConnectionProfile

pub data OverlapMode : Type 0 where
  pairs : OverlapMode

pub data StepStage : Type 0 where
  complete describe execute recover flush sync : StepStage

pub data TransactionStatus : Type 0 where
  idle transaction failed : TransactionStatus

pub data Outcome : Type 0 where
  passed violation actor_error incompatible inconclusive harness_error : Outcome

pub data RunMode : Type 0 where
  explore replay guided : RunMode

-- A value of unknown type where the program only tells apart an omitted value, a string and
-- anything else.
pub data Value : Type 0 where
  undefined other : Value
  text : Text → Value

pub record ErrorInfo : Type 0 where
  pub code : Text
  pub message : Text

pub data CopyDirection : Type 0 where
  copy_in copy_out : CopyDirection

pub record CopyTransfer : Type 0 where
  pub direction : CopyDirection
  pub bytes : ℕ
  pub sha256 : Text

pub record ReadyCompletion : Type 0 where
  pub transaction_status : TransactionStatus
  pub command_tags : List Text
  pub row_count : ℕ
  pub error : Option ErrorInfo
  pub copy : List CopyTransfer

pub data ResultShape : Type 0 where
  rows no_data : ResultShape

pub data MetadataCompletion : Type 0 where
  described : (parameter_count column_count : ℕ) → ResultShape → MetadataCompletion
  metadata_error : ErrorInfo → MetadataCompletion

pub record FlushCompletion : Type 0 where
  pub command_tags : List Text
  pub rows : ℕ
  pub suspended : Bool
  pub error : Option ErrorInfo
  pub copy : List CopyTransfer

pub data UnitCompletion : Type 0 where
  ready : ReadyCompletion → UnitCompletion
  metadata : MetadataCompletion → UnitCompletion
  flushed : FlushCompletion → UnitCompletion

pub record ConnectionIdentity : Type 0 where
  pub actor : Text
  pub connection : ℕ
  pub fingerprint : Text

pub record WaitObservation : Type 0 where
  pub pid : ℕ
  pub blocker_pids : List ℕ
  pub wait_event : Text
  pub wait_event_type : Text

-- lanes.ts: the identity of a queued or recorded unit.
pub record UnitIdentity : Type 0 where
  pub ordinal : ℕ
  pub protocol : ProtocolKind
  pub sql : Text
  pub fingerprint : Text
  pub stage : Option StepStage
  pub cycle : Option ℕ
  pub prefix_ordinal : Option ℕ

pub record StepIdentity : Type 0 where
  pub actor : Text
  pub connection : ℕ
  pub unit : UnitIdentity
  pub open unit use *

pub record TraceStep : Type 0 where
  pub identity : StepIdentity
  pub open identity use *
  pub index : ℕ
  pub backend_pid : ℕ
  pub available : List Text
  pub released_at : ℕ
  pub completed_at : Option ℕ
  pub completion : Option UnitCompletion
  pub waits : List WaitObservation
  pub overlap : Option ℕ

pub record CancelRecord : Type 0 where
  pub at : ℕ
  pub actor : Text
  pub backend_pid : ℤ
  pub forwarded : Bool
  pub connection : Option ℕ
  pub step : Option ℕ

pub record Failure : Type 0 where
  pub name : Text
  pub message : Text
  pub fingerprint : Text

pub data ActorStatus : Type 0 where
  fulfilled rejected : ActorStatus

pub record ActorResult : Type 0 where
  pub actor : Text
  pub status : ActorStatus

pub record FixtureIdentity : Type 0 where
  pub version : ℕ
  pub profile : Text
  pub algorithm : Text
  pub fingerprint : Text

-- postgres-transport.ts: the selected upstream policy.
pub data Upstream : Type 0 where
  plaintext : Upstream
  tls_verify_full :
      (negotiation min_version max_version trust_source trust_fingerprint
        reference_fingerprint : Text)
      → Upstream

pub record TransportIdentity : Type 0 where
  pub version : ℕ
  pub frontend : Text
  pub authentication : Text
  pub upstream : Upstream

pub record Environment : Type 0 where
  pub server_version : Text
  pub node_version : Text
  pub fixture : Option FixtureIdentity
  -- the source identity enters the comparisons by its fingerprint alone
  pub source : Option Text
  pub transport : Option TransportIdentity

pub record Limits : Type 0 where
  pub max_steps : ℕ
  pub timeout_ms : ℕ
  pub max_evidence_bytes : Option ℕ
  pub max_connections_per_actor : Option ℕ
  pub protocol_profile : Option ProtocolProfile
  pub connection_profile : Option ConnectionProfile
  pub overlap : Option OverlapMode

pub record Cleanup : Type 0 where
  pub complete : Bool
  pub error : Option Text

pub record RunResult : Type 0 where
  pub schema_version : ℕ
  pub scenario : Text
  pub outcome : Outcome
  pub mode : RunMode
  pub plan : List Text
  pub connections : Option (List ConnectionIdentity)
  pub trace : List TraceStep
  pub cancels : Option (List CancelRecord)
  pub actors : List ActorResult
  pub failure : Option Failure
  pub reason : Option Text
  pub environment : Environment
  pub duration_ms : ℕ
  pub limits : Limits
  pub cleanup : Cleanup

-- `===` on optional values.
abbrev pub option_eq {ℓ} : {A : Type ℓ} → (A → A → Bool) → Option A → Option A → Bool
option_eq eq none none = true
option_eq eq none (some b) = false
option_eq eq (some a) none = false
option_eq eq (some a) (some b) = eq a b

abbrev pub protocol_eq : ProtocolKind → ProtocolKind → Bool
protocol_eq simple simple = true
protocol_eq extended extended = true
protocol_eq simple extended = false
protocol_eq extended simple = false

abbrev pub stage_index : StepStage → ℕ
stage_index complete = 0
stage_index describe = 1
stage_index execute = 2
stage_index recover = 3
stage_index flush = 4
stage_index sync = 5

abbrev pub stage_eq : StepStage → StepStage → Bool
stage_eq a b = stage_index a == stage_index b

abbrev pub is_multi : ConnectionProfile → Bool
is_multi single_producer = false
is_multi multi_producer = true

-- `a ?? b`
abbrev pub or_else {ℓ} : {A : Type ℓ} → Option A → A → A
or_else none b = b
or_else (some a) b = a

abbrev pub is_some {ℓ} : {A : Type ℓ} → Option A → Bool
is_some none = false
is_some (some a) = true
