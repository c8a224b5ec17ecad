-- ===== src/Artifacts/Steps/Units.antt =====
-- The unit that a recorded step ran: its fingerprint, its stage and the members that go with it.
use interleave.Prelude.{
  ℕ, ◌≡◌, if◌then◌else◌, ◌>>=◌, sym, subst, true, ◌&&◌, not, Option, none, some, Text, Dict, codes,
  lookup, Option-cases, length, all, inl, inr, arith, bind-some, guard-some, some_injective,
}
use interleave.Types.{
  ProtocolKind, simple, extended, StepStage, complete, describe, execute, recover, flush, sync,
  UnitIdentity, UnitCompletion, ready, flushed, is_some, protocol_eq,
}
use interleave.Artifacts.Json.{Json, null, boolean, number, string, array, object, foreign}
use interleave.Artifacts.Fields.{
  field, safe_integer, enum_value, bounded_bytes, bounded_string, fingerprint_value, is_hex,
  max_sql_bytes,
}
use interleave.Artifacts.Completions.{optional, validate_completion, validate_flush_completion}
use interleave.Artifacts.Steps.{
  Dialect, is_stage, when_staged, prefix_value, unit_value, completion_value, is_recovery_clean,
}
use interleave.Artifacts.Steps.StageNames.{IsKnownStage, when_staged-IsKnownStage}

-- A stage other than a whole cycle is of the extended protocol.
abbrev pub FitsProtocol : Option StepStage → ProtocolKind → Type 0
FitsProtocol none protocol = Unit
FitsProtocol (some complete) protocol = Unit
FitsProtocol (some describe) protocol = protocol ≡ extended
FitsProtocol (some execute) protocol = protocol ≡ extended
FitsProtocol (some recover) protocol = protocol ≡ extended
FitsProtocol (some flush) protocol = protocol ≡ extended
FitsProtocol (some sync) protocol = protocol ≡ extended

-- The ordinal of the stage before: a continuation has one, a whole cycle, a prefix and a step without
-- a stage have none, and a Flush stage may.
abbrev pub FitsPrefix : Option StepStage → Option ℕ → Type 0
FitsPrefix none prefix = prefix ≡ none
FitsPrefix (some complete) prefix = prefix ≡ none
FitsPrefix (some describe) prefix = prefix ≡ none
FitsPrefix (some execute) prefix = is_some prefix ≡ true
FitsPrefix (some recover) prefix = is_some prefix ≡ true
FitsPrefix (some sync) prefix = is_some prefix ≡ true
FitsPrefix (some flush) prefix = Unit

pub record IsUnitOf (d : Dialect) (unit : UnitIdentity) : Type 0 where
  pub hash_length : length unit.fingerprint ≡ 64
  pub hash_digits : all is_hex unit.fingerprint ≡ true
  pub stage_there : is_some unit.stage ≡ d.staged
  pub cycle_there : is_some unit.cycle ≡ d.staged
  pub stage_known : IsKnownStage d.flush_stages unit.stage
  pub stage_protocol : FitsProtocol unit.stage unit.protocol
  pub stage_prefix : FitsPrefix unit.stage unit.prefix_ordinal

fingerprint_value-hash :
    (v : Json) (t : Text) → fingerprint_value v ≡ some t → (length t ≡ 64) × (all is_hex t ≡ true)
unfolding fingerprint_value bounded_string
fingerprint_value-hash (string s) t h = ground arith
fingerprint_value-hash null t h = cc
fingerprint_value-hash (boolean b) t h = cc
fingerprint_value-hash (number n) t h = cc
fingerprint_value-hash (array vs) t h = cc
fingerprint_value-hash (object ms) t h = cc
fingerprint_value-hash foreign t h = cc

when_staged-there :
    {A : Type 0} (d : Dialect) (value : Option A) (o : Option A)
    → when_staged d value ≡ some o
    → is_some o ≡ d.staged
when_staged-there d value o h = ground arith

FitsProtocol-lem :
    (stage : Option StepStage) (protocol : ProtocolKind)
    → not (is_some stage && not (is_stage stage complete) && protocol_eq protocol simple) ≡ true
    → FitsProtocol stage protocol
FitsProtocol-lem none protocol h = tt
FitsProtocol-lem (some complete) protocol h = tt
FitsProtocol-lem (some describe) protocol h = ground arith
FitsProtocol-lem (some execute) protocol h = ground arith
FitsProtocol-lem (some recover) protocol h = ground arith
FitsProtocol-lem (some flush) protocol h = ground arith
FitsProtocol-lem (some sync) protocol h = ground arith

prefix_value-fits :
    (d : Dialect) (ms : Dict Json) (stage : Option StepStage) (prefix : Option ℕ)
    → prefix_value d ms stage ≡ some prefix
    → FitsPrefix stage prefix
unfolding prefix_value
prefix_value-fits d ms none prefix h = ground arith
prefix_value-fits d ms (some complete) prefix h = ground arith
prefix_value-fits d ms (some describe) prefix h = ground arith
prefix_value-fits d ms (some execute) prefix h = ground arith
prefix_value-fits d ms (some recover) prefix h = ground arith
prefix_value-fits d ms (some sync) prefix h = ground arith
prefix_value-fits d ms (some flush) prefix h = tt

pub unit_value-IsUnitOf :
    (d : Dialect) (ms : Dict Json) (unit : UnitIdentity)
    → unit_value d ms ≡ some unit
    → IsUnitOf d unit
unfolding unit_value
unit_value-IsUnitOf d ms unit h =
    let (f0, e0, k0) = bind-some (field ms (codes "ordinal")) _ h in
    let (ordinal, e1, k1) = bind-some (safe_integer f0 0) _ k0 in
    let (f1, e2, k2) = bind-some (field ms (codes "protocol")) _ k1 in
    let (protocol, e3, k3) = bind-some (enum_value f1 _) _ k2 in
    let (f2, e4, k4) = bind-some (field ms (codes "sql")) _ k3 in
    let (sql, e5, k5) = bind-some (bounded_bytes f2 0 max_sql_bytes) _ k4 in
    let (f3, e6, k6) = bind-some (field ms (codes "fingerprint")) _ k5 in
    let (fingerprint, e7, k7) = bind-some (fingerprint_value f3) _ k6 in
    let (stage, e8, k8) = bind-some (when_staged d _) _ k7 in
    let (cycle, e9, k9) = bind-some (when_staged d _) _ k8 in
    let (prefix, e10, k10) = bind-some (prefix_value d ms stage) _ k9 in
    let (fits, k11) = guard-some _ _ k10 in
    let (long, hex) = fingerprint_value-hash f3 fingerprint e7 in
    subst (IsUnitOf d) (some_injective k11) (record {
      hash_length = long;
      hash_digits = hex;
      stage_there = when_staged-there d _ stage e8;
      cycle_there = when_staged-there d _ cycle e9;
      stage_known = when_staged-IsKnownStage d ms stage e8;
      stage_protocol = FitsProtocol-lem stage protocol fits;
      stage_prefix = prefix_value-fits d ms stage prefix e10;
    })

-- The Sync of a recovery completes with no tag, no row and no transfer.
abbrev pub FitsRecovery : Option StepStage → Option UnitCompletion → Type 0
FitsRecovery (some recover) (some (ready c)) =
    (length c.command_tags ≡ 0) × (c.row_count ≡ 0) × (length c.copy ≡ 0)
FitsRecovery _ _ = Unit

completion_value-fits :
    (d : Dialect) (stage : Option StepStage) (v : Json) (c : UnitCompletion)
    → completion_value d stage v ≡ some c
    → is_recovery_clean d stage c ≡ true
unfolding completion_value
completion_value-fits d stage v c h =
    let (completion, e, k) =
      bind-some
        (if is_stage stage flush
          then (do c ← validate_flush_completion d.version_5 v; some (flushed c))
          else validate_completion d.staged d.version_5 v (is_stage stage describe))
        _ h in
    let (clean, k1) = guard-some (is_recovery_clean d stage completion) _ k in
    subst (λ x. is_recovery_clean d stage x ≡ true) (some_injective k1) clean

FitsRecovery-lem :
    (d : Dialect) (stage : Option StepStage) (c : UnitCompletion)
    → is_recovery_clean d stage c ≡ true
    → FitsRecovery stage (some c)
unfolding is_recovery_clean
FitsRecovery-lem d none c h = tt
FitsRecovery-lem d (some complete) c h = tt
FitsRecovery-lem d (some describe) c h = tt
FitsRecovery-lem d (some execute) c h = tt
FitsRecovery-lem d (some flush) c h = tt
FitsRecovery-lem d (some sync) c h = tt
FitsRecovery-lem d (some recover) (UnitCompletion.metadata m) h = tt
FitsRecovery-lem d (some recover) (flushed c) h = tt
FitsRecovery-lem d (some recover) (ready c) h = ground arith

FitsRecovery-none : (stage : Option StepStage) → FitsRecovery stage none
FitsRecovery-none none = tt
FitsRecovery-none (some complete) = tt
FitsRecovery-none (some describe) = tt
FitsRecovery-none (some execute) = tt
FitsRecovery-none (some recover) = tt
FitsRecovery-none (some flush) = tt
FitsRecovery-none (some sync) = tt

pub optional-FitsRecovery :
    (d : Dialect) (ms : Dict Json) (stage : Option StepStage) (o : Option UnitCompletion)
    → optional ms (codes "completion") (completion_value d stage) ≡ some o
    → FitsRecovery stage o
optional-FitsRecovery d ms stage o h = elim (Option-cases (lookup (codes "completion") ms)) [
  | inl absent ↦
      let gone : o ≡ none = ground arith in
      subst (FitsRecovery stage) (sym gone) (FitsRecovery-none stage)
  | inr (v, e) ↦ elim (Option-cases (completion_value d stage v)) [
    | inl bad ↦ absurd (ground arith)
    | inr (c, e') ↦
        let found : o ≡ some c = ground arith in
        subst (FitsRecovery stage) (sym found)
          (FitsRecovery-lem d stage c (completion_value-fits d stage v c e'))
  ]
]
