-- ===== src/Artifacts/Limits.antt =====
-- artifact-schema.ts: the limits, the cleanup and the start of a recorded run.
use interleave.Prelude.{
  ℕ, ◌*◌, ◌%◌, ◌-◌, Bool, true, false, ◌&&◌, ◌||◌, not, Option, none, some, List, [], ◌∷◌, ◌++◌,
  Text, Dict, codes, text_eq, length, all, is_digit, get_elem?, take, drop, leb, ◌==◌,
  if◌then◌else◌, guard, ◌>>=◌, ◌>>◌, number,
}
use interleave.Types.{
  Limits, Cleanup, ProtocolProfile, sync_cycle, describe_flush, flush_stages, ConnectionProfile,
  single_producer, multi_producer, OverlapMode, pairs,
}
use interleave.Artifacts.Json.{Json}
use interleave.Artifacts.Fields.{
  shape, field, has_own, bounded_string, enum_value, safe_integer, boolean_value,
  max_general_string_bytes,
}
use interleave.Artifacts.Completions.{optional, when, bool_eq}

-- The protocol profiles that a version knows.
abbrev pub profile_names : ℕ → Dict ProtocolProfile
profile_names version =
    (codes "sync-cycle-v1", sync_cycle)
    ∷ (codes "describe-flush-v1", describe_flush)
    ∷ when (version == 5) ((codes "flush-stages-v1", flush_stages) ∷ [])

abbrev pub connection_names : Dict ConnectionProfile
connection_names =
    (codes "single-producer-v1", single_producer) ∷ (codes "multi-producer-v1", multi_producer) ∷ []

abbrev pub overlap_names : Dict OverlapMode
overlap_names = (codes "pairs", pairs) ∷ []

abbrev is_describe_flush_v1 : ProtocolProfile → Bool
is_describe_flush_v1 describe_flush = true
is_describe_flush_v1 sync_cycle = false
is_describe_flush_v1 flush_stages = false

module _ (version : ℕ) where
  abbrev limits_required : List Text
  limits_required =
      (codes "maxSteps" ∷ codes "timeoutMs" ∷ [])
      ++ when (not (version == 1)) (codes "protocolProfile" ∷ [])
      ++ when (leb 4 version) (codes "maxConnectionsPerActor" ∷ codes "connectionProfile" ∷ [])

  abbrev limits_allowed : List Text
  limits_allowed =
      codes "maxEvidenceBytes" ∷ codes "maxConnectionsPerActor" ∷ limits_required
      ++ when (leb 4 version) (codes "overlap" ∷ [])

  -- The names of the profiles were read at the start; version 2 has one profile.
  unfoldable pub limits_value : Json → Option Limits
  unfolding shape enum_value safe_integer
  limits_value value = do
    ms ← shape value limits_allowed limits_required
    protocol ← optional ms (codes "protocolProfile") (λ p. enum_value p (profile_names version))
    guard (not (version == 2) || elim protocol [ none ↦ false | some p ↦ is_describe_flush_v1 p ])
    connection ← optional ms (codes "connectionProfile") (λ p. enum_value p connection_names)
    overlap_ ← optional ms (codes "overlap") (λ p. enum_value p overlap_names)
    steps ← safe_integer (← field ms (codes "maxSteps")) 1
    timeout ← safe_integer (← field ms (codes "timeoutMs")) 1
    connections ← optional ms (codes "maxConnectionsPerActor") (λ n. safe_integer n 1)
    guard (elim connections [ none ↦ true | some n ↦ leb n 8 ])
    evidence ← optional ms (codes "maxEvidenceBytes") (λ n. safe_integer n 1024)
    guard (elim evidence [ none ↦ true | some n ↦ leb n (12 * 1024 * 1024) ])
    some (record {
      max_steps = steps;
      timeout_ms = timeout;
      max_evidence_bytes = evidence;
      max_connections_per_actor = connections;
      protocol_profile = protocol;
      connection_profile = connection;
      overlap = overlap_;
    })

unfoldable pub cleanup_value : Json → Option Cleanup
unfolding shape boolean_value bounded_string
cleanup_value value = do
  ms ← shape value (codes "complete" ∷ codes "error" ∷ []) (codes "complete" ∷ [])
  complete_ ← boolean_value (← field ms (codes "complete"))
  guard (not (bool_eq complete_ (has_own ms (codes "error"))))
  error_ ← optional ms (codes "error") (λ e. bounded_string e 0 max_general_string_bytes)
  some (record { complete = complete_; error = error_ })

-- The number that the digits from a place on write.
abbrev digits_at : ℕ → ℕ → Text → ℕ
digits_at start count t = number (take count (drop start t))

-- The form `dddd-dd-ddTdd:dd:dd`, then a fraction of one to nine digits or none, then `Z`.
abbrev pattern_text : Text
pattern_text = codes "dddd-dd-ddTdd:dd:dd"

abbrev fits_pattern : Text → Text → Bool
fits_pattern [] [] = true
fits_pattern [] (c ∷ cs) = false
fits_pattern (p ∷ ps) [] = false
fits_pattern (p ∷ ps) (c ∷ cs) = (if p == 100 then is_digit c else p == c) && fits_pattern ps cs

-- The end of the text after its seconds.
abbrev ends_timestamp : Text → Bool
ends_timestamp [] = false
ends_timestamp (c ∷ cs) =
    let count = length cs - 1 in
    text_eq (c ∷ cs) (codes "Z")
    || (c == 46
        && leb 1 count
        && leb count 9
        && all is_digit (take count cs)
        && text_eq (drop count cs) (codes "Z"))

abbrev pub is_leap_year : ℕ → Bool
is_leap_year year = year % 4 == 0 && (not (year % 100 == 0) || year % 400 == 0)

abbrev pub days_in : ℕ → List ℕ
days_in year =
    let february = if is_leap_year year then 29 else 28 in
    31 ∷ february ∷ 31 ∷ 30 ∷ 31 ∷ 30 ∷ 31 ∷ 31 ∷ 30 ∷ 31 ∷ 30 ∷ 31 ∷ []

abbrev is_day : ℕ → ℕ → ℕ → Bool
is_day year month day = elim (get_elem? (days_in year) (month - 1)) [
  | none ↦ false
  | some days ↦ leb 1 month && leb 1 day && leb day days
]

unfoldable pub is_timestamp : Text → Bool
is_timestamp t =
    fits_pattern pattern_text (take 19 t)
    && ends_timestamp (drop 19 t)
    && is_day (digits_at 0 4 t) (digits_at 5 2 t) (digits_at 8 2 t)
    && leb (digits_at 11 2 t) 23
    && leb (digits_at 14 2 t) 59
    && leb (digits_at 17 2 t) 59

unfoldable pub validate_timestamp : Json → Option Text
unfolding bounded_string is_timestamp
validate_timestamp value = do
  timestamp ← bounded_string value 1 64
  guard (is_timestamp timestamp)
  some timestamp
