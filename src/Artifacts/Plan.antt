-- ===== src/Artifacts/Plan.antt =====
-- artifact-schema.ts, `parseRunArtifact`: the version of a record, its plan and its connections.
use interleave.Prelude.{
  ℕ, Bool, true, false, ◌&&◌, ◌||◌, not, Option, none, some, List, [], ◌∷◌, Text, Dict, codes,
  text_eq, has, lookup, insert, length, map, leb, ltb, ◌==◌, if◌then◌else◌, guard, ◌>>=◌, ◌>>◌,
  traverse,
}
use interleave.Types.{
  ProtocolProfile, sync_cycle, describe_flush, flush_stages, ConnectionIdentity, option_eq, is_some,
  is_multi,
}
use interleave.Lanes.Labels.{PlanEntry, split_on, plus_sign, max_plan_choice_length}
use interleave.Artifacts.Json.{Json, string}
use interleave.Artifacts.Fields.{
  shape, plain_record, field, array_value, bounded_string, enum_value, safe_integer, actor_id,
  lane_value_or_actor, fingerprint_value, lane_key, max_array_items,
}
use interleave.Artifacts.Completions.{optional}
use interleave.Artifacts.Steps.{Dialect}
use interleave.Artifacts.Limits.{profile_names, connection_names, overlap_names}

abbrev pub is_flush_stages_v1 : ProtocolProfile → Bool
is_flush_stages_v1 flush_stages = true
is_flush_stages_v1 sync_cycle = false
is_flush_stages_v1 describe_flush = false

abbrev is_sync_cycle : ProtocolProfile → Bool
is_sync_cycle sync_cycle = true
is_sync_cycle describe_flush = false
is_sync_cycle flush_stages = false

unfoldable pub version_value : Json → Option ℕ
unfolding safe_integer
version_value value = do version ← safe_integer value 1; guard (leb version 5); some version

module _ (version : ℕ) where
  -- The profile that the limits name from version 3 on, or that the version stands for.
  unfoldable pub protocol_of : Dict Json → Option ProtocolProfile
  unfolding enum_value
  protocol_of limits =
      if leb 3 version
      then (do
        named ← field limits (codes "protocolProfile")
        enum_value named (profile_names version))
      else some (if version == 2 then describe_flush else sync_cycle)

  unfoldable pub names_lanes : Dict Json → Option Bool
  unfolding enum_value
  names_lanes limits =
      if leb 4 version
      then (do
        named ← field limits (codes "connectionProfile")
        profile ← enum_value named connection_names
        some (is_multi profile))
      else some false

  unfoldable pub overlap_of : Dict Json → Option Bool
  unfolding enum_value
  overlap_of limits =
      if leb 4 version
      then (do
        mode ← optional limits (codes "overlap") (λ o. enum_value o overlap_names)
        some (is_some mode))
      else some false

  unfoldable pub dialect_of : Json → Option Dialect
  unfolding plain_record protocol_of names_lanes overlap_of
  dialect_of value = do
    limits ← plain_record value
    profile ← protocol_of limits
    lanes ← names_lanes limits
    overlap ← overlap_of limits
    guard (not (version == 4 && not lanes && not overlap))
    some (record {
      staged = not (is_sync_cycle profile);
      lanes = lanes;
      overlap = overlap;
      version_5 = version == 5;
      flush_stages = is_flush_stages_v1 profile;
    })

module _ (d : Dialect) where
  -- The parts that a choice names: two around a `+` where steps may be paired.
  abbrev choice_parts : Json → Option (List Json)
  unfolding bounded_string
  choice_parts value =
      if d.overlap
      then (do
        t ← bounded_string value 1 max_plan_choice_length
        some (map string (split_on plus_sign t)))
      else some (value ∷ [])

  abbrev entry_value : Json → Option PlanEntry
  unfolding lane_value_or_actor actor_id
  entry_value part =
      if d.lanes
      then lane_value_or_actor part
      else (do actor ← actor_id part; some (record { actor = actor; connection = none }))

  abbrev is_same_connection : Option ℕ → Option ℕ → Bool
  is_same_connection none b = false
  is_same_connection (some m) b = option_eq ◌==◌ (some m) b

  -- A choice that names one lane, or one actor where there are no lanes, as both of its entries.
  abbrev pub is_conflicting : List PlanEntry → Bool
  is_conflicting (a ∷ b ∷ []) =
      text_eq a.actor b.actor && (not d.lanes || is_same_connection a.connection b.connection)
  is_conflicting _ = false

  unfoldable pub choice_entries : Json → Option (List PlanEntry)
  unfolding bounded_string lane_value_or_actor actor_id traverse
  choice_entries value = do
    parts ← choice_parts value
    guard (leb (length parts) 2)
    entries ← traverse entry_value parts
    guard (not (is_conflicting entries))
    some entries

  unfoldable pub plan_value : Json → Option (List (List PlanEntry))
  unfolding array_value choice_entries traverse
  plan_value value = do choices ← array_value value max_array_items; traverse choice_entries choices

abbrev connection_names_of : List Text
connection_names_of = codes "actor" ∷ codes "connection" ∷ codes "fingerprint" ∷ []

unfoldable pub connection_value : Json → Option ConnectionIdentity
unfolding shape actor_id safe_integer fingerprint_value
connection_value value = do
  ms ← shape value connection_names_of connection_names_of
  actor ← actor_id (← field ms (codes "actor"))
  connection ← safe_integer (← field ms (codes "connection")) 0
  fingerprint ← fingerprint_value (← field ms (codes "fingerprint"))
  some (record { actor = actor; connection = connection; fingerprint = fingerprint })

abbrev pub is_later : Option ℕ → ℕ → Bool
is_later none connection = true
is_later (some previous) connection = ltb previous connection

abbrev pub connection_key : ConnectionIdentity → Text
connection_key c = lane_key c.actor c.connection

-- The startups: each actor's generations increase, and no key is there twice.
unfoldable pub connections_from : Dict ℕ → List Text → List Json → Option (List ConnectionIdentity)
unfolding connection_value
connections_from last keys [] = some []
connections_from last keys (value ∷ values) = do
  identity ← connection_value value
  guard (is_later (lookup identity.actor last) identity.connection)
  guard (not (has (connection_key identity) keys))
  let keys' = connection_key identity ∷ keys
  rest ← connections_from (insert identity.actor identity.connection last) keys' values
  some (identity ∷ rest)

unfoldable pub connections_value : Json → Option (List ConnectionIdentity)
unfolding array_value connections_from
connections_value value = do
  values ← array_value value max_array_items
  connections_from [] [] values
