-- ===== src/Artifacts/Environment.antt =====
-- artifact-schema.ts: the environment of a recorded run.
use interleave.Prelude.{
  ℕ, Bool, true, false, ◌&&◌, ◌||◌, Option, none, some, List, [], ◌∷◌, ◌++◌, Text, Dict, codes,
  text_eq, take, drop, leb, ◌==◌, if◌then◌else◌, guard, ◌>>=◌, ◌>>◌, traverse,
}
use interleave.Types.{
  FixtureIdentity, Upstream, plaintext, tls_verify_full, TransportIdentity, Environment,
}
use interleave.Artifacts.Json.{Json}
use interleave.Artifacts.Fields.{
  shape, plain_record, field, bounded_string, enum_value, literal, safe_integer, fingerprint_value,
  is_space,
}
use interleave.Artifacts.Completions.{optional, when}
use interleave.Artifacts.Source.Identity.{source_fingerprint}

-- A text that is one of some.
abbrev one_of : Json → List Text → Option Text
one_of value allowed = enum_value value (pair_up allowed)
  where
    pair_up : List Text → Dict Text
    pair_up [] = []
    pair_up (t ∷ ts) = (t, t) ∷ pair_up ts

-- The version 1 of an identity.
abbrev pub version_1 : Json → Option (Unit {0})
version_1 value = do version ← safe_integer value 0; guard (version == 1)

abbrev fixture_keys : List Text
fixture_keys =
    codes "version"
    ∷ codes "profile"
    ∷ codes "algorithm"
    ∷ codes "fingerprint"
    ∷ codes "components"
    ∷ codes "counts"
    ∷ []

abbrev pub fixture_profiles : List Text
fixture_profiles =
    codes "postgresql16-native-v1"
    ∷ codes "postgresql17-native-v1"
    ∷ codes "postgresql18-native-v1"
    ∷ codes "postgresql17-pgvector0.8.6-v1"
    ∷ []

abbrev component_names : List Text
component_names = codes "schema" ∷ codes "data" ∷ codes "sequences" ∷ codes "settings" ∷ []

abbrev count_names : List Text
count_names = codes "objects" ∷ codes "rows" ∷ codes "bytes" ∷ []

unfoldable pub validate_fixture_identity : Json → Option FixtureIdentity
unfolding shape safe_integer enum_value literal fingerprint_value traverse
validate_fixture_identity value = do
  fixture ← shape value fixture_keys fixture_keys
  version_1 (← field fixture (codes "version"))
  profile ← one_of (← field fixture (codes "profile")) fixture_profiles
  literal (← field fixture (codes "algorithm")) (codes "sha256")
  fingerprint ← fingerprint_value (← field fixture (codes "fingerprint"))
  components ← shape (← field fixture (codes "components")) component_names component_names
  digests ← traverse (λ name. field components name >>= fingerprint_value) component_names
  counts ← shape (← field fixture (codes "counts")) count_names count_names
  numbers ← traverse (λ name. field counts name >>= λ count. safe_integer count 0) count_names
  some (record {
    version = 1;
    profile = profile;
    algorithm = codes "sha256";
    fingerprint = fingerprint;
  })

-- /^(16|17|18)(?:\.|\s|$)/
abbrev ends_major : Text → Bool
ends_major [] = true
ends_major (c ∷ cs) = c == 46 || is_space c

unfoldable pub server_major : Text → Option Text
server_major version =
    let major = take 2 version in
    let is_known =
      text_eq major (codes "16") || text_eq major (codes "17") || text_eq major (codes "18") in
    if is_known && ends_major (drop 2 version) then some major else none

unfoldable pub fixture_matches : Text → Text → Bool
unfolding server_major
fixture_matches server_version profile = elim (server_major server_version) [
  | none ↦ false
  | some major ↦
      text_eq profile ((codes "postgresql" ++ major) ++ codes "-native-v1")
      || (text_eq major (codes "17") && text_eq profile (codes "postgresql17-pgvector0.8.6-v1"))
]

abbrev tls_keys : List Text
tls_keys =
    codes "profile"
    ∷ codes "negotiation"
    ∷ codes "minVersion"
    ∷ codes "maxVersion"
    ∷ codes "trustSource"
    ∷ codes "trustFingerprint"
    ∷ codes "referenceFingerprint"
    ∷ []

unfoldable pub upstream_value : Json → Option Upstream
unfolding plain_record shape enum_value literal fingerprint_value
upstream_value value = do
  record_ ← plain_record value
  is_plain ←
      enum_value (← field record_ (codes "profile"))
        ((codes "plaintext-v1", true) ∷ (codes "tls-verify-full-v1", false) ∷ [])
  let keys = if is_plain then codes "profile" ∷ [] else tls_keys
  ms ← shape value keys keys
  elim is_plain [
    | true ↦ some plaintext
    | false ↦ do
      literal (← field ms (codes "negotiation")) (codes "postgres-sslrequest-v1")
      literal (← field ms (codes "minVersion")) (codes "TLSv1.2")
      literal (← field ms (codes "maxVersion")) (codes "TLSv1.3")
      source ←
          one_of (← field ms (codes "trustSource")) (codes "node-bundled" ∷ codes "custom-ca" ∷ [])
      trust ← fingerprint_value (← field ms (codes "trustFingerprint"))
      reference ← fingerprint_value (← field ms (codes "referenceFingerprint"))
      some (
          tls_verify_full (codes "postgres-sslrequest-v1") (codes "TLSv1.2") (codes "TLSv1.3")
            source trust reference)
  ]

abbrev transport_keys : List Text
transport_keys = codes "version" ∷ codes "frontend" ∷ codes "authentication" ∷ codes "upstream" ∷ []

unfoldable pub validate_transport_identity : Json → Option TransportIdentity
unfolding shape safe_integer literal upstream_value
validate_transport_identity value = do
  ms ← shape value transport_keys transport_keys
  version_1 (← field ms (codes "version"))
  literal (← field ms (codes "frontend")) (codes "loopback-plaintext-v1")
  literal (← field ms (codes "authentication")) (codes "passthrough-no-channel-binding-v1")
  upstream ← upstream_value (← field ms (codes "upstream"))
  some (record {
    version = 1;
    frontend = codes "loopback-plaintext-v1";
    authentication = codes "passthrough-no-channel-binding-v1";
    upstream = upstream;
  })

module _ (version : ℕ) where
  abbrev has_transport : Bool
  has_transport = leb 3 version

  abbrev environment_required : List Text
  environment_required =
      codes "serverVersion" ∷ codes "nodeVersion" ∷ when has_transport (codes "transport" ∷ [])

  unfoldable pub environment_value : Json → Option Environment
  unfolding shape bounded_string validate_fixture_identity validate_transport_identity
      fixture_matches
  environment_value value = do
    ms ← shape value (codes "fixture" ∷ codes "source" ∷ environment_required) environment_required
    server ← bounded_string (← field ms (codes "serverVersion")) 1 256
    node ← bounded_string (← field ms (codes "nodeVersion")) 1 256
    fixture_ ← optional ms (codes "fixture") validate_fixture_identity
    guard (elim fixture_ [ none ↦ true | some f ↦ fixture_matches server f.profile ])
    source_ ← optional ms (codes "source") source_fingerprint
    transport_ ← optional ms (codes "transport") validate_transport_identity
    some (record {
      server_version = server;
      node_version = node;
      fixture = fixture_;
      source = source_;
      transport = transport_;
    })
