-- ===== src/Artifacts/Completions.antt =====
-- artifact-schema.ts: the completions of steps.
use interleave.Prelude.{
  ℕ, Bool, true, false, ◌&&◌, not, Option, none, some, List, [], ◌∷◌, ◌++◌, Text, Dict, codes,
  text_eq, length, any, leb, ◌==◌, guard, ◌>>=◌, ◌>>◌, traverse,
}
use interleave.Types.{
  CopyTransfer, copy_in, copy_out, ErrorInfo, idle, transaction, failed, ReadyCompletion,
  MetadataCompletion, described, metadata_error, ResultShape, rows, no_data, FlushCompletion,
  UnitCompletion, ready, metadata, is_some,
}
use interleave.Artifacts.Json.{Json, boolean}
use interleave.Artifacts.Fields.{
  shape, plain_record, field, has_own, array_value, bounded_string, enum_value, literal,
  safe_integer, fingerprint_value, is_sqlstate, max_general_string_bytes,
}

abbrev pub max_command_tags : ℕ
max_command_tags = 10000

abbrev pub max_blocker_pids : ℕ
max_blocker_pids = 10000

-- The value of an optional member, where it is there.
abbrev pub optional {ℓ} : {A : Type ℓ} → Dict Json → Text → (Json → Option A) → Option (Option A)
optional ms key check = elim (field ms key) [
  | none ↦ some none
  | some value ↦ do parsed ← check value; some (some parsed)
]

-- The names that follow the others when a condition holds.
abbrev pub when {ℓ} : {A : Type ℓ} → Bool → List A → List A
when true names = names
when false names = []

abbrev error_keys : List Text
error_keys = codes "code" ∷ codes "message" ∷ []

unfoldable pub error_value : Json → Option ErrorInfo
unfolding shape bounded_string
error_value value = do
  ms ← shape value error_keys error_keys
  code ← bounded_string (← field ms (codes "code")) 5 5
  guard (is_sqlstate code)
  message ← bounded_string (← field ms (codes "message")) 0 max_general_string_bytes
  some (record { code = code; message = message })

abbrev pub empty_sha256 : Text
empty_sha256 = codes "e3b0c44298fc1c149afbf4c8996fb92427ae41e4649b934ca495991b7852b855"

abbrev copy_keys : List Text
copy_keys = codes "direction" ∷ codes "bytes" ∷ codes "sha256" ∷ []

abbrev pub bool_eq : Bool → Bool → Bool
bool_eq true b = b
bool_eq false b = not b

unfoldable pub copy_transfer : Json → Option CopyTransfer
unfolding shape enum_value safe_integer fingerprint_value
copy_transfer value = do
  ms ← shape value copy_keys copy_keys
  direction ←
      enum_value (← field ms (codes "direction"))
        ((codes "in", copy_in) ∷ (codes "out", copy_out) ∷ [])
  bytes ← safe_integer (← field ms (codes "bytes")) 0
  sha256 ← fingerprint_value (← field ms (codes "sha256"))
  guard (bool_eq (bytes == 0) (text_eq sha256 empty_sha256))
  some (record { direction = direction; bytes = bytes; sha256 = sha256 })

unfoldable pub validate_copy_transfers : Json → Option (List CopyTransfer)
unfolding array_value copy_transfer traverse
validate_copy_transfers value = do
  values ← array_value value max_command_tags
  guard (not (length values == 0))
  traverse copy_transfer values

unfoldable pub command_tags_value : Json → Option (List Text)
unfolding array_value traverse bounded_string
command_tags_value value = do
  tags ← array_value value max_command_tags
  traverse (λ tag. bounded_string tag 0 1024) tags

abbrev or_empty : Option (List CopyTransfer) → List CopyTransfer
or_empty none = []
or_empty (some copy) = copy

abbrev metadata_keys : Bool → List Text
metadata_keys true =
    codes "kind"
    ∷ codes "result"
    ∷ codes "parameterCount"
    ∷ codes "columnCount"
    ∷ codes "resultShape"
    ∷ []
metadata_keys false = codes "kind" ∷ codes "result" ∷ codes "error" ∷ []

abbrev is_no_data : ResultShape → Bool
is_no_data no_data = true
is_no_data rows = false

unfoldable pub described_value : Dict Json → Option MetadataCompletion
unfolding safe_integer enum_value
described_value ms = do
  parameter_count ← safe_integer (← field ms (codes "parameterCount")) 0
  column_count ← safe_integer (← field ms (codes "columnCount")) 0
  guard (leb parameter_count 65535 && leb column_count 65535)
  result_shape ←
      enum_value (← field ms (codes "resultShape"))
        ((codes "rows", rows) ∷ (codes "no-data", no_data) ∷ [])
  guard (not (is_no_data result_shape && not (column_count == 0)))
  some (described parameter_count column_count result_shape)

unfoldable pub validate_metadata_completion : Json → Option MetadataCompletion
unfolding plain_record enum_value shape literal error_value described_value
validate_metadata_completion value = do
  record_ ← plain_record value
  is_described ←
      enum_value (← field record_ (codes "result"))
        ((codes "described", true) ∷ (codes "error", false) ∷ [])
  ms ← shape value (metadata_keys is_described) (metadata_keys is_described)
  literal (← field ms (codes "kind")) (codes "metadata")
  elim is_described [
    | true ↦ described_value ms
    | false ↦ do error ← error_value (← field ms (codes "error")); some (metadata_error error)
  ]

module _ (staged copies : Bool) where
  abbrev ready_required : List Text
  ready_required =
      (codes "transactionStatus" ∷ codes "commandTags" ∷ codes "rowCount" ∷ [])
      ++ when staged (codes "kind" ∷ [])

  abbrev ready_allowed : List Text
  ready_allowed = codes "error" ∷ ready_required ++ when copies (codes "copy" ∷ [])

  -- `kind` is there in staged records only.
  abbrev ready_kind : Dict Json → Option (Unit {0})
  unfolding literal
  ready_kind ms = elim staged [
    | true ↦ do kind ← field ms (codes "kind"); literal kind (codes "ready")
    | false ↦ some tt
  ]

  unfoldable pub ready_value : Json → Option ReadyCompletion
  unfolding shape enum_value command_tags_value safe_integer error_value validate_copy_transfers
      literal
  ready_value value = do
    ms ← shape value ready_allowed ready_required
    ready_kind ms
    status ←
        enum_value (← field ms (codes "transactionStatus"))
          ((codes "I", idle) ∷ (codes "T", transaction) ∷ (codes "E", failed) ∷ [])
    tags ← command_tags_value (← field ms (codes "commandTags"))
    row_count ← safe_integer (← field ms (codes "rowCount")) 0
    error ← optional ms (codes "error") error_value
    copy ← optional ms (codes "copy") validate_copy_transfers
    some (record {
      transaction_status = status;
      command_tags = tags;
      row_count = row_count;
      error = error;
      copy = or_empty copy;
    })

  unfoldable pub validate_completion : Json → Bool → Option UnitCompletion
  unfolding ready_value validate_metadata_completion
  validate_completion value true = do
    completion ← validate_metadata_completion value
    some (metadata completion)
  validate_completion value false = do completion ← ready_value value; some (ready completion)

abbrev pub is_literal_true : Json → Option (Unit {0})
is_literal_true (boolean true) = some tt
is_literal_true _ = none

module _ (copies : Bool) where
  abbrev flush_required : List Text
  flush_required = codes "kind" ∷ codes "commandTags" ∷ codes "rows" ∷ []

  abbrev flush_allowed : List Text
  flush_allowed =
      codes "suspended" ∷ codes "error" ∷ flush_required ++ when copies (codes "copy" ∷ [])

  unfoldable pub validate_flush_completion : Json → Option FlushCompletion
  unfolding shape literal command_tags_value safe_integer error_value validate_copy_transfers
  validate_flush_completion value = do
    ms ← shape value flush_allowed flush_required
    literal (← field ms (codes "kind")) (codes "flush")
    tags ← command_tags_value (← field ms (codes "commandTags"))
    row_count ← safe_integer (← field ms (codes "rows")) 0
    suspended_ ← optional ms (codes "suspended") is_literal_true
    guard (not (has_own ms (codes "error") && has_own ms (codes "suspended")))
    error ← optional ms (codes "error") error_value
    copy ← optional ms (codes "copy") validate_copy_transfers
    some (record {
      command_tags = tags;
      rows = row_count;
      suspended = is_some suspended_;
      error = error;
      copy = or_empty copy;
    })

-- `new Set(values).size === values.length`
abbrev pub is_unique {ℓ} : {A : Type ℓ} → (A → A → Bool) → List A → Bool
is_unique eq [] = true
is_unique eq (x ∷ xs) = not (any (eq x) xs) && is_unique eq xs
