-- ===== src/Artifacts/Fields.antt =====
-- artifact-schema.ts: the checks of one value, which every validator of a record is made of.
-- `none` stands for the TypeError that is thrown; its text is left out.
pub mod Utf8
use interleave.Prelude.{
  ℕ, zero, suc, ◌+◌, ◌-◌, ◌*◌, ◌/◌, ◌%◌, ◌^◌, Bool, true, false, ◌&&◌, ◌||◌, not, Option, none,
  some, List, [], ◌∷◌, ◌++◌, Text, Dict, ℤ, pos, negsuc, codes, has, text_eq, lookup, length, all,
  any, is_digit, ltb, leb, ◌==◌, if◌then◌else◌, guard, ◌>>=◌, ◌>>◌, number, decimal, map, traverse,
}
use interleave.Artifacts.Json.{
  Json, string, boolean, array, object, Number, finite, unusable, one, items, members,
}
use interleave.Types.{is_some}
use interleave.Lanes.Labels.{
  PlanEntry, Lane, is_name, is_letter, is_actor, is_generation, prototype_keys, span,
  parse_entry_text, with_generation, hash_sign, lane_label, starts_with_letter,
}

abbrev pub max_array_items : ℕ
max_array_items = 100000

abbrev pub max_general_string_bytes : ℕ
max_general_string_bytes = 64 * 1024

abbrev pub max_sql_bytes : ℕ
max_sql_bytes = 1024 * 1024

abbrev pub max_artifact_bytes : ℕ
max_artifact_bytes = 16 * 1024 * 1024

abbrev pub is_high_surrogate : ℕ → Bool
is_high_surrogate c = leb 55296 c && leb c 56319

abbrev pub is_low_surrogate : ℕ → Bool
is_low_surrogate c = leb 56320 c && leb c 57343

-- The bytes of a code unit that is not the first of a surrogate pair.
abbrev pub code_unit_bytes : ℕ → ℕ
code_unit_bytes c = if ltb c 128 then 1 else if ltb c 2048 then 2 else 3

-- The surrogates of a pair count four bytes together, a lone one three.
unfoldable pub utf8_byte_length : Text → ℕ
utf8_byte_length [] = 0
utf8_byte_length (c ∷ []) = code_unit_bytes c
utf8_byte_length (c ∷ d ∷ rest) =
    let after = utf8_byte_length rest in
    let next = utf8_byte_length (d ∷ rest) in
    if is_high_surrogate c && is_low_surrogate d then 4 + after else code_unit_bytes c + next

-- An object that may have members of any name but the sensitive ones.
unfoldable pub plain_record : Json → Option (Dict Json)
plain_record (object ms) =
    let record_ = members ms in
    if leb (length record_) max_array_items && not (any (λ (k, v). has k prototype_keys) record_)
    then some record_
    else none
plain_record _ = none

abbrev pub has_own : Dict Json → Text → Bool
has_own ms key = is_some (lookup key ms)

abbrev pub field : Dict Json → Text → Option Json
field ms key = lookup key ms

unfoldable pub shape : Json → List Text → List Text → Option (Dict Json)
unfolding plain_record
shape value allowed required = do
  ms ← plain_record value
  guard (all (λ (k, v). has k allowed) ms)
  guard (all (has_own ms) required)
  some ms

unfoldable pub array_value : Json → ℕ → Option (List Json)
array_value (array vs) maximum =
    let values = items vs in if leb (length values) maximum then some values else none
array_value _ maximum = none

abbrev pub fits_between : ℕ → ℕ → ℕ → Bool
fits_between minimum maximum n = leb minimum n && leb n maximum

-- The length counts UTF-16 code units.
unfoldable pub bounded_string : Json → ℕ → ℕ → Option Text
bounded_string (string t) minimum maximum =
    if fits_between minimum maximum (length t) then some t else none
bounded_string _ minimum maximum = none

-- The length counts UTF-8 bytes.
unfoldable pub bounded_bytes : Json → ℕ → ℕ → Option Text
unfolding utf8_byte_length
bounded_bytes (string t) minimum maximum =
    if fits_between minimum maximum (utf8_byte_length t) then some t else none
bounded_bytes _ minimum maximum = none

-- `enumValue`, with the value that each allowed text stands for.
unfoldable pub enum_value {ℓ} : {A : Type ℓ} → Json → Dict A → Option A
enum_value (string t) allowed = lookup t allowed
enum_value _ allowed = none

-- A text that is allowed as it stands.
unfoldable pub literal : Json → Text → Option (Unit {0})
literal (string t) expected = guard (text_eq t expected)
literal _ expected = none

-- A finite number at least some number of ticks, in ticks.
unfoldable pub finite_number : Json → ℕ → Option ℕ
finite_number (Json.number (finite (pos ticks))) minimum =
    if ltb ticks minimum then none else some ticks
finite_number _ minimum = none

abbrev pub max_safe_integer : ℕ
max_safe_integer = 9007199254740991

-- `Number.isSafeInteger` of a number that is not negative.
abbrev pub is_safe_integer : ℕ → Bool
unfolding one
is_safe_integer ticks = ticks % one == 0 && leb (ticks / one) max_safe_integer

unfoldable pub safe_integer : Json → ℕ → Option ℕ
unfolding finite_number one
safe_integer value minimum = do
  ticks ← finite_number value (minimum * one)
  guard (is_safe_integer ticks)
  some (ticks / one)

-- A safe integer from -n up to m.
unfoldable pub signed_integer : Json → ℕ → ℕ → Option ℤ
unfolding one
signed_integer (Json.number (finite (pos ticks))) n m =
    if is_safe_integer ticks && leb (ticks / one) m then some (pos (ticks / one)) else none
signed_integer (Json.number (finite (negsuc ticks))) n m =
    let size = suc ticks in
    if is_safe_integer size && leb (size / one) n then some (negsuc (size / one - 1)) else none
signed_integer _ n m = none

unfoldable pub boolean_value : Json → Option Bool
boolean_value (boolean b) = some b
boolean_value _ = none

-- /^[a-f0-9]{64}$/
abbrev pub is_hex : ℕ → Bool
is_hex c = (leb 97 c && leb c 102) || is_digit c

unfoldable pub fingerprint_value : Json → Option Text
unfolding bounded_string
fingerprint_value value = do
  fingerprint ← bounded_string value 64 64
  guard (all is_hex fingerprint)
  some fingerprint

unfoldable pub actor_id : Json → Option Text
unfolding bounded_string is_name
actor_id value = do
  actor ← bounded_string value 1 48
  guard (is_actor actor && all is_name actor)
  some actor

-- A lane label, or also a bare actor id: the program's two patterns together are `PLAN_ENTRY`.
unfoldable pub lane_value_or_actor : Json → Option PlanEntry
unfolding bounded_string parse_entry_text
lane_value_or_actor value = do t ← bounded_string value 1 58; parse_entry_text t

unfoldable pub lane_value : Json → Option Lane
unfolding lane_value_or_actor
lane_value value = do
  entry ← lane_value_or_actor value
  connection ← entry.connection
  some (record { actor = entry.actor; connection = connection })

-- `${actor}\0${connection}`
unfoldable pub lane_key : Text → ℕ → Text
lane_key actor connection = actor ++ 0 ∷ decimal connection

-- /^[0-9A-Z]{5}$/
abbrev pub is_sqlstate : Text → Bool
is_sqlstate code = length code == 5 && all (λ c. is_digit c || fits_between 65 90 c) code

-- The white space and line ends that `\s` matches and `trim` takes away.
abbrev pub is_space : ℕ → Bool
is_space c =
    (leb 9 c && leb c 13)
    || c == 32
    || c == 160
    || c == 5760
    || (leb 8192 c && leb c 8202)
    || c == 8232
    || c == 8233
    || c == 8239
    || c == 8287
    || c == 12288
    || c == 65279

-- scenario.ts, `assertScenarioName`
unfoldable pub scenario_name : Json → Option Text
scenario_name (string t) = if not (all is_space t) && leb (length t) 256 then some t else none
scenario_name _ = none
