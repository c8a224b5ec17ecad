-- ===== src/Artifacts/Serialize.antt =====
-- artifact-schema.ts, `assertSerializedSize`: the bytes of the text that `JSON.stringify` writes.
use interleave.Prelude.{
  ℕ, ◌+◌, ◌-◌, ℤ, Bool, true, false, ◌&&◌, ◌||◌, [], ◌∷◌, Text, length, ltb, ◌==◌, if◌then◌else◌,
}
use interleave.Artifacts.Json.{
  Json, null, boolean, string, array, object, foreign, Items, nil, cons, Members, end, member,
  finite, unusable, items, members,
}
use interleave.Artifacts.Fields.{is_high_surrogate, is_low_surrogate, code_unit_bytes}

-- `\b`, `\t`, `\n`, `\f`, `\r`, `\"` and `\\`
abbrev has_short_escape : ℕ → Bool
has_short_escape c = c == 8 || c == 9 || c == 10 || c == 12 || c == 13 || c == 34 || c == 92

-- A control character or a lone surrogate is written as `\uXXXX`.
abbrev written_bytes : ℕ → ℕ
written_bytes c =
    if has_short_escape c
    then 2
    else if ltb c 32 || is_high_surrogate c || is_low_surrogate c
    then 6
    else code_unit_bytes c

unfoldable pub escaped_bytes : Text → ℕ
escaped_bytes [] = 0
escaped_bytes (c ∷ []) = written_bytes c
escaped_bytes (c ∷ d ∷ rest) =
    let after = escaped_bytes rest in
    let next = escaped_bytes (d ∷ rest) in
    if is_high_surrogate c && is_low_surrogate d then 4 + after else written_bytes c + next

abbrev commas : ℕ → ℕ
commas count = count - 1

-- `number_length` is the length of the numeral that the language writes for a finite number.
module _ (number_length : ℤ → ℕ) where
  unfoldable mutual
    unfolding escaped_bytes

    pub serialized_bytes : Json → ℕ
    serialized_bytes null = 4
    serialized_bytes (boolean true) = 4
    serialized_bytes (boolean false) = 5
    serialized_bytes (Json.number (finite n)) = number_length n
    serialized_bytes (Json.number unusable) = 4
    serialized_bytes (string t) = 2 + escaped_bytes t
    serialized_bytes (array vs) = 2 + commas (length (items vs)) + serialized_items vs
    serialized_bytes (object ms) = 2 + commas (length (members ms)) + serialized_members ms
    serialized_bytes foreign = 4

    pub serialized_items : Items → ℕ
    serialized_items nil = 0
    serialized_items (cons v vs) = serialized_bytes v + serialized_items vs

    pub serialized_members : Members → ℕ
    serialized_members end = 0
    serialized_members (member k v ms) =
        3 + escaped_bytes k + serialized_bytes v + serialized_members ms
