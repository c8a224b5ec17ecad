-- ===== src/Search/Encoding.antt =====
-- explore.ts: the bytes of the JSON text of a plan, and equality of plans.
use interleave.Prelude.{
  ℕ, zero, suc, ◌+◌, Bool, true, false, ◌&&◌, ◌||◌, List, [], ◌∷◌, Text, text_eq, ltb, leb, ◌==◌,
  if◌then◌else◌,
}

-- Equality of plans, which is that of their encodings.
unfoldable pub plan_eq : List Text → List Text → Bool
plan_eq [] [] = true
plan_eq [] (y ∷ ys) = false
plan_eq (x ∷ xs) [] = false
plan_eq (x ∷ xs) (y ∷ ys) = text_eq x y && plan_eq xs ys

abbrev is_high : ℕ → Bool
is_high c = leb 55296 c && ltb c 56320

abbrev is_low : ℕ → Bool
is_low c = leb 56320 c && ltb c 57344

-- The bytes of a code unit that is no half of a pair.
abbrev unit_bytes : ℕ → ℕ
unit_bytes c =
    if c == 34 || c == 92
    then 2
    else if c == 8 || c == 9 || c == 10 || c == 12 || c == 13
    then 2
    else if ltb c 32
    then 6
    else if ltb c 128
    then 1
    else if ltb c 2048
    then 2
    else if is_high c || is_low c
    then 6
    else 3

-- The UTF-8 bytes of the characters of a JSON string: two units that form a pair have four bytes,
-- any other half is escaped.
unfoldable pub escaped_bytes : Text → ℕ
escaped_bytes [] = 0
escaped_bytes (c ∷ []) = unit_bytes c
escaped_bytes (c ∷ d ∷ cs) =
    let paired = escaped_bytes cs in
    let single = escaped_bytes (d ∷ cs) in
    if is_high c && is_low d then 4 + paired else unit_bytes c + single

-- `Buffer.byteLength(JSON.stringify(choice))`
unfoldable pub choice_bytes : Text → ℕ
choice_bytes choice = escaped_bytes choice + 2

-- The bytes of the items and the separators between them.
abbrev pub joined_bytes : List Text → ℕ
joined_bytes [] = 0
joined_bytes (x ∷ []) = choice_bytes x
joined_bytes (x ∷ y ∷ ys) = choice_bytes x + 1 + joined_bytes (y ∷ ys)

-- `Buffer.byteLength(JSON.stringify(plan))`
unfoldable pub plan_bytes : List Text → ℕ
plan_bytes plan = joined_bytes plan + 2

-- `prefixBytes[index]`: the opening bracket, and each choice with its separator.
unfoldable pub prefix_bytes : ℕ → List Text → ℕ
prefix_bytes zero choices = 1
prefix_bytes (suc n) [] = 1
prefix_bytes (suc n) (x ∷ xs) = prefix_bytes n xs + choice_bytes x + 1
