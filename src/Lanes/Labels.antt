-- ===== src/Lanes/Labels.antt =====
-- lanes.ts: lane labels `actor#n`, plan entries and plan choices, as texts and parsed.
pub mod Canonical
use interleave.Prelude.{
  ℕ, zero, suc, Bool, true, false, ◌&&◌, ◌||◌, not, Option, none, some, List, [], ◌∷◌, ◌++◌, Text,
  codes, text_eq, decimal, number, is_digit, all, any, length, leb, ltb, ◌==◌, if◌then◌else◌,
}
use interleave.Types.{Value, text}

pub record Lane : Type 0 where
  pub actor : Text
  pub connection : ℕ

pub record PlanEntry : Type 0 where
  pub actor : Text
  pub connection : Option ℕ

abbrev pub max_plan_choice_length : ℕ
max_plan_choice_length = 117

abbrev pub hash_sign : ℕ
hash_sign = 35

abbrev pub plus_sign : ℕ
plus_sign = 43

abbrev pub prototype_keys : List Text
prototype_keys = codes "__proto__" ∷ codes "prototype" ∷ codes "constructor" ∷ []

-- [a-zA-Z]
abbrev pub is_letter : ℕ → Bool
is_letter c = (leb 97 c && leb c 122) || (leb 65 c && leb c 90)

-- [a-zA-Z0-9_-]
unfoldable pub is_name : ℕ → Bool
is_name c = is_letter c || is_digit c || c == 95 || c == 45

abbrev pub starts_with_letter : Text → Bool
starts_with_letter [] = false
starts_with_letter (c ∷ cs) = is_letter c

-- 0|[1-9][0-9]{0,8}
unfoldable pub is_generation : Text → Bool
is_generation [] = false
is_generation (c ∷ cs) =
    if c == 48 then length cs == 0 else is_digit c && all is_digit cs && leb (length cs) 8

-- The longest prefix of characters that pass a test, and what follows it.
unfoldable pub span : (ℕ → Bool) → Text → Text × Text
span p [] = ([], [])
span p (c ∷ cs) = let (front, back) = span p cs in if p c then (c ∷ front, back) else ([], c ∷ cs)

abbrev pub is_actor : Text → Bool
is_actor name =
    starts_with_letter name && leb (length name) 48 && not (any (text_eq name) prototype_keys)

-- What may follow the actor: nothing, or `#` and a generation.
unfoldable pub with_generation : Text → Text → Option PlanEntry
unfolding is_generation
with_generation name [] = some (record { actor = name; connection = none })
with_generation name (c ∷ cs) =
    if c == hash_sign && is_generation cs
    then some (record { actor = name; connection = some (number cs) })
    else none

-- `PLAN_ENTRY`: neither `#` nor the end is a name's character, so the name is the longest prefix.
unfoldable pub parse_entry_text : Text → Option PlanEntry
unfolding span is_name with_generation
parse_entry_text t =
    let (name, rest) = span is_name t in if is_actor name then with_generation name rest else none

unfoldable pub parse_plan_entry : Value → Option PlanEntry
unfolding parse_entry_text
parse_plan_entry (text t) = parse_entry_text t
parse_plan_entry Value.undefined = none
parse_plan_entry Value.other = none

-- `text.split(separator)` for a separator of one character.
unfoldable pub split_on : ℕ → Text → List Text
split_on sep [] = [] ∷ []
split_on sep (c ∷ cs) = extend (c == sep) c (split_on sep cs)
  where
    extend : Bool → ℕ → List Text → List Text
    extend true c parts = [] ∷ parts
    extend false c [] = (c ∷ []) ∷ []
    extend false c (part ∷ parts) = (c ∷ part) ∷ parts

-- The loop over the parts; the first that is no entry makes the choice invalid.
unfoldable pub parse_parts : List Text → Option (List PlanEntry)
unfolding parse_entry_text
parse_parts [] = some []
parse_parts (part ∷ parts) = elim (parse_entry_text part) [
  | none ↦ none
  | some entry ↦ elim (parse_parts parts) [ none ↦ none | some entries ↦ some (entry ∷ entries) ]
]

unfoldable pub parse_choice_text : Text → Option (List PlanEntry)
unfolding split_on parse_parts
parse_choice_text t =
    let parts = split_on plus_sign t in
    if ltb max_plan_choice_length (length t)
    then none
    else if ltb 2 (length parts)
    then none
    else parse_parts parts

unfoldable pub parse_plan_choice : Value → Option (List PlanEntry)
unfolding parse_choice_text
parse_plan_choice (text t) = parse_choice_text t
parse_plan_choice Value.undefined = none
parse_plan_choice Value.other = none

unfoldable pub lane_label : Text → ℕ → Text
lane_label actor connection = actor ++ hash_sign ∷ decimal connection

abbrev pub to_lane : Option PlanEntry → Option Lane
to_lane none = none
to_lane (some entry) = elim entry.connection [
  | none ↦ none
  | some n ↦ some (record { actor = entry.actor; connection = n })
]

unfoldable pub parse_lane_label : Value → Option Lane
parse_lane_label value = to_lane (parse_plan_entry value)

-- How an entry is written.
unfoldable pub entry_text : PlanEntry → Text
unfolding lane_label
entry_text entry = elim entry.connection [ none ↦ entry.actor | some n ↦ lane_label entry.actor n ]
