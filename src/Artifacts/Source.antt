-- ===== src/Artifacts/Source.antt =====
-- source-schema.ts: the checks of one value of a source identity. A negative zero, which the walk over a
-- recorded run refuses before, is no count here either.
pub mod Files
pub mod Graph
pub mod Identity
pub mod Counts
pub mod Totals
use interleave.Prelude.{
  ℕ, suc, ◌+◌, ◌*◌, Bool, true, false, ◌&&◌, ◌||◌, not, Option, none, some, List, [], ◌∷◌, ◌++◌,
  Text, Dict, codes, decimal, text_eq, has, any, all, find, is_digit, length, map, take, leb, ltb,
  ◌==◌, if◌then◌else◌, guard, ◌>>=◌, ◌>>◌, traverse,
}
use interleave.Types.{is_some, or_else}
use interleave.Lanes.Labels.{is_letter, split_on, span}
use interleave.Artifacts.Json.{Json, boolean, string, array, object, items, members}
use interleave.Artifacts.Fields.{
  field, has_own, is_hex, utf8_byte_length, literal, safe_integer, max_safe_integer,
}

abbrev pub max_items : ℕ
max_items = 100000

abbrev pub max_source_files : ℕ
max_source_files = 100000

abbrev pub max_source_bytes : ℕ
max_source_bytes = 256 * 1024 * 1024

abbrev pub max_file_bytes : ℕ
max_file_bytes = 16 * 1024 * 1024

abbrev pub max_path_bytes : ℕ
max_path_bytes = 4096

-- `a < b` on texts: by their code units.
abbrev pub text_ltb : Text → Text → Bool
text_ltb s [] = false
text_ltb [] (y ∷ t) = true
text_ltb (x ∷ s) (y ∷ t) = ltb x y || (x == y && text_ltb s t)

abbrev pub comes_after : Option Text → Text → Bool
comes_after none t = true
comes_after (some before) t = text_ltb before t

unfoldable pub source_shape : Json → List Text → List Text → Option (Dict Json)
source_shape (object ms) keys required =
    let record_ = members ms in
    if all (λ (k, v). has k keys) record_ && all (has_own record_) required
    then some record_
    else none
source_shape _ keys required = none

unfoldable pub source_array : Json → Option (List Json)
source_array (array vs) =
    let values = items vs in if leb (length values) max_items then some values else none
source_array _ = none

unfoldable pub source_text : Json → ℕ → ℕ → Option Text
unfolding utf8_byte_length
source_text (string t) minimum maximum =
    let bytes = utf8_byte_length t in
    if leb minimum bytes && leb bytes maximum then some t else none
source_text _ minimum maximum = none

unfoldable pub fingerprint_text : Json → Option Text
unfolding source_text
fingerprint_text value = do
  t ← source_text value 64 64
  guard (length t == 64 && all is_hex t)
  some t

-- The aggregate of two counts.
unfoldable pub sum : ℕ → ℕ → Option ℕ
sum left right = if leb (left + right) max_safe_integer then some (left + right) else none

unfoldable pub equal_count : Json → ℕ → Option (Unit {0})
unfolding safe_integer
equal_count value expected = do actual ← safe_integer value 0; guard (actual == expected)

abbrev slash : ℕ
slash = 47

-- [\u0000-\u001f\u007f], `\` and `:`
abbrev is_unportable : ℕ → Bool
is_unportable c = ltb c 32 || c == 127 || c == 92 || c == 58

-- A part of a path that is there, and leads neither to its own directory nor out of it.
abbrev is_path_part : Text → Bool
is_path_part part = not (text_eq part [] || text_eq part (codes ".") || text_eq part (codes ".."))

-- A relative path in parts, none of which is empty: it neither begins nor ends with `/`.
unfoldable pub is_portable : Text → Bool
unfolding split_on
is_portable t = not (any is_unportable t) && all is_path_part (split_on slash t)

unfoldable pub portable_path : Json → Bool → Option Text
unfolding source_text is_portable
portable_path value allow_dot = do
  t ← source_text value 1 max_path_bytes
  guard ((allow_dot && text_eq t (codes ".")) || is_portable t)
  some t

-- [a-zA-Z0-9._-]+
abbrev is_word : Text → Bool
is_word t =
    not (length t == 0) && all (λ c. is_letter c || is_digit c || c == 46 || c == 95 || c == 45) t

-- @[a-zA-Z0-9._-]+
abbrev is_scope : Text → Bool
is_scope [] = false
is_scope (c ∷ cs) = c == 64 && is_word cs

abbrev are_name_parts : List Text → Bool
are_name_parts (name ∷ []) = is_word name
are_name_parts (scope ∷ name ∷ []) = is_scope scope && is_word name
are_name_parts _ = false

-- `PACKAGE_NAME`
unfoldable pub is_package_name : Text → Bool
unfolding split_on
is_package_name t = are_name_parts (split_on slash t)

abbrev begins_with : ℕ → Text → Bool
begins_with c [] = false
begins_with c (d ∷ t) = d == c

unfoldable pub dependency_specifier : Json → Option Text
unfolding source_text is_portable split_on
dependency_specifier value = do
  t ← source_text value 1 max_path_bytes
  guard (not (begins_with 46 t || begins_with 35 t) && is_portable t)
  let parts = split_on slash t
  guard (are_name_parts (if begins_with 64 t then take 2 parts else take 1 parts))
  some t

unfoldable pub package_name : Json → Option Text
unfolding source_text is_package_name
package_name value = do t ← source_text value 1 256; guard (is_package_name t); some t

-- A numeral with its separator after it: `\d+` and `.`.
unfoldable pub after_numeral : Text → Option Text
unfolding span
after_numeral t =
    let (digits, rest) = span is_digit t in if length digits == 0 then none else some rest

abbrev pub after_dot : Text → Option Text
after_dot [] = none
after_dot (c ∷ t) = if c == 46 then some t else none

-- (?:[-+][0-9A-Za-z.+-]+)?
abbrev is_tag : Text → Bool
is_tag [] = true
is_tag (c ∷ cs) =
    (c == 45 || c == 43)
    && not (length cs == 0)
    && all (λ d. is_digit d || is_letter d || d == 46 || d == 43 || d == 45) cs

-- `PACKAGE_VERSION`
unfoldable pub package_version : Json → Option Text
unfolding source_text after_numeral
package_version value = do
  t ← source_text value 1 256
  a ← after_numeral t
  b ← after_dot a
  c ← after_numeral b
  d ← after_dot c
  e ← after_numeral d
  guard (is_tag e)
  some t

-- p(?:0|[1-9]\d*)
abbrev is_package_id : Text → Bool
is_package_id (p ∷ c ∷ cs) =
    p == 112 && (if c == 48 then length cs == 0 else is_digit c && all is_digit cs)
is_package_id _ = false

unfoldable pub package_id : Json → Option Text
unfolding source_text
package_id value = do t ← source_text value 2 16; guard (is_package_id t); some t
