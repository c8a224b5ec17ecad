-- ===== src/Artifacts/Fields/Utf8.antt =====
-- The byte length of a text is the length of its UTF-8 encoding.
use interleave.Prelude.{
  ℕ, ◌+◌, ◌-◌, ◌*◌, ◌/◌, ◌%◌, ◌≤◌, ◌<◌, ◌≡◌, refl, ◌∙◌, true, ◌&&◌, ◌||◌, List, [], ◌∷◌, Text,
  Bytes, length, length-append, concat, map, all, ltb, Bool-cases, inl, inr, arith, if◌then◌else◌,
}
use interleave.Artifacts.Fields.{
  utf8_byte_length, is_high_surrogate, is_low_surrogate, code_unit_bytes,
}

-- A lone surrogate is encoded as the replacement character.
abbrev scalar : ℕ → ℕ
scalar c = if is_high_surrogate c || is_low_surrogate c then 65533 else c

-- The code points of a text.
unfoldable pub code_points : Text → List ℕ
code_points [] = []
code_points (c ∷ []) = scalar c ∷ []
code_points (c ∷ d ∷ rest) =
    let after = code_points rest in
    let next = code_points (d ∷ rest) in
    if is_high_surrogate c && is_low_surrogate d
    then (65536 + (c - 55296) * 1024 + (d - 56320)) ∷ after
    else scalar c ∷ next

-- The bytes of one code point.
unfoldable pub encode_point : ℕ → Bytes
encode_point p =
    if ltb p 128
    then p ∷ []
    else if ltb p 2048
    then (192 + p / 64) ∷ (128 + p % 64) ∷ []
    else if ltb p 65536
    then (224 + p / 4096) ∷ (128 + p / 64 % 64) ∷ (128 + p % 64) ∷ []
    else (240 + p / 262144) ∷ (128 + p / 4096 % 64) ∷ (128 + p / 64 % 64) ∷ (128 + p % 64) ∷ []

unfoldable pub utf8_of : Text → Bytes
unfolding code_points encode_point
utf8_of t = concat (map encode_point (code_points t))

length-single : (c : ℕ) → c < 65536 → length (encode_point (scalar c)) ≡ code_unit_bytes c
unfolding encode_point
length-single c h = ground arith

length-pair : (p : ℕ) → 65536 ≤ p → length (encode_point p) ≡ 4
unfolding encode_point
length-pair p h = ground arith

-- The byte length of a text of 16-bit code units is that of its UTF-8 encoding, in which a pair of
-- surrogates is one code point and a lone surrogate is the replacement character.
pub length-utf8_of :
    (t : Text) → all (λ c. ltb c 65536) t ≡ true → length (utf8_of t) ≡ utf8_byte_length t
unfolding utf8_of code_points utf8_byte_length
length-utf8_of [] h = refl
length-utf8_of (c ∷ []) h =
    length-append (encode_point (scalar c)) [] ∙ omega (arith, length-single c (ground arith))
length-utf8_of (c ∷ d ∷ rest) h = elim (Bool-cases (is_high_surrogate c && is_low_surrogate d)) [
  | inl paired ↦
      let p = 65536 + (c - 55296) * 1024 + (d - 56320) in
      rw paired (
        length-append (encode_point p) _
        ∙ omega (arith, length-pair p (omega arith), length-utf8_of rest (ground arith)))
  | inr single ↦ rw single (
      length-append (encode_point (scalar c)) _
      ∙ omega (arith, length-single c (ground arith), length-utf8_of (d ∷ rest) (ground arith)))
]
