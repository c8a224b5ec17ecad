-- ===== src/Protocol/Backend/Errors.antt =====
-- Reading the fields of an ErrorResponse.
use interleave.Prelude.{
  ℕ, zero, suc, ◌<◌, ◌≡◌, ◌≢◌, refl, ◌∙◌, true, false, some, List, [], ◌∷◌, ◌++◌, Bytes, Text,
  length, length-append, arith, all, not, All, drop, ◌==◌, if◌then◌else◌,
}
use interleave.Types.{ErrorInfo}
use interleave.Protocol.Backend.{error_fields, backend_error}
use interleave.Protocol.Messages.{reported, split_zero, is_sqlstate}

pub record Field : Type 0 where
  pub kind : ℕ
  pub value : Bytes

-- A field has a type that is not zero, and its value holds no zero byte.
abbrev pub IsField : Field → Type 0
IsField f = (f.kind ≢ 0) × (all (λ b. not (b == 0)) f.value ≡ true)

-- The bytes of fields, each with its terminator, and the terminator of all.
abbrev pub encode_fields : List Field → Bytes
encode_fields [] = 0 ∷ []
encode_fields (f ∷ fs) = f.kind ∷ (f.value ++ 0 ∷ encode_fields fs)

module _ (utf8 : Bytes → Text) where
  -- What the last C and the last M among the fields say.
  abbrev pub read_fields : List Field → ErrorInfo → ErrorInfo
  read_fields [] found = found
  read_fields (f ∷ fs) found = read_fields fs (
      if f.kind == 67
      then record found { code = utf8 f.value }
      else if f.kind == 77
      then record found { message = utf8 f.value }
      else found)

  split_zero-append :
      (value rest : Bytes)
      → all (λ b. not (b == 0)) value ≡ true
      → split_zero (value ++ 0 ∷ rest) ≡ some (value, rest)
  unfolding split_zero
  split_zero-append [] rest h = refl
  split_zero-append (x ∷ xs) rest h =
      let ih = split_zero-append xs rest (ground arith) in
      let e : (x == 0) ≡ false = ground arith in rw e (rw ih refl)

  error_fields-field :
      (fuel kind : ℕ) (value after bytes : Bytes) (found : ErrorInfo)
      → kind ≢ 0
      → split_zero bytes ≡ some (value, after)
      → error_fields utf8 (suc fuel) (kind ∷ bytes) found
        ≡ error_fields utf8 fuel after (
            if kind == 67
            then record found { code = utf8 value }
            else if kind == 77
            then record found { message = utf8 value }
            else found)
  unfolding error_fields
  error_fields-field fuel kind value after bytes found h e =
      let other : (kind == 0) ≡ false = ground arith in rw other (rw e refl)

  error_fields-encode :
      (fs : List Field) (fuel : ℕ) (found : ErrorInfo)
      → All IsField fs
      → length fs < fuel
      → error_fields utf8 fuel (encode_fields fs) found ≡ some (read_fields fs found)
  error_fields-encode fs zero found h enough = absurd (omega arith)
  error_fields-encode [] (suc fuel) found h enough = unfold error_fields in refl
  error_fields-encode (f ∷ fs) (suc fuel) found ((kind, clean), more) enough =
      error_fields-field fuel f.kind f.value (encode_fields fs) (f.value ++ 0 ∷ encode_fields fs)
        found kind (split_zero-append f.value (encode_fields fs) clean)
      ∙ error_fields-encode fs fuel _ more (omega arith)

  length-encode_fields : (fs : List Field) → length fs < length (encode_fields fs)
  length-encode_fields [] = omega arith
  length-encode_fields (f ∷ fs) =
      let rest = length-encode_fields fs in
      let a = length-append f.value (0 ∷ encode_fields fs) in omega arith

  backend_error-found :
      (frame : Bytes) (found : ErrorInfo)
      → error_fields utf8 (length frame) (drop 5 frame) (record { code = []; message = [] })
        ≡ some found
      → is_sqlstate found.code ≡ true
      → backend_error utf8 frame ≡ reported found
  unfolding backend_error
  backend_error-found frame found h valid = ground arith

  -- An error response that carries any fields, in any order, is read as its last code and its last
  -- message, where that code is a SQLSTATE.
  pub backend_error-encode :
      (a b c d e : ℕ) (fs : List Field)
      → All IsField fs
      → is_sqlstate (read_fields fs (record { code = []; message = [] })).code ≡ true
      → backend_error utf8 (a ∷ b ∷ c ∷ d ∷ e ∷ encode_fields fs)
        ≡ reported (read_fields fs (record { code = []; message = [] }))
  backend_error-encode a b c d e fs h valid =
      backend_error-found (a ∷ b ∷ c ∷ d ∷ e ∷ encode_fields fs) _
        (error_fields-encode fs (length (a ∷ b ∷ c ∷ d ∷ e ∷ encode_fields fs)) _ h
          (let l = length-encode_fields fs in omega arith))
        valid
