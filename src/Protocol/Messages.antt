-- ===== src/Protocol/Messages.antt =====
-- protocol/backend.ts: what is read of one message of the server, and the errors.
use interleave.Prelude.{
  ℕ, ◌+◌, ◌*◌, ◌%◌, Bool, false, ◌&&◌, ◌||◌, Option, none, some, List, [], ◌∷◌, map, Text, Bytes,
  codes, text_eq, length, leb, any, all, ◌==◌, if◌then◌else◌, is_digit, number,
}
use interleave.Types.{ErrorInfo, TransactionStatus, idle, transaction, failed}
use interleave.Lanes.Labels.{split_on}

pub data BackendError : Type 0 where
  malformed_error malformed_sqlstate malformed_tag malformed_status ready_in_flush
        after_completion :
      BackendError
  malformed_parameters malformed_no_data malformed_row metadata_format trailing_fields :
      BackendError
  unexpected_response : BackendError

-- What a summary does with a message: throw, nothing, or complete.
pub data Reaction (A : Type 0) : Type 0 where
  thrown : BackendError → Reaction A
  silent : Reaction A
  complete : A → Reaction A

pub data ErrorResult : Type 0 where
  refused : BackendError → ErrorResult
  reported : ErrorInfo → ErrorResult

abbrev pub kind_of : Bytes → ℕ
kind_of [] = 0
kind_of (t ∷ fields) = t

-- `frame.at(-1)`
abbrev pub last_of : Bytes → Option ℕ
last_of [] = none
last_of (x ∷ []) = some x
last_of (x ∷ y ∷ ys) = last_of (y ∷ ys)

abbrev pub ends_in_zero : Bytes → Bool
ends_in_zero frame = elim (last_of frame) [ none ↦ false | some n ↦ n == 0 ]

-- The bytes before the first zero, and those after it.
unfoldable pub split_zero : Bytes → Option (Bytes × Bytes)
split_zero [] = none
split_zero (x ∷ xs) =
    let rest = split_zero xs in
    if x == 0
    then some ([], xs)
    else elim rest [ none ↦ none | some (before, after) ↦ some (x ∷ before, after) ]

-- The two bytes at the front, big-endian.
unfoldable pub u16 : Bytes → ℕ
u16 [] = 0
u16 (a ∷ []) = 0
u16 (a ∷ b ∷ more) = a * 256 + b

abbrev pub is_upper : ℕ → Bool
is_upper c = leb 65 c && leb c 90

-- `/^[0-9A-Z]{5}$/`
unfoldable pub is_sqlstate : Text → Bool
is_sqlstate code = length code == 5 && all (λ c. is_digit c || is_upper c) code

-- `/^(?:SELECT|INSERT \d+|UPDATE|DELETE|MOVE|FETCH|COPY|MERGE) (\d+)$/`, with the number that it takes.
abbrev pub is_count : Text → Bool
is_count [] = false
is_count (c ∷ cs) = all is_digit (c ∷ cs)

abbrev pub counted_words : List Text
counted_words =
    codes "SELECT"
    ∷ codes "UPDATE"
    ∷ codes "DELETE"
    ∷ codes "MOVE"
    ∷ codes "FETCH"
    ∷ codes "COPY"
    ∷ codes "MERGE"
    ∷ []

abbrev pub rows_of_words : List Text → ℕ
rows_of_words [] = 0
rows_of_words (word ∷ []) = 0
rows_of_words (word ∷ n ∷ []) =
    if any (text_eq word) counted_words && is_count n then number n else 0
rows_of_words (word ∷ oid ∷ n ∷ []) =
    if text_eq word (codes "INSERT") && is_count oid && is_count n then number n else 0
rows_of_words (word ∷ oid ∷ n ∷ x ∷ more) = 0

-- The rows that a command tag counts.
unfoldable pub tag_rows : Text → ℕ
tag_rows tag = rows_of_words (split_on 32 tag)

unfoldable pub status_of : Text → Option TransactionStatus
status_of status =
    if text_eq status (codes "I")
    then some idle
    else if text_eq status (codes "T")
    then some transaction
    else if text_eq status (codes "E")
    then some failed
    else none

-- `toString('ascii')` keeps seven bits of each byte.
abbrev pub ascii : Bytes → Text
ascii bytes = map (λ b. b % 128) bytes
