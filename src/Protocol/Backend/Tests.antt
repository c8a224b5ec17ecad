-- ===== src/Protocol/Backend/Tests.antt =====
-- Messages of a server, as they come.
use interleave.Prelude.{
  ℕ, ◌≡◌, refl, true, false, none, List, [], ◌∷◌, ◌++◌, Bytes, Text, codes, text_eq, number, All,
  arith,
}
use interleave.Types.{ReadyCompletion, idle, described, rows}
use interleave.Lanes.Labels.{split_on}
use interleave.Protocol.Backend.{
  summarize, summarize_all, new_summary, describe, describe_all, new_describing, advance,
  describe_columns, columns_of, error_fields, backend_error, await_flush, new_flushing,
  count_message,
}
use interleave.Protocol.Messages.{
  complete, silent, thrown, u16, split_zero, reported, is_sqlstate, tag_rows, status_of,
  malformed_tag,
}
use interleave.Protocol.Backend.Summaries.{IsSummary, summarize_all-IsSummary}
use interleave.Protocol.Backend.Errors.{
  Field, IsField, encode_fields, read_fields, backend_error-encode,
}

backend_tests : Unit {0}
unfolding summarize_all summarize describe_all describe advance describe_columns columns_of u16
    split_zero error_fields backend_error is_sqlstate tag_rows status_of split_on number text_eq
    await_flush count_message
backend_tests = tt

-- ASCII.
abbrev plain : Bytes → Text
plain bytes = bytes

abbrev message : ℕ → Bytes → Bytes
message kind fields = kind ∷ 0 ∷ 0 ∷ 0 ∷ 0 ∷ fields

-- Two commands and a ReadyForQuery.
abbrev answers : List Bytes
answers =
    message 67 (codes "INSERT 0 2" ++ 0 ∷ [])
    ∷ message 68 []
    ∷ message 67 (codes "SELECT 12" ++ 0 ∷ [])
    ∷ message 90 (codes "I")
    ∷ []

abbrev answered : ReadyCompletion
answered = record {
  transaction_status = idle;
  command_tags = codes "INSERT 0 2" ∷ codes "SELECT 12" ∷ [];
  row_count = 14;
  error = none;
  copy = [];
}

answers_complete : (summarize_all plain (new_summary none) answers).1 ≡ complete answered
unfolding backend_tests
answers_complete = refl

summarize_all-IsSummary_example : IsSummary plain (new_summary none) answers answered
summarize_all-IsSummary_example =
    summarize_all-IsSummary plain (new_summary none) answers answered answers_complete

unterminated_tag :
    (summarize_all plain (new_summary none) (message 67 (codes "BEGIN") ∷ [])).1
    ≡ thrown malformed_tag
unfolding backend_tests
unterminated_tag = refl

-- Two parameters, and one column `n` of format 0.
abbrev description : List Bytes
description =
    message 49 []
    ∷ message 78 []
    ∷ message 116 (0 ∷ 2 ∷ 0 ∷ 0 ∷ 0 ∷ 23 ∷ 0 ∷ 0 ∷ 0 ∷ 23 ∷ [])
    ∷ message 84 (
        0 ∷ 1 ∷ 110 ∷ 0 ∷ 1 ∷ 1 ∷ 1 ∷ 1 ∷ 1 ∷ 1 ∷ 1 ∷ 1 ∷ 1 ∷ 1 ∷ 1 ∷ 1 ∷ 1 ∷ 1 ∷ 1 ∷ 1 ∷ 0 ∷ 0
        ∷ [])
    ∷ []

description_complete :
    (describe_all plain new_describing description).1 ≡ complete (described 2 1 rows)
unfolding backend_tests
description_complete = refl

abbrev unique_violation : List Field
unique_violation =
    record { kind = 83; value = codes "ERROR" }
    ∷ record { kind = 67; value = codes "23505" }
    ∷ record { kind = 77; value = codes "duplicate key" }
    ∷ []

fields_clean : All IsField unique_violation
fields_clean =
    (((λ e. ground arith), refl), (((λ e. ground arith), refl), (((λ e. ground arith), refl), tt)))

sqlstate_valid :
    is_sqlstate (read_fields plain unique_violation (record { code = []; message = [] })).code
    ≡ true
unfolding backend_tests
sqlstate_valid = refl

backend_error-encode_example :
    backend_error plain (69 ∷ 0 ∷ 0 ∷ 0 ∷ 9 ∷ encode_fields unique_violation)
    ≡ reported (record { code = codes "23505"; message = codes "duplicate key" })
backend_error-encode_example =
    backend_error-encode plain 69 0 0 0 9 unique_violation fields_clean sqlstate_valid

flush_waits : (await_flush plain new_flushing false (message 68 [])).1 ≡ silent
unfolding backend_tests
flush_waits = refl
