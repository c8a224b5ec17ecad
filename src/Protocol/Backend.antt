-- ===== src/Protocol/Backend.antt =====
-- protocol/backend.ts: what the server's messages say about a unit.
pub mod Summaries
pub mod Sequences
pub mod Errors
mod Tests
use interleave.Prelude.{
  ℕ, zero, suc, ◌+◌, ◌-◌, ◌*◌, ◌%◌, ◌≤◌, ◌≡◌, Bool, true, false, ◌&&◌, ◌||◌, not, Option, none,
  some, List, [], ◌∷◌, ◌++◌, map, Text, Bytes, codes, text_eq, length, take, drop, ltb, leb, any,
  all, ◌==◌, if◌then◌else◌, is_digit, number, get_elem?,
}
use interleave.Types.{
  ErrorInfo, ReadyCompletion, TransactionStatus, idle, transaction, failed, FlushCompletion,
  MetadataCompletion, described, metadata_error, rows, no_data, is_some,
}
use interleave.Lanes.Labels.{split_on}
use interleave.Protocol.Messages.{
  BackendError, malformed_error, malformed_sqlstate, malformed_tag, malformed_status,
  ready_in_flush, after_completion, malformed_parameters, malformed_no_data, malformed_row,
  metadata_format, trailing_fields, unexpected_response, Reaction, thrown, silent, complete,
  ErrorResult, refused, reported, kind_of, last_of, ends_in_zero, split_zero, u16, is_upper,
  is_sqlstate, is_count, counted_words, rows_of_words, tag_rows, status_of, ascii,
}

pub record Summary : Type 0 where
  pub tags : List Text
  pub rows : ℕ
  pub error : Option ErrorInfo

pub record Flushing : Type 0 where
  pub tags : List Text
  pub rows : ℕ
  pub suspended : Bool

pub data Stage : Type 0 where
  parse parameters columns done : Stage

pub record Describing : Type 0 where
  pub state : Stage
  pub parameter_count : ℕ

-- The name and the nullable value of each column end with fields of 18 bytes, of which the last two
-- are the format.
unfoldable pub columns_of : ℕ → Bytes → Option BackendError
unfolding u16 split_zero
columns_of zero [] = none
columns_of zero (x ∷ xs) = some trailing_fields
columns_of (suc n) bytes = elim (split_zero bytes) [
  | none ↦ some malformed_row
  | some (name, after) ↦
      let rest = columns_of n (drop 18 after) in
      if ltb (length after) 18
      then some malformed_row
      else if not (u16 (drop 16 after) == 0)
      then some metadata_format
      else rest
]

-- `utf8` decodes bytes.
module _ (utf8 : Bytes → Text) where
  -- The loop over the fields of an ErrorResponse; its bytes are fuel enough.
  unfoldable pub error_fields : ℕ → Bytes → ErrorInfo → Option ErrorInfo
  error_fields zero bytes found = some found
  error_fields (suc fuel) [] found = some found
  error_fields (suc fuel) (field ∷ bytes) found =
      if field == 0 then some found else elim (split_zero bytes) [
        | none ↦ none
        | some (value, after) ↦ error_fields fuel after (
            if field == 67
            then record found { code = utf8 value }
            else if field == 77
            then record found { message = utf8 value }
            else found)
      ]

  -- `backendError`
  unfoldable pub backend_error : Bytes → ErrorResult
  backend_error frame =
      elim (error_fields (length frame) (drop 5 frame) (record { code = []; message = [] })) [
        | none ↦ refused malformed_error
        | some found ↦ if is_sqlstate found.code then reported found else refused malformed_sqlstate
      ]

  -- The command tag of a CommandComplete.
  abbrev pub tag_of : Bytes → Text
  tag_of frame = utf8 (take (length frame - 6) (drop 5 frame))

  abbrev pub ready_completion : Summary → TransactionStatus → ReadyCompletion
  ready_completion s status = record {
    transaction_status = status;
    command_tags = s.tags;
    row_count = s.rows;
    error = s.error;
    copy = [];
  }

  -- BackendSummary.accept
  unfoldable pub summarize : Summary → Bytes → Summary × Reaction ReadyCompletion
  unfolding tag_rows status_of
  summarize s frame =
      if kind_of frame == 67
      then (if not (ends_in_zero frame) then (s, thrown malformed_tag) else (
        record s { tags = s.tags ++ tag_of frame ∷ []; rows = s.rows + tag_rows (tag_of frame) },
        silent,
      ))
      else if kind_of frame == 69
      then elim (backend_error frame) [
        | refused e ↦ (s, thrown e)
        | reported e ↦ (record s { error = some e }, silent)
      ]
      else if kind_of frame == 90
      then elim (status_of (ascii (drop 5 frame))) [
        | none ↦ (s, thrown malformed_status)
        | some status ↦ (s, complete (ready_completion s status))
      ]
      else (s, silent)

  abbrev flush_completion : Flushing → Option ErrorInfo → FlushCompletion
  flush_completion s error = record {
    command_tags = s.tags;
    rows = s.rows;
    suspended = if is_some error then false else s.suspended;
    error = error;
    copy = [];
  }

  -- The variables after a message that is neither ReadyForQuery nor an error, where it does not throw.
  unfoldable pub count_message : Flushing → Bytes → Option Flushing
  count_message s frame =
      if kind_of frame == 68
      then some (record s { rows = suc s.rows })
      else if kind_of frame == 115
      then some (record s { suspended = true })
      else if kind_of frame == 73
      then some (record s { suspended = false })
      else if kind_of frame == 67
      then (if not (ends_in_zero frame)
          then none
          else some (record s { suspended = false; tags = s.tags ++ tag_of frame ∷ [] }))
      else some s

  -- FlushSummary.accept; `acknowledged` is whether the journal has no operation left.
  unfoldable pub await_flush : Flushing → Bool → Bytes → Flushing × Reaction FlushCompletion
  unfolding count_message
  await_flush s acknowledged frame =
      if kind_of frame == 90
      then (s, thrown ready_in_flush)
      else if kind_of frame == 69
      then elim (backend_error frame) [
        | refused e ↦ (s, thrown e)
        | reported e ↦ (s, complete (flush_completion s (some e)))
      ]
      else elim (count_message s frame) [
        | none ↦ (record s { suspended = false }, thrown malformed_tag)
        | some t ↦ if acknowledged then (t, complete (flush_completion t none)) else (t, silent)
      ]

  -- The columns of a RowDescription or a NoData.
  unfoldable pub describe_columns : Bytes → Option BackendError
  unfolding columns_of u16
  describe_columns frame =
      if kind_of frame == 110
      then (if length frame == 5 then none else some malformed_no_data)
      else if ltb (length frame) 7
      then some malformed_row
      else columns_of (u16 (drop 5 frame)) (drop 7 frame)

  abbrev pub is_notice : Bytes → Bool
  is_notice frame = kind_of frame == 78 || kind_of frame == 83 || kind_of frame == 65

  abbrev shown : Describing → Bytes → MetadataCompletion
  shown s frame =
      if kind_of frame == 84
      then described s.parameter_count (u16 (drop 5 frame)) rows
      else described s.parameter_count 0 no_data

  -- The messages that a description may have next, in its stages.
  unfoldable pub advance : Describing → Bytes → Describing × Reaction MetadataCompletion
  unfolding describe_columns u16
  advance s frame = elim s.state [
    | parse ↦
        if kind_of frame == 49 && length frame == 5
        then (record s { state = parameters }, silent)
        else (s, thrown unexpected_response)
    | parameters ↦
        if kind_of frame == 116 && leb 7 (length frame)
        then (if length frame == 7 + 4 * u16 (drop 5 frame)
            then (record { state = columns; parameter_count = u16 (drop 5 frame) }, silent)
            else (record s { parameter_count = u16 (drop 5 frame) }, thrown malformed_parameters))
        else (s, thrown unexpected_response)
    | columns ↦
        if kind_of frame == 84 || kind_of frame == 110
        then elim (describe_columns frame) [
          | some e ↦ (s, thrown e)
          | none ↦ (record s { state = done }, complete (shown s frame))
        ]
        else (s, thrown unexpected_response)
    | done ↦ (s, thrown after_completion)
  ]

  abbrev is_done : Stage → Bool
  is_done done = true
  is_done parse = false
  is_done parameters = false
  is_done columns = false

  -- MetadataSummary.accept
  unfoldable pub describe : Describing → Bytes → Describing × Reaction MetadataCompletion
  unfolding advance
  describe s frame =
      if is_done s.state
      then (s, thrown after_completion)
      else if is_notice frame
      then (s, silent)
      else if kind_of frame == 69
      then elim (backend_error frame) [
        | refused e ↦ (record s { state = done }, thrown e)
        | reported e ↦ (record s { state = done }, complete (metadata_error e))
      ]
      else advance s frame

  -- The messages of a unit, up to a throw or the completion.
  unfoldable pub summarize_all : Summary → List Bytes → Summary × Reaction ReadyCompletion
  summarize_all s [] = (s, silent)
  summarize_all s (frame ∷ frames) =
      let (t, reaction) = summarize s frame in
      elim reaction [
        | thrown e ↦ (t, thrown e)
        | silent ↦ summarize_all t frames
        | complete c ↦ (t, complete c)
      ]

  unfoldable pub describe_all : Describing → List Bytes → Describing × Reaction MetadataCompletion
  describe_all s [] = (s, silent)
  describe_all s (frame ∷ frames) =
      let (t, reaction) = describe s frame in
      elim reaction [
        | thrown e ↦ (t, thrown e)
        | silent ↦ describe_all t frames
        | complete c ↦ (t, complete c)
      ]

abbrev pub new_summary : Option ErrorInfo → Summary
new_summary error = record { tags = []; rows = 0; error = error }

abbrev pub new_flushing : Flushing
new_flushing = record { tags = []; rows = 0; suspended = false }

abbrev pub new_describing : Describing
new_describing = record { state = parse; parameter_count = 0 }
