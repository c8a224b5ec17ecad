-- ===== src/Protocol/Cycles.antt =====
-- protocol/frontend.ts: FrontendCycleBuffer, which groups the frames of a client into cycles.
pub mod Grouping
pub mod Sequences
mod Tests
use interleave.Prelude.{
  ℕ, zero, suc, ◌+◌, ◌≤◌, ◌≡◌, ◌≢◌, Bool, true, false, ◌&&◌, ◌||◌, not, Option, none, some, List,
  [], ◌∷◌, ◌++◌, Bytes, codes, length, ltb, any, ◌==◌, if◌then◌else◌,
}
use interleave.Types.{ProtocolProfile, sync_cycle, describe_flush, flush_stages}

pub data CycleError : Type 0 where
  flush_without_messages early_flush one_prefix copy_data simple_in_cycle unsupported_message
        cycle_limit :
      CycleError

pub record CycleBuffer : Type 0 where
  pub frames : List Bytes
  pub bytes : ℕ
  pub cycle_bytes : ℕ
  pub has_prefix : Bool
  pub max_buffered : ℕ
  pub staged : Bool
  pub flushes : Bool

-- What `accept` does: throw, return nothing, or return the frames of a cycle.
pub data Accepted : Type 0 where
  failed : CycleError → Accepted
  pending : Accepted
  cycle : List Bytes → Accepted

-- `frame[0]`
abbrev pub type_of : Bytes → ℕ
type_of [] = 0
type_of (t ∷ fields) = t

abbrev pub is_flush : Bytes → Bool
is_flush frame = type_of frame == 72

abbrev pub is_sync : Bytes → Bool
is_sync frame = type_of frame == 83

abbrev pub is_query : Bytes → Bool
is_query frame = type_of frame == 81

-- `'PBDECSH'.includes(type)`
abbrev pub is_extended : Bytes → Bool
is_extended frame = any (λ c. c == type_of frame) (codes "PBDECSH")

-- `'dcf'.includes(type)`
abbrev pub is_copy : Bytes → Bool
is_copy frame = any (λ c. c == type_of frame) (codes "dcf")

abbrev pub is_empty {ℓ} : {A : Type ℓ} → List A → Bool
is_empty [] = true
is_empty (x ∷ xs) = false

-- The frames before the Flush of a metadata prefix: a Parse and a Describe.
abbrev pub is_prefix : List Bytes → Bool
is_prefix [] = false
is_prefix (p ∷ []) = false
is_prefix (p ∷ d ∷ []) = type_of p == 80 && type_of d == 68
is_prefix (p ∷ d ∷ x ∷ more) = false

abbrev is_describe_flush : Option ProtocolProfile → Bool
is_describe_flush (some describe_flush) = true
is_describe_flush (some sync_cycle) = false
is_describe_flush (some flush_stages) = false
is_describe_flush none = false

abbrev is_flush_stages : Option ProtocolProfile → Bool
is_flush_stages (some flush_stages) = true
is_flush_stages (some sync_cycle) = false
is_flush_stages (some describe_flush) = false
is_flush_stages none = false

-- The constructor, with the limit that `positiveLimit` gives.
unfoldable pub new_cycle_buffer : ℕ → Option ProtocolProfile → CycleBuffer
new_cycle_buffer max_buffered profile = record {
  frames = [];
  bytes = 0;
  cycle_bytes = 0;
  has_prefix = false;
  max_buffered = max_buffered;
  staged = is_describe_flush profile;
  flushes = is_flush_stages profile;
}

-- Why a Flush is refused.
unfoldable pub flush_refusal : CycleBuffer → Bytes → Option CycleError
flush_refusal b frame =
    if b.flushes
    then (if is_empty b.frames || not (length frame == 5)
        then some flush_without_messages
        else none)
    else if not b.staged
    then some early_flush
    else if b.has_prefix || not (is_prefix b.frames) || not (length frame == 5)
    then some one_prefix
    else none

-- The tests before anything is buffered.
unfoldable pub refusal : CycleBuffer → Bytes → Option CycleError
unfolding flush_refusal
refusal b frame =
    if is_flush frame
    then flush_refusal b frame
    else if is_copy frame
    then some copy_data
    else if is_query frame && (not (b.bytes == 0) || b.has_prefix)
    then some simple_in_cycle
    else if is_query frame
    then none
    else if not (is_extended frame)
    then some unsupported_message
    else none

-- A frame of the extended protocol.
unfoldable pub take_in : CycleBuffer → Bytes → CycleBuffer × Accepted
take_in b frame =
    let bytes = b.bytes + length frame in
    let cycle_bytes = b.cycle_bytes + length frame in
    let frames = b.frames ++ frame ∷ [] in
    if ltb b.max_buffered cycle_bytes
    then (record b { bytes = bytes; cycle_bytes = cycle_bytes }, failed cycle_limit)
    else if not (is_sync frame) && not (is_flush frame)
    then (record b { frames = frames; bytes = bytes; cycle_bytes = cycle_bytes }, pending)
    else (
      record b {
        frames = [];
        bytes = 0;
        cycle_bytes = if is_sync frame || b.flushes then 0 else cycle_bytes;
        has_prefix = is_flush frame;
      },
      cycle frames,
    )

unfoldable pub accept : CycleBuffer → Bytes → CycleBuffer × Accepted
unfolding refusal take_in
accept b frame = elim (refusal b frame) [
  | some e ↦ (b, failed e)
  | none ↦ if is_query frame then (b, cycle (frame ∷ [])) else take_in b frame
]

-- The cycles of a sequence of frames, up to the first error.
pub record Grouped : Type 0 where
  pub buffer : CycleBuffer
  pub cycles : List (List Bytes)
  pub error : Option CycleError

abbrev pub put_cycle : List Bytes → Grouped → Grouped
put_cycle frames g = record g { cycles = frames ∷ g.cycles }

unfoldable pub accept_all : CycleBuffer → List Bytes → Grouped
accept_all b [] = record { buffer = b; cycles = []; error = none }
accept_all b (frame ∷ frames) =
    let (b', accepted) = accept b frame in
    elim accepted [
      | failed e ↦ record { buffer = b'; cycles = []; error = some e }
      | pending ↦ accept_all b' frames
      | cycle c ↦ put_cycle c (accept_all b' frames)
    ]
