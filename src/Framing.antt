-- ===== src/Framing.antt =====
-- protocol/framing.ts: the decoder that cuts a PostgreSQL byte stream into length-framed messages.
-- The decoder's buffer is its first `size` bytes, with the size of its allocation beside it; the
-- loop's `offset` is the part of the buffer that is left.
pub mod Stream
pub mod Chunks
pub mod Encoding
pub mod Bounds
mod Tests
use interleave.Prelude.{
  ℕ, zero, suc, ◌+◌, ◌*◌, ◌≡◌, Bool, true, false, ◌&&◌, not, Option, none, some, List, [], ◌∷◌,
  ◌++◌, min, max, Bytes, length, take, drop, ltb, leb, ◌==◌, if◌then◌else◌,
}

pub data Error : Type 0 where
  byte_limit_range buffered_limit malformed_length message_limit : Error

abbrev pub default_message_limit : ℕ
default_message_limit = 16777216

abbrev pub default_buffer_limit : ℕ
default_buffer_limit = 33554432

-- An accepted limit; `none` is the error of a limit out of range.
unfoldable pub positive_limit : Option ℕ → ℕ → Option ℕ
positive_limit value fallback = in_range (elim value [ none ↦ fallback | some v ↦ v ])
  where
    in_range : ℕ → Option ℕ
    in_range limit = if ltb limit 8 then none else if ltb 1073741824 limit then none else some limit

pub data Mode : Type 0 where
  startup typed : Mode

abbrev pub is_typed : Mode → Bool
is_typed startup = false
is_typed typed = true

pub record Decoder : Type 0 where
  pub mode : Mode
  pub buffer : Bytes
  pub capacity : ℕ
  pub max_message : ℕ
  pub max_buffered : ℕ

abbrev pub size : Decoder → ℕ
size d = length d.buffer

-- The constructor.
unfoldable pub new_decoder : Mode → Option ℕ → Option ℕ → Option Decoder
unfolding positive_limit
new_decoder mode max_message_bytes max_buffered_bytes =
    with_limits (positive_limit max_message_bytes default_message_limit)
      (positive_limit max_buffered_bytes default_buffer_limit)
  where
    with_limits : Option ℕ → Option ℕ → Option Decoder
    with_limits (some m) (some b) =
        some (record { mode = mode; buffer = []; capacity = 0; max_message = m; max_buffered = b })
    with_limits none b = none
    with_limits (some m) none = none

-- `readUInt32BE` at the head of a long enough list.
unfoldable pub u32 : Bytes → ℕ
u32 (a ∷ b ∷ c ∷ d ∷ rest) = ((a * 256 + b) * 256 + c) * 256 + d
u32 _ = 0

abbrev pub header : Mode → ℕ
header startup = 4
header typed = 5

-- The length field, which does not count the type byte.
unfoldable pub declared : Mode → Bytes → ℕ
unfolding u32
declared startup bytes = u32 bytes
declared typed bytes = u32 (drop 1 bytes)

abbrev pub least : Mode → ℕ
least startup = 8
least typed = 4

-- The bytes of the message, its type byte included.
unfoldable pub total : Mode → Bytes → ℕ
unfolding declared
total startup bytes = declared startup bytes
total typed bytes = declared typed bytes + 1

-- After a startup packet that is no SSLRequest or GSSENCRequest the stream is typed.
unfoldable pub next_mode : Mode → Bytes → Mode
unfolding u32
next_mode typed frame = typed
next_mode startup frame =
    if (u32 (drop 4 frame) == 80877103)
    then startup
    else if (u32 (drop 4 frame) == 80877104)
    then startup
    else typed

-- How the loop left the buffer: the mode, the bytes after the last frame, the frames, the error.
pub record Scan : Type 0 where
  pub mode : Mode
  pub rest : Bytes
  pub frames : List Bytes
  pub error : Option Error

abbrev pub stop : Mode → Bytes → Option Error → Scan
stop mode rest error = record { mode = mode; rest = rest; frames = []; error = error }

abbrev pub put_frame : Bytes → Scan → Scan
put_frame frame s = record s { frames = frame ∷ s.frames }

pub data Verdict : Type 0 where
  wait cut : Verdict
  fail : Error → Verdict

-- One round of the loop: its guards, in the order of the source.
unfoldable pub verdict : ℕ → Mode → Bytes → Verdict
unfolding declared total
verdict limit mode bytes =
    if ltb (length bytes) (header mode)
    then wait
    else if ltb (declared mode bytes) (least mode)
    then fail malformed_length
    else if ltb limit (total mode bytes)
    then fail message_limit
    else if ltb (length bytes) (total mode bytes)
    then wait
    else cut

-- What a round comes to; `later` is the rest of the loop, after the frame.
abbrev pub round : Verdict → Mode → Bytes → Scan → Scan
round wait mode bytes later = stop mode bytes none
round (fail e) mode bytes later = stop mode bytes (some e)
round cut mode bytes later = later

-- The loop; each round cuts a frame of at least five bytes, so the buffer's length is fuel enough.
unfoldable pub scan : ℕ → ℕ → Mode → Bytes → Scan
unfolding verdict total next_mode
scan zero limit mode bytes = stop mode bytes none
scan (suc fuel) limit mode bytes =
    let frame = take (total mode bytes) bytes in
    let later =
      put_frame frame (scan fuel limit (next_mode mode frame) (drop (total mode bytes) bytes)) in
    round (verdict limit mode bytes) mode bytes later

unfoldable pub scan_all : ℕ → Mode → Bytes → Scan
unfolding scan
scan_all limit mode bytes = scan (suc (length bytes)) limit mode bytes

-- The allocation after a chunk that does not fit in it.
unfoldable pub grow : Decoder → ℕ → ℕ
grow d needed =
    if ltb d.capacity needed
    then min d.max_buffered (max (max needed (d.capacity * 2)) 1024)
    else d.capacity

-- A throw inside the loop leaves the chunk in the buffer, with no frame consumed.
unfoldable pub finish : Decoder → Bytes → ℕ → Scan → Decoder × Option Error × List Bytes
finish d bytes capacity s = elim s.error [
  | none ↦ (record d { mode = s.mode; buffer = s.rest; capacity = capacity }, none, s.frames)
  | some e ↦ (record d { mode = s.mode; buffer = bytes; capacity = capacity }, some e, [])
]

unfoldable pub push : Decoder → Bytes → Decoder × Option Error × List Bytes
unfolding scan_all grow finish
push d chunk =
    let bytes = d.buffer ++ chunk in
    if ltb d.max_buffered (size d + length chunk)
    then (d, some buffered_limit, [])
    else finish d bytes (grow d (size d + length chunk)) (scan_all d.max_message d.mode bytes)
