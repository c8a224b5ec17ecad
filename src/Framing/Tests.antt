-- ===== src/Framing/Tests.antt =====
-- The decoder on concrete bytes.
use interleave.Prelude.{◌≡◌, refl, none, some, List, [], ◌∷◌, ◌++◌, arith, map, Bytes, All, concat}
use interleave.Framing.{
  Decoder, startup, typed, malformed_length, message_limit, verdict, wait, new_decoder, push,
}
use interleave.Framing.Chunks.{error-push-append, push-append}
use interleave.Framing.Bounds.{IsValid, IsFrame, new_decoder-IsValid, push-IsValid, push_frames}
use interleave.Framing.Encoding.{Message, encode, push-encode}

-- A decoder for messages of at most 32 bytes and a buffer of at most 64.
abbrev small : Decoder
small = record { mode = typed; buffer = []; capacity = 0; max_message = 32; max_buffered = 64 }

-- `S` (Sync), with no payload.
abbrev sync : Bytes
sync = 83 ∷ 0 ∷ 0 ∷ 0 ∷ 4 ∷ []

startup_then_sync :
    (push (record small { mode = startup }) (0 ∷ 0 ∷ 0 ∷ 8 ∷ 0 ∷ 3 ∷ 0 ∷ 0 ∷ [] ++ sync)).2
    ≡ (0 ∷ 0 ∷ 0 ∷ 8 ∷ 0 ∷ 3 ∷ 0 ∷ 0 ∷ []) ∷ sync ∷ []
unfolding push
startup_then_sync = refl

malformed : (push small (83 ∷ 0 ∷ 0 ∷ 0 ∷ 3 ∷ [])).1 ≡ some malformed_length
unfolding push
malformed = refl

too_long : (push small (83 ∷ 0 ∷ 0 ∷ 1 ∷ 0 ∷ [])).1 ≡ some message_limit
unfolding push
too_long = refl

halves : (push small (83 ∷ 0 ∷ 0 ∷ [])).1 ≡ none
unfolding push
halves = refl

second_half : (push (push small (83 ∷ 0 ∷ 0 ∷ [])).0 (0 ∷ 4 ∷ 83 ∷ [])).1 ≡ none
unfolding push
second_half = refl

error-push-append_example :
    (push small (83 ∷ 0 ∷ 0 ∷ [] ++ (0 ∷ 3 ∷ []))).1
    ≡ (push (push small (83 ∷ 0 ∷ 0 ∷ [])).0 (0 ∷ 3 ∷ [])).1
error-push-append_example =
    error-push-append small (83 ∷ 0 ∷ 0 ∷ []) (0 ∷ 3 ∷ []) (omega arith) halves

push-append_example :
    ((push small (83 ∷ 0 ∷ 0 ∷ 0 ∷ 4 ∷ 83 ∷ [])).1 ≡ none)
    × ((push small (83 ∷ 0 ∷ 0 ∷ 0 ∷ 4 ∷ 83 ∷ [])).2
        ≡ (push small (83 ∷ 0 ∷ 0 ∷ [])).2
          ++ (push (push small (83 ∷ 0 ∷ 0 ∷ [])).0 (0 ∷ 4 ∷ 83 ∷ [])).2)
    × ((push small (83 ∷ 0 ∷ 0 ∷ 0 ∷ 4 ∷ 83 ∷ [])).0.mode
        ≡ (push (push small (83 ∷ 0 ∷ 0 ∷ [])).0 (0 ∷ 4 ∷ 83 ∷ [])).0.mode)
    × ((push small (83 ∷ 0 ∷ 0 ∷ 0 ∷ 4 ∷ 83 ∷ [])).0.buffer
        ≡ (push (push small (83 ∷ 0 ∷ 0 ∷ [])).0 (0 ∷ 4 ∷ 83 ∷ [])).0.buffer)
push-append_example =
    push-append small (83 ∷ 0 ∷ 0 ∷ []) (0 ∷ 4 ∷ 83 ∷ []) (omega arith) halves second_half

small-IsValid : IsValid small
small-IsValid = omega arith

abbrev defaults : Decoder
defaults = record {
  mode = startup;
  buffer = [];
  capacity = 0;
  max_message = 16777216;
  max_buffered = 33554432;
}

new_decoder-IsValid_example : IsValid defaults
unfolding new_decoder
new_decoder-IsValid_example = new_decoder-IsValid startup none none defaults refl

push-IsValid_example : IsValid (push small (83 ∷ 0 ∷ 0 ∷ [])).0
push-IsValid_example = push-IsValid small (83 ∷ 0 ∷ 0 ∷ []) small-IsValid

one_frame : (push small (sync ++ 83 ∷ [])).1 ≡ none
unfolding push
one_frame = refl

push_frames_example :
    All (IsFrame 32) (push small (sync ++ 83 ∷ [])).2
    × (concat (push small (sync ++ 83 ∷ [])).2 ++ (push small (sync ++ 83 ∷ [])).0.buffer
        ≡ [] ++ (sync ++ 83 ∷ []))
    × (verdict 32 (push small (sync ++ 83 ∷ [])).0.mode (push small (sync ++ 83 ∷ [])).0.buffer
        ≡ wait)
push_frames_example = push_frames small (sync ++ 83 ∷ []) one_frame

abbrev messages : List Message
messages = record { kind = 81; payload = 65 ∷ 0 ∷ [] } ∷ record { kind = 83; payload = [] } ∷ []

partial : verdict 32 typed (80 ∷ 0 ∷ []) ≡ wait
unfolding verdict
partial = refl

push-encode_example :
    ((push small (concat (map encode messages) ++ (80 ∷ 0 ∷ []))).1 ≡ none)
    × ((push small (concat (map encode messages) ++ (80 ∷ 0 ∷ []))).2 ≡ map encode messages)
    × ((push small (concat (map encode messages) ++ (80 ∷ 0 ∷ []))).0.buffer ≡ 80 ∷ 0 ∷ [])
push-encode_example =
    push-encode small messages (80 ∷ 0 ∷ []) refl refl (omega arith) (omega arith) partial
      (omega arith)
