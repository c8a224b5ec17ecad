-- ===== src/Framing/Encoding.antt =====
-- Decoding what a peer encodes: a typed message is its type byte, a big-endian length that counts
-- itself and the payload, and the payload.
use interleave.Prelude.{
  ℕ, zero, suc, ◌+◌, ◌/◌, ◌%◌, ◌≤◌, ◌<◌, ◌≡◌, refl, ap, ◌∙◌, none, List, [], ◌∷◌, ◌++◌, arith, map,
  append-nil, append_assoc, Bytes, length, take, drop, concat, All, length-append,
  take_append_length, drop_append_length,
}
use interleave.Framing.{
  typed, Decoder, size, Scan, put_frame, u32, total, next_mode, verdict, cut, wait, scan, scan_all,
  grow, push, stop,
}
use interleave.Framing.Stream.{scan-of_verdict, scan-fuel, put_frames}
use interleave.Framing.Chunks.{push_fits, finish_ok}

pub record Message : Type 0 where
  pub kind : ℕ
  pub payload : Bytes

-- `writeUInt32BE`
abbrev pub u32_bytes : ℕ → Bytes
u32_bytes n = (n / 16777216 % 256) ∷ (n / 65536 % 256) ∷ (n / 256 % 256) ∷ (n % 256) ∷ []

abbrev pub encode : Message → Bytes
encode m = m.kind ∷ (u32_bytes (length m.payload + 4) ++ m.payload)

u32-u32_bytes : (n : ℕ) (rest : Bytes) → n < 4294967296 → u32 (u32_bytes n ++ rest) ≡ n
unfolding u32
u32-u32_bytes n rest h = omega arith

total-encode :
    (m : Message) (rest : Bytes)
    → length m.payload + 5 < 4294967296
    → total typed (encode m ++ rest) ≡ length (encode m)
unfolding total
total-encode m rest h =
    omega (arith, u32-u32_bytes (length m.payload + 4) (m.payload ++ rest) (omega arith))

verdict-encode :
    (limit : ℕ) (m : Message) (rest : Bytes)
    → limit ≤ 1073741824
    → length m.payload + 5 ≤ limit
    → verdict limit typed (encode m ++ rest) ≡ cut
unfolding verdict total
verdict-encode limit m rest h k = ground (
  arith,
  u32-u32_bytes (length m.payload + 4) (m.payload ++ rest) (omega arith),
  length-append m.payload rest,
)

-- One more message in front of a stream is one more frame in front of the result.
scan-encode :
    (fuel limit : ℕ) (m : Message) (rest : Bytes)
    → limit ≤ 1073741824
    → length m.payload + 5 ≤ limit
    → scan (suc fuel) limit typed (encode m ++ rest)
      ≡ put_frame (encode m) (scan fuel limit typed rest)
unfolding next_mode
scan-encode fuel limit m rest h k =
    let same = total-encode m rest (omega arith) in
    scan-of_verdict fuel limit typed (encode m ++ rest) (verdict-encode limit m rest h k)
    ∙ ap
        (λ n.
          put_frame (take n (encode m ++ rest)) (scan fuel limit typed (drop n (encode m ++ rest))))
        same
    ∙ ap (λ f. put_frame f (scan fuel limit typed (drop (length (encode m)) (encode m ++ rest))))
        (take_append_length (encode m) rest)
    ∙ ap (λ b. put_frame (encode m) (scan fuel limit typed b)) (drop_append_length (encode m) rest)

abbrev pub Admitted : ℕ → List Message → Type 0
Admitted limit ms = All (λ m. length m.payload + 5 ≤ limit) ms

scan_encoded :
    (fuel limit : ℕ) (ms : List Message) (rest : Bytes)
    → limit ≤ 1073741824
    → Admitted limit ms
    → length (concat (map encode ms) ++ rest) < fuel
    → scan fuel limit typed (concat (map encode ms) ++ rest)
      ≡ put_frames (map encode ms) (scan fuel limit typed rest)
scan_encoded fuel limit [] rest h a p = refl
scan_encoded zero limit (m ∷ ms) rest h a p = absurd (omega arith)
scan_encoded (suc fuel) limit (m ∷ ms) rest h a p =
    let tail = concat (map encode ms) in
    let long = length-append tail rest in
    let joined = length-append (encode m) (tail ++ rest) in
    let whole : (encode m ++ tail) ++ rest ≡ encode m ++ (tail ++ rest) =
      append_assoc (encode m) tail rest in
    ap (scan (suc fuel) limit typed) whole
    ∙ scan-encode fuel limit m (tail ++ rest) h a.0
    ∙ ap (put_frame (encode m)) (
        scan_encoded fuel limit ms rest h a.1 (omega (arith, long, joined, ap length whole))
        ∙ ap (put_frames (map encode ms)) (
            scan-fuel fuel (suc fuel) limit typed rest
              (omega (arith, long, joined, ap length whole))
              (omega (arith, long, joined, ap length whole))))

-- What is left of a stream is no complete message and no malformed one.
abbrev pub IsPartial : ℕ → Bytes → Type 0
IsPartial limit rest = verdict limit typed rest ≡ wait

-- A decoder past startup with an empty buffer, fed the encoding of messages that the limits admit
-- and the beginning of another, returns exactly the encodings and keeps the beginning.
pub push-encode :
    (d : Decoder) (ms : List Message) (rest : Bytes)
    → d.mode ≡ typed
    → d.buffer ≡ []
    → d.max_message ≤ 1073741824
    → Admitted d.max_message ms
    → IsPartial d.max_message rest
    → length (concat (map encode ms) ++ rest) ≤ d.max_buffered
    → ((push d (concat (map encode ms) ++ rest)).1 ≡ none)
      × ((push d (concat (map encode ms) ++ rest)).2 ≡ map encode ms)
      × ((push d (concat (map encode ms) ++ rest)).0.buffer ≡ rest)
push-encode d ms rest mode empty small a w fits =
    let input = concat (map encode ms) ++ rest in
    let bytes = d.buffer ++ input in
    let n = grow d (size d + length input) in
    let same : bytes ≡ input = ap (λ b. b ++ input) empty in
    let s = scan_all d.max_message d.mode bytes in
    let result : s ≡ put_frames (map encode ms) (stop typed rest none) =
      ap (λ b. scan_all d.max_message d.mode b) same
      ∙ ap (λ m. scan_all d.max_message m input) mode
      ∙ unfold scan_all in
        (scan_encoded (suc (length input)) d.max_message ms rest small a (omega arith)
          ∙ ap (put_frames (map encode ms))
              (scan-of_verdict (length input) d.max_message typed rest w)) in
    let p =
      push_fits d input (omega (arith, ap length empty))
      ∙ finish_ok d bytes n s (ap (λ (t : Scan). t.error) result) in
    rw p (
      refl,
      ap (λ (t : Scan). t.frames) result ∙ append-nil (map encode ms),
      ap (λ (t : Scan). t.rest) result,
    )
