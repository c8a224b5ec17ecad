-- ===== src/Framing/Bounds.antt =====
-- What every push keeps: the buffer and its allocation stay within the limits, and after a push
-- no complete frame is left in the buffer.
use interleave.Prelude.{
  ℕ, zero, suc, ◌+◌, ◌≤◌, ◌<◌, ◌≡◌, ap, sym, ◌∙◌, Option, none, some, ◌++◌, arith, Bytes, length,
  take, drop, All, length-append, length-take, concat, inl, inr,
}
use interleave.Framing.{
  Mode, Decoder, size, Scan, total, next_mode, verdict, wait, scan, scan_all, grow, finish, push,
  new_decoder,
}
use interleave.Framing.Chunks.{push_fits, finish_error, finish_ok}
use interleave.Framing.Stream.{
  Verdict-cases, verdict-cut, scan-concat, scan-of_verdict, remainder-lt, length-rest-le,
}

pub record IsValid (d : Decoder) : Type 0 where
  pub fits : size d ≤ d.capacity
  pub bounded : d.capacity ≤ d.max_buffered
  pub least_message : 8 ≤ d.max_message
  pub most_buffered : d.max_buffered ≤ 1073741824

-- A new decoder is valid, whatever limits it was given and accepted.
pub new_decoder-IsValid :
    (mode : Mode) (message buffered : Option ℕ) (d : Decoder)
    → new_decoder mode message buffered ≡ some d
    → IsValid d
unfolding new_decoder
new_decoder-IsValid mode message buffered d h = ground arith

-- Every push, failed or not, keeps the buffer in its allocation and the allocation in its limit.
pub push-IsValid : (d : Decoder) (chunk : Bytes) → IsValid d → IsValid (push d chunk).0
unfolding push grow finish scan_all
push-IsValid d chunk v = ground (
  arith,
  length-append d.buffer chunk,
  length-rest-le (suc (length (d.buffer ++ chunk))) d.max_message d.mode (d.buffer ++ chunk),
)

-- A frame that the limit admits and that is not empty.
abbrev pub IsFrame : ℕ → Bytes → Type 0
IsFrame limit frame = (4 < length frame) × (length frame ≤ limit)

scan-IsFrame :
    (fuel limit : ℕ) (mode : Mode) (bytes : Bytes)
    → All (IsFrame limit) (scan fuel limit mode bytes).frames
scan-IsFrame zero limit mode bytes = unfold scan in tt
scan-IsFrame (suc fuel) limit mode bytes = elim (Verdict-cases (verdict limit mode bytes)) [
  | inl w ↦ rw (scan-of_verdict fuel limit mode bytes w) tt
  | inr (inl c) ↦ rw (scan-of_verdict fuel limit mode bytes c) (
      let fits = verdict-cut limit mode bytes c in
      let long = length-take (total mode bytes) bytes in
      let first : IsFrame limit (take (total mode bytes) bytes) = (omega arith, omega arith) in
      (
        first,
        scan-IsFrame fuel limit (next_mode mode (take (total mode bytes) bytes))
            (drop (total mode bytes) bytes),
      ))
  | inr (inr (e, f)) ↦ rw (scan-of_verdict fuel limit mode bytes f) tt
]

-- With fuel above the buffer's length a scan without error stops where no frame is complete.
scan-drained :
    (fuel limit : ℕ) (mode : Mode) (bytes : Bytes)
    → length bytes < fuel
    → (scan fuel limit mode bytes).error ≡ none
    → verdict limit (scan fuel limit mode bytes).mode (scan fuel limit mode bytes).rest ≡ wait
scan-drained zero limit mode bytes p h = absurd (omega arith)
scan-drained (suc fuel) limit mode bytes p h = elim (Verdict-cases (verdict limit mode bytes)) [
  | inl w ↦ rw (scan-of_verdict fuel limit mode bytes w) w
  | inr (inl c) ↦ rw (scan-of_verdict fuel limit mode bytes c) (
      scan-drained fuel limit (next_mode mode (take (total mode bytes) bytes))
        (drop (total mode bytes) bytes) (omega (arith, remainder-lt limit mode bytes c))
        (rw (scan-of_verdict fuel limit mode bytes c) at h))
  | inr (inr (e, x)) ↦
      absurd (ground (arith, ap (λ (s : Scan). s.error) (scan-of_verdict fuel limit mode bytes x)))
]

push_fitting :
    (d : Decoder) (chunk : Bytes) → (push d chunk).1 ≡ none → size d + length chunk ≤ d.max_buffered
unfolding push
push_fitting d chunk h = ground arith

-- The frames of a push that succeeds are within the message limit and longer than four bytes; the
-- frames in order, and then what stays in the buffer, are the bytes that were buffered and the
-- chunk; and what stays in the buffer is no complete frame.
pub push_frames :
    (d : Decoder) (chunk : Bytes)
    → (push d chunk).1 ≡ none
    → All (IsFrame d.max_message) (push d chunk).2
      × (concat (push d chunk).2 ++ (push d chunk).0.buffer ≡ d.buffer ++ chunk)
      × (verdict d.max_message (push d chunk).0.mode (push d chunk).0.buffer ≡ wait)
push_frames d chunk h =
    let bytes = d.buffer ++ chunk in
    let n = grow d (size d + length chunk) in
    let s = scan_all d.max_message d.mode bytes in
    let fit = push_fits d chunk (push_fitting d chunk h) in
    let clean : s.error ≡ none = sym (finish_error d bytes n s) ∙ rw fit at h in
    rw (fit, finish_ok d bytes n s clean)
      (unfold scan_all in
        (
          scan-IsFrame (suc (length bytes)) d.max_message d.mode bytes,
          scan-concat (suc (length bytes)) d.max_message d.mode bytes,
          scan-drained (suc (length bytes)) d.max_message d.mode bytes (omega arith) clean,
        ))
