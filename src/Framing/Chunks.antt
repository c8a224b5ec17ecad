-- ===== src/Framing/Chunks.antt =====
-- `FrameDecoder.push` on a stream that arrives in chunks.
use interleave.Prelude.{
  ℕ, suc, ◌+◌, ◌≤◌, ◌≡◌, refl, ap, sym, ◌∙◌, Option, none, List, ◌++◌, append_assoc, arith, Bytes,
  length, concat, length-append,
}
use interleave.Framing.{Error, Decoder, size, Scan, scan_all, grow, finish, push}
use interleave.Framing.Stream.{scan-concat, scan_all-append, put_frames}

-- What a push comes to when the chunk fits in the buffer.
pub push_fits :
    (d : Decoder) (chunk : Bytes)
    → size d + length chunk ≤ d.max_buffered
    → push d chunk
      ≡ finish d
          (d.buffer ++ chunk)
          (grow d (size d + length chunk))
          (scan_all d.max_message d.mode (d.buffer ++ chunk))
unfolding push
push_fits d chunk h = ground arith

pub finish_error :
    (d : Decoder) (bytes : Bytes) (n : ℕ) (s : Scan) → (finish d bytes n s).1 ≡ s.error
unfolding finish
finish_error d bytes n s = ground arith

-- The state after a push that succeeds.
pub finish_ok :
    (d : Decoder) (bytes : Bytes) (n : ℕ) (s : Scan)
    → s.error ≡ none
    → finish d bytes n s
      ≡ (record d { mode = s.mode; buffer = s.rest; capacity = n }, none, s.frames)
unfolding finish
finish_ok d bytes n s h = ground arith

module _ (d : Decoder) (a b : Bytes) (fits : size d + length a + length b ≤ d.max_buffered)
    (ok : (push d a).1 ≡ none) where
  abbrev first : Scan
  first = scan_all d.max_message d.mode (d.buffer ++ a)

  first_ok : first.error ≡ none
  first_ok =
      sym (finish_error d (d.buffer ++ a) (grow d (size d + length a)) first)
      ∙ ap (λ (r : Decoder × Option Error × List Bytes). r.1) (sym (push_fits d a (omega arith)))
      ∙ ok

  after_first : push d a ≡ (
    record d { mode = first.mode; buffer = first.rest; capacity = grow d (size d + length a) },
    none,
    first.frames,
  )
  after_first =
      push_fits d a (omega arith)
      ∙ finish_ok d (d.buffer ++ a) (grow d (size d + length a)) first first_ok

  abbrev middle : Decoder
  middle = record d {
    mode = first.mode;
    buffer = first.rest;
    capacity = grow d (size d + length a);
  }

  abbrev second : Scan
  second = scan_all d.max_message first.mode (first.rest ++ b)

  abbrev whole : Scan
  whole = scan_all d.max_message d.mode (d.buffer ++ (a ++ b))

  whole-eq : whole ≡ put_frames first.frames second
  whole-eq =
      ap (scan_all d.max_message d.mode) (sym (append_assoc d.buffer a b))
      ∙ scan_all-append d.max_message d.mode (d.buffer ++ a) b first_ok

  rest_fits : size middle + length b ≤ d.max_buffered
  rest_fits =
      unfold scan_all in
      omega (
        arith,
        length-append d.buffer a,
        ap length (scan-concat (suc (length (d.buffer ++ a))) d.max_message d.mode (d.buffer ++ a)),
        length-append (concat first.frames) first.rest,
      )

  both_fit : size d + length (a ++ b) ≤ d.max_buffered
  both_fit = omega (arith, length-append a b)

  error-middle : (push middle b).1 ≡ second.error
  error-middle =
      ap (λ (r : Decoder × Option Error × List Bytes). r.1) (push_fits middle b rest_fits)
      ∙ finish_error middle (first.rest ++ b) (grow middle (size middle + length b)) second

  error-whole : (push d (a ++ b)).1 ≡ second.error
  error-whole =
      ap (λ (r : Decoder × Option Error × List Bytes). r.1) (push_fits d (a ++ b) both_fit)
      ∙ finish_error d (d.buffer ++ (a ++ b)) (grow d (size d + length (a ++ b))) whole
      ∙ ap (λ (s : Scan). s.error) whole-eq

  -- Where the buffer's limit has room for what is buffered and both chunks, and the first chunk is
  -- accepted, a push of the two together fails or succeeds exactly as the push of the second after
  -- the first does.
  pub error-push-append : (push d (a ++ b)).1 ≡ (push (push d a).0 b).1
  error-push-append = error-whole ∙ sym (rw after_first error-middle)

  -- Where the buffer's limit has room for what is buffered and both chunks, and the pushes of the
  -- first and then of the second succeed, one push of the joined chunks succeeds, gives the frames
  -- of both in order, and leaves the same mode and the same unfinished bytes.
  pub push-append :
      (push (push d a).0 b).1 ≡ none
      → ((push d (a ++ b)).1 ≡ none)
        × ((push d (a ++ b)).2 ≡ (push d a).2 ++ (push (push d a).0 b).2)
        × ((push d (a ++ b)).0.mode ≡ (push (push d a).0 b).0.mode)
        × ((push d (a ++ b)).0.buffer ≡ (push (push d a).0 b).0.buffer)
  push-append done =
      let clean : second.error ≡ none = sym error-middle ∙ rw after_first at done in
      let p =
        push_fits d (a ++ b) both_fit
        ∙ finish_ok d (d.buffer ++ (a ++ b)) (grow d (size d + length (a ++ b))) whole
            (ap (λ (s : Scan). s.error) whole-eq ∙ clean) in
      let q =
        push_fits middle b rest_fits
        ∙ finish_ok middle (first.rest ++ b) (grow middle (size middle + length b)) second clean in
      rw (after_first, p, q)
        (
          refl,
          ap (λ (s : Scan). s.frames) whole-eq,
          ap (λ (s : Scan). s.mode) whole-eq,
          ap (λ (s : Scan). s.rest) whole-eq,
        )
