-- ===== src/Protocol/Cycles/Sequences.antt =====
-- Grouping loses no frame, keeps the limit, and hands out whole cycles.
use interleave.Prelude.{
  ℕ, ◌≤◌, ◌≡◌, refl, sym, ap, ◌∙◌, subst, Option, none, some, List, [], ◌∷◌, ◌++◌, Bytes, arith,
  All, All-In, In, concat, append_assoc, append-nil,
}
use interleave.Types.{ProtocolProfile}
use interleave.Protocol.Cycles.{
  CycleBuffer, Accepted, failed, pending, cycle, CycleError, take_in, accept, Grouped, put_cycle,
  accept_all, new_cycle_buffer,
}
use interleave.Protocol.Cycles.Grouping.{size_of, IsCycle, IsWell, accept-IsWell}

pub accept_all-failed :
    (b b' : CycleBuffer) (frame : Bytes) (frames : List Bytes) (e : CycleError)
    → accept b frame ≡ (b', failed e)
    → accept_all b (frame ∷ frames) ≡ record { buffer = b'; cycles = []; error = some e }
unfolding accept_all
accept_all-failed b b' frame frames e h = ground arith

pub accept_all-pending :
    (b b' : CycleBuffer) (frame : Bytes) (frames : List Bytes)
    → accept b frame ≡ (b', pending)
    → accept_all b (frame ∷ frames) ≡ accept_all b' frames
unfolding accept_all
accept_all-pending b b' frame frames h = ground arith

pub accept_all-cycle :
    (b b' : CycleBuffer) (frame : Bytes) (frames c : List Bytes)
    → accept b frame ≡ (b', cycle c)
    → accept_all b (frame ∷ frames) ≡ put_cycle c (accept_all b' frames)
unfolding accept_all
accept_all-cycle b b' frame frames c h = ground arith

-- Frames that are grouped without an error: the cycles and the buffer are those frames.
abbrev pub IsLossless : CycleBuffer → List Bytes → Grouped → Type 0
IsLossless b frames g =
    (concat g.cycles ++ g.buffer.frames ≡ b.frames ++ frames)
    × All IsCycle g.cycles
    × IsWell g.buffer

IsLossless-step :
    (b b' : CycleBuffer) (frame : Bytes) (frames : List Bytes)
    → IsWell b
    → (out : Accepted) → accept b frame ≡ (b', out)
    → (accept_all b (frame ∷ frames)).error ≡ none
    → (IsWell b'
        → (accept_all b' frames).error ≡ none
        → IsLossless b' frames (accept_all b' frames))
    → IsLossless b (frame ∷ frames) (accept_all b (frame ∷ frames))
IsLossless-step b b' frame frames h (failed e) step fine ih =
    absurd (let x = accept_all-failed b b' frame frames e step in ground arith)
IsLossless-step b b' frame frames h pending step fine ih =
    let x = accept_all-pending b b' frame frames step in
    let (kept, well) = accept-IsWell b b' frame pending h step in
    let (whole, cycles, final) = ih well (subst (λ g. g.error ≡ none) x fine) in
    rw x (
      whole ∙ ap (λ l. l ++ frames) kept ∙ append_assoc b.frames (frame ∷ []) frames,
      cycles,
      final,
    )
IsLossless-step b b' frame frames h (cycle c) step fine ih =
    let x = accept_all-cycle b b' frame frames c step in
    let (kept, empty, shape, well) = accept-IsWell b b' frame (cycle c) h step in
    let (whole, cycles, final) = ih well (subst (λ g. g.error ≡ none) x fine) in
    let joined : c ++ frames ≡ b.frames ++ frame ∷ frames =
      ap (λ l. l ++ frames) kept ∙ append_assoc b.frames (frame ∷ []) frames in
    let rest : concat (accept_all b' frames).cycles ++ (accept_all b' frames).buffer.frames
        ≡ frames =
      whole ∙ ap (λ l. l ++ frames) empty in
    rw x (
      append_assoc c (concat (accept_all b' frames).cycles) (accept_all b' frames).buffer.frames
          ∙ ap (λ l. c ++ l) rest
          ∙ joined,
      (shape, cycles),
      final,
    )

lossless :
    (b : CycleBuffer) (frames : List Bytes)
    → IsWell b
    → (accept_all b frames).error ≡ none
    → IsLossless b frames (accept_all b frames)
lossless b [] h fine = unfold accept_all in (sym (append-nil b.frames), tt, h)
lossless b (frame ∷ frames) h fine =
    IsLossless-step b (accept b frame).0 frame frames h (accept b frame).1 refl fine
      (λ well ok. lossless (accept b frame).0 frames well ok)

accept-limit :
    (b b' : CycleBuffer) (frame : Bytes) (out : Accepted)
    → accept b frame ≡ (b', out)
    → b'.max_buffered ≡ b.max_buffered
unfolding accept take_in
accept-limit b b' frame out h = ground arith

accept_all-limit :
    (b : CycleBuffer) (frames : List Bytes)
    → (accept_all b frames).buffer.max_buffered ≡ b.max_buffered
accept_all-limit b [] = unfold accept_all in refl
accept_all-limit b (frame ∷ frames) =
    step (accept b frame).1 refl (accept_all-limit (accept b frame).0 frames)
  where
    b' : CycleBuffer
    b' = (accept b frame).0

    step :
        (out : Accepted)
        → accept b frame ≡ (b', out)
        → (accept_all b' frames).buffer.max_buffered ≡ b'.max_buffered
        → (accept_all b (frame ∷ frames)).buffer.max_buffered ≡ b.max_buffered
    step (failed e) h ih =
        rw (accept_all-failed b b' frame frames e h) (accept-limit b b' frame (failed e) h)
    step pending h ih =
        rw (accept_all-pending b b' frame frames h) (ih ∙ accept-limit b b' frame pending h)
    step (cycle c) h ih =
        rw (accept_all-cycle b b' frame frames c h) (ih ∙ accept-limit b b' frame (cycle c) h)

new-IsWell :
    (limit : ℕ) (profile : Option ProtocolProfile) → IsWell (new_cycle_buffer limit profile)
unfolding new_cycle_buffer
new-IsWell limit profile = record {
  opened = tt;
  counted = refl;
  within = omega arith;
  part = omega arith;
}

module _ (limit : ℕ) (profile : Option ProtocolProfile) (frames : List Bytes) where
  -- Grouping frames without an error loses, repeats and reorders none: the cycles handed out, with
  -- the frames still buffered, are the frames in their order, under every profile.
  pub accept_all-concat :
      (accept_all (new_cycle_buffer limit profile) frames).error ≡ none
      → concat (accept_all (new_cycle_buffer limit profile) frames).cycles
          ++ (accept_all (new_cycle_buffer limit profile) frames).buffer.frames
        ≡ frames
  unfolding new_cycle_buffer
  accept_all-concat fine =
      (lossless (new_cycle_buffer limit profile) frames (new-IsWell limit profile) fine).0

  -- Where frames are grouped without an error, every cycle handed out is a Simple Query by itself, or frames of the extended protocol of which
  -- the last, and no other, is a Sync or a Flush.
  pub accept_all-IsCycle :
      (c : List Bytes)
      → (accept_all (new_cycle_buffer limit profile) frames).error ≡ none
      → In c (accept_all (new_cycle_buffer limit profile) frames).cycles
      → IsCycle c
  accept_all-IsCycle c fine at =
      All-In IsCycle _
        (lossless (new_cycle_buffer limit profile) frames (new-IsWell limit profile) fine).1 at

  -- Where frames are grouped without an error, the bytes that are still buffered are those of the buffered frames, and within the limit.
  pub accept_all-within :
      (accept_all (new_cycle_buffer limit profile) frames).error ≡ none
      → ((accept_all (new_cycle_buffer limit profile) frames).buffer.bytes
          ≡ size_of (accept_all (new_cycle_buffer limit profile) frames).buffer.frames)
        × ((accept_all (new_cycle_buffer limit profile) frames).buffer.bytes ≤ limit)
  unfolding new_cycle_buffer
  accept_all-within fine =
      let same = accept_all-limit (new_cycle_buffer limit profile) frames in
      let well =
        (lossless (new_cycle_buffer limit profile) frames (new-IsWell limit profile) fine).2 in
      let a = well.within in let b = well.part in (well.counted, omega arith)
