-- ===== src/Protocol/Cycles/Grouping.antt =====
-- What one frame does to the buffer.
use interleave.Prelude.{
  ℕ, ◌+◌, ◌≤◌, ◌≡◌, ◌⊎◌, inl, inr, refl, sym, ◌∙◌, subst, true, false, ◌&&◌, ◌||◌, not, none, some,
  List, [], ◌∷◌, ◌++◌, Bytes, length, ltb, arith, All, All-append, Bool-cases, Option-cases,
}
use interleave.Protocol.Cycles.{
  CycleBuffer, Accepted, failed, pending, cycle, CycleError, is_flush, is_sync, is_query,
  is_extended, refusal, take_in, accept,
}

-- A frame of the extended protocol that ends no cycle.
abbrev pub IsOpenFrame : Bytes → Type 0
IsOpenFrame frame = (is_extended frame ≡ true) × (is_sync frame ≡ false) × (is_flush frame ≡ false)

abbrev pub size_of : List Bytes → ℕ
size_of [] = 0
size_of (frame ∷ frames) = length frame + size_of frames

-- A Simple Query by itself, or open frames and then a Sync or a Flush.
abbrev pub IsCycle : List Bytes → Type 0
IsCycle c =
    ((query : Bytes) × (c ≡ query ∷ []) × (is_query query ≡ true))
    ⊎ ((body : List Bytes) × (end : Bytes) × (c ≡ body ++ end ∷ [])
        × All IsOpenFrame body
        × (is_sync end || is_flush end ≡ true))

pub record IsWell (b : CycleBuffer) : Type 0 where
  pub opened : All IsOpenFrame b.frames
  pub counted : b.bytes ≡ size_of b.frames
  pub within : b.cycle_bytes ≤ b.max_buffered
  pub part : b.bytes ≤ b.cycle_bytes

size_of-append : (xs ys : List Bytes) → size_of (xs ++ ys) ≡ size_of xs + size_of ys
size_of-append [] ys = omega arith
size_of-append (x ∷ xs) ys = let rest = size_of-append xs ys in omega arith

-- An open frame has a type byte, so a buffer without bytes has no frames.
size_of-zero : (frames : List Bytes) → All IsOpenFrame frames → size_of frames ≡ 0 → frames ≡ []
size_of-zero [] h e = refl
size_of-zero ([] ∷ frames) ((extended, s, f), more) e = absurd (ground arith)
size_of-zero ((t ∷ fields) ∷ frames) h e = absurd (omega arith)

-- What `accept` may come to.
abbrev pub Step : CycleBuffer → Bytes → CycleBuffer × Accepted → Type 0
Step b frame (b', failed e) = b'.frames ≡ b.frames
Step b frame (b', pending) = (b'.frames ≡ b.frames ++ frame ∷ []) × IsWell b'
Step b frame (b', cycle c) = (c ≡ b.frames ++ frame ∷ []) × (b'.frames ≡ []) × IsCycle c × IsWell b'

take_in-Step :
    (b : CycleBuffer) (frame : Bytes)
    → IsWell b
    → is_extended frame ≡ true
    → Step b frame (take_in b frame)
unfolding take_in
take_in-Step b frame h extended =
    elim (Bool-cases (ltb b.max_buffered (b.cycle_bytes + length frame))) [
      | inl full ↦ rw full refl
      | inr room ↦ elim (Bool-cases (not (is_sync frame) && not (is_flush frame))) [
        | inl goes_on ↦ rw room (
            rw goes_on (
              refl,
              record {
                opened =
                    All-append IsOpenFrame b.frames (frame ∷ []) h.opened
                      ((extended, ground arith, ground arith), tt);
                counted =
                    let e = size_of-append b.frames (frame ∷ []) in
                    let c = h.counted in omega arith;
                within = ground arith;
                part = let p = h.part in omega arith;
              },
            ))
        | inr ends ↦
            let ended : is_sync frame || is_flush frame ≡ true = ground arith in
            rw room (
              rw ends (
                refl,
                refl,
                inr (b.frames, frame, refl, h.opened, ended),
                record {
                  opened = tt;
                  counted = refl;
                  within = let w = h.within in ground arith;
                  part = omega arith;
                },
              ))
      ]
    ]

accept-refused :
    (b : CycleBuffer) (frame : Bytes) (e : CycleError)
    → refusal b frame ≡ some e
    → accept b frame ≡ (b, failed e)
unfolding accept
accept-refused b frame e h = ground arith

accept-query :
    (b : CycleBuffer) (frame : Bytes)
    → refusal b frame ≡ none
    → is_query frame ≡ true
    → accept b frame ≡ (b, cycle (frame ∷ []))
unfolding accept
accept-query b frame h q = ground arith

accept-taken :
    (b : CycleBuffer) (frame : Bytes)
    → refusal b frame ≡ none
    → is_query frame ≡ false
    → accept b frame ≡ take_in b frame
unfolding accept
accept-taken b frame h q = ground arith

refusal-query :
    (b : CycleBuffer) (frame : Bytes) → refusal b frame ≡ none → is_query frame ≡ true → b.bytes ≡ 0
unfolding refusal
refusal-query b frame h q = ground arith

refusal-extended :
    (b : CycleBuffer) (frame : Bytes)
    → refusal b frame ≡ none
    → is_query frame ≡ false
    → is_extended frame ≡ true
unfolding refusal
refusal-extended b frame h q = ground arith

pub accept-Step : (b : CycleBuffer) (frame : Bytes) → IsWell b → Step b frame (accept b frame)
accept-Step b frame h = elim (Option-cases (refusal b frame)) [
  | inr (e, refused) ↦ rw (accept-refused b frame e refused) refl
  | inl free ↦ elim (Bool-cases (is_query frame)) [
    | inl query ↦
        let empty : b.frames ≡ [] =
          size_of-zero b.frames h.opened (sym h.counted ∙ refusal-query b frame free query) in
        rw (accept-query b frame free query) (rw empty refl, empty, inl (frame, refl, query), h)
    | inr other ↦
        rw (accept-taken b frame free other)
          (take_in-Step b frame h (refusal-extended b frame free other))
  ]
]

-- The buffer after a frame that was not refused.
pub accept-IsWell :
    (b b' : CycleBuffer) (frame : Bytes) (out : Accepted)
    → IsWell b
    → accept b frame ≡ (b', out)
    → Step b frame (b', out)
accept-IsWell b b' frame out h e = subst (Step b frame) e (accept-Step b frame h)
