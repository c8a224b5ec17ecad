-- ===== src/Framing/Stream.antt =====
-- The decoder and the byte stream: nothing is lost, and how the stream is cut into chunks is
-- immaterial.
use interleave.Prelude.{
  ℕ, zero, suc, ◌+◌, ◌≤◌, ◌<◌, ◌≡◌, refl, ap, sym, ◌∙◌, none, List, [], ◌∷◌, ◌++◌, append_assoc,
  arith, Bytes, length, take, drop, concat, length-append, length-drop, take-append-drop,
  take_append_le, drop_append_le, inl, inr, ◌⊎◌,
}
use interleave.Framing.{
  Error, Mode, startup, typed, header, total, u32, next_mode, Scan, put_frame, Verdict, wait, cut,
  fail, verdict, round, scan, scan_all,
}

pub Verdict-cases : (v : Verdict) → (v ≡ wait) ⊎ (v ≡ cut) ⊎ ((e : Error) × (v ≡ fail e))
Verdict-cases wait = inl refl
Verdict-cases cut = inr (inl refl)
Verdict-cases (fail e) = inr (inr (e, refl))

-- A frame that is cut is there in full, and is not empty.
pub verdict-cut :
    (limit : ℕ) (mode : Mode) (bytes : Bytes)
    → verdict limit mode bytes ≡ cut
    → (total mode bytes ≤ length bytes) × (4 < total mode bytes) × (total mode bytes ≤ limit)
unfolding verdict
verdict-cut limit startup bytes h = ground arith
verdict-cut limit typed bytes h = ground arith

abbrev frame : Mode → Bytes → Bytes
frame mode bytes = take (total mode bytes) bytes

abbrev remainder : Mode → Bytes → Bytes
remainder mode bytes = drop (total mode bytes) bytes

module _ (fuel limit : ℕ) (mode : Mode) (bytes : Bytes) where
  abbrev later : Scan
  later = scan fuel limit (next_mode mode (frame mode bytes)) (remainder mode bytes)

  pub scan-of_verdict :
      {v : Verdict}
      → verdict limit mode bytes ≡ v
      → scan (suc fuel) limit mode bytes ≡ round v mode bytes (put_frame (frame mode bytes) later)
  unfolding scan
  scan-of_verdict h = ap (λ v. round v mode bytes (put_frame (frame mode bytes) later)) h

pub remainder-lt :
    (limit : ℕ) (mode : Mode) (bytes : Bytes)
    → verdict limit mode bytes ≡ cut
    → length (remainder mode bytes) < length bytes
remainder-lt limit mode bytes h =
    omega (arith, verdict-cut limit mode bytes h, length-drop (total mode bytes) bytes)

-- The frames and what is left are the bytes that went in.
pub scan-concat :
    (fuel limit : ℕ) (mode : Mode) (bytes : Bytes)
    → concat (scan fuel limit mode bytes).frames ++ (scan fuel limit mode bytes).rest ≡ bytes
scan-concat zero limit mode bytes = unfold scan in refl
scan-concat (suc fuel) limit mode bytes = elim (Verdict-cases (verdict limit mode bytes)) [
  | inl w ↦ rw (scan-of_verdict fuel limit mode bytes w) refl
  | inr (inl c) ↦ rw (scan-of_verdict fuel limit mode bytes c) (
      let s = later fuel limit mode bytes in
      append_assoc (frame mode bytes) (concat s.frames) s.rest
      ∙ ap (λ l. frame mode bytes ++ l)
          (scan-concat fuel limit (next_mode mode (frame mode bytes)) (remainder mode bytes))
      ∙ take-append-drop (total mode bytes) bytes)
  | inr (inr (e, f)) ↦ rw (scan-of_verdict fuel limit mode bytes f) refl
]

pub length-rest-le :
    (fuel limit : ℕ) (mode : Mode) (bytes : Bytes)
    → length (scan fuel limit mode bytes).rest ≤ length bytes
length-rest-le fuel limit mode bytes = omega (
  arith,
  ap length (scan-concat fuel limit mode bytes),
  length-append (concat (scan fuel limit mode bytes).frames) (scan fuel limit mode bytes).rest,
)

-- Fuel above the buffer's length is enough: any two such amounts give one result.
pub scan-fuel :
    (f g limit : ℕ) (mode : Mode) (bytes : Bytes)
    → length bytes < f
    → length bytes < g
    → scan f limit mode bytes ≡ scan g limit mode bytes
scan-fuel zero g limit mode bytes p q = absurd (omega arith)
scan-fuel (suc f) zero limit mode bytes p q = absurd (omega arith)
scan-fuel (suc f) (suc g) limit mode bytes p q = elim (Verdict-cases (verdict limit mode bytes)) [
  | inl w ↦ scan-of_verdict f limit mode bytes w ∙ sym (scan-of_verdict g limit mode bytes w)
  | inr (inl c) ↦
      scan-of_verdict f limit mode bytes c
      ∙ ap (put_frame (frame mode bytes)) (
          scan-fuel f g limit (next_mode mode (frame mode bytes)) (remainder mode bytes)
            (omega (arith, remainder-lt limit mode bytes c))
            (omega (arith, remainder-lt limit mode bytes c)))
      ∙ sym (scan-of_verdict g limit mode bytes c)
  | inr (inr (e, x)) ↦
      scan-of_verdict f limit mode bytes x ∙ sym (scan-of_verdict g limit mode bytes x)
]

u32-append : (xs ys : Bytes) → 4 ≤ length xs → u32 (xs ++ ys) ≡ u32 xs
unfolding u32
u32-append (a ∷ b ∷ c ∷ d ∷ xs) ys h = refl
u32-append (a ∷ b ∷ c ∷ []) ys h = absurd (omega arith)
u32-append (a ∷ b ∷ []) ys h = absurd (omega arith)
u32-append (a ∷ []) ys h = absurd (omega arith)
u32-append [] ys h = absurd (omega arith)

total-append :
    (mode : Mode) (xs ys : Bytes) → header mode ≤ length xs → total mode (xs ++ ys) ≡ total mode xs
unfolding total
total-append startup xs ys h = u32-append xs ys h
total-append typed (x ∷ xs) ys h = ap (λ n. n + 1) (u32-append xs ys (omega arith))
total-append typed [] ys h = absurd (omega arith)

-- What follows a complete frame does not change the decision to cut it.
verdict-cut_append :
    (limit : ℕ) (mode : Mode) (xs ys : Bytes)
    → verdict limit mode xs ≡ cut
    → (verdict limit mode (xs ++ ys) ≡ cut) × (total mode (xs ++ ys) ≡ total mode xs)
unfolding verdict total
verdict-cut_append limit startup xs ys h =
    let same = total-append startup xs ys (ground arith) in
    (rw same (ground (arith, length-append xs ys)), same)
verdict-cut_append limit typed xs ys h =
    let same = total-append typed xs ys (ground arith) in
    (ground (arith, same, length-append xs ys), same)

abbrev pub put_frames : List Bytes → Scan → Scan
put_frames frames s = record s { frames = frames ++ s.frames }

scan-append :
    (f limit : ℕ) (mode : Mode) (xs ys : Bytes)
    → length xs + length ys < f
    → (scan f limit mode xs).error ≡ none
    → scan f limit mode (xs ++ ys)
      ≡ put_frames
          (scan f limit mode xs).frames
          (scan f limit (scan f limit mode xs).mode ((scan f limit mode xs).rest ++ ys))
scan-append zero limit mode xs ys p h = absurd (omega arith)
scan-append (suc f) limit mode xs ys p h = elim (Verdict-cases (verdict limit mode xs)) [
  | inl w ↦ rw (scan-of_verdict f limit mode xs w) refl
  | inr (inl c) ↦
      let (c', same) = verdict-cut_append limit mode xs ys c in
      let fits = (verdict-cut limit mode xs c).0 in
      let front : frame mode (xs ++ ys) ≡ frame mode xs =
        rw same (take_append_le (total mode xs) xs ys fits) in
      let back : remainder mode (xs ++ ys) ≡ remainder mode xs ++ ys =
        rw same (drop_append_le (total mode xs) xs ys fits) in
      let m = next_mode mode (frame mode xs) in
      let r = remainder mode xs in
      let s = scan f limit m r in
      let shorter = remainder-lt limit mode xs c in
      let ih =
        scan-append f limit m r ys (omega arith) (rw (scan-of_verdict f limit mode xs c) at h) in
      let more =
        scan-fuel f (suc f) limit s.mode (s.rest ++ ys)
          (omega (arith, length-append s.rest ys, length-rest-le f limit m r))
          (omega (arith, length-append s.rest ys, length-rest-le f limit m r)) in
      rw (scan-of_verdict f limit mode xs c) (
        scan-of_verdict f limit mode (xs ++ ys) c'
        ∙ ap (λ fr. put_frame fr (scan f limit (next_mode mode fr) (remainder mode (xs ++ ys))))
            front
        ∙ ap (λ b. put_frame (frame mode xs) (scan f limit m b)) back
        ∙ ap (put_frame (frame mode xs)) ih
        ∙ ap (λ t. put_frame (frame mode xs) (put_frames s.frames t)) more)
  | inr (inr (e, x)) ↦
      absurd (ground (arith, ap (λ (s : Scan). s.error) (scan-of_verdict f limit mode xs x)))
]

-- Scanning a longer input goes on from where a shorter one ended without an error.
pub scan_all-append :
    (limit : ℕ) (mode : Mode) (xs ys : Bytes)
    → (scan_all limit mode xs).error ≡ none
    → scan_all limit mode (xs ++ ys)
      ≡ put_frames
          (scan_all limit mode xs).frames
          (scan_all limit (scan_all limit mode xs).mode ((scan_all limit mode xs).rest ++ ys))
unfolding scan_all
scan_all-append limit mode xs ys h =
    let n = suc (length (xs ++ ys)) in
    let bound = length-append xs ys in
    let short = scan-fuel (suc (length xs)) n limit mode xs (omega arith) (omega arith) in
    let s = scan n limit mode xs in
    rw short (
      scan-append n limit mode xs ys (omega arith) (rw short at h)
      ∙ ap (put_frames s.frames) (
          scan-fuel n (suc (length (s.rest ++ ys))) limit s.mode (s.rest ++ ys)
            (omega (arith, length-append s.rest ys, length-rest-le n limit mode xs))
            (omega (arith, length-append s.rest ys, length-rest-le n limit mode xs))))
