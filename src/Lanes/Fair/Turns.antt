-- ===== src/Lanes/Fair/Turns.antt =====
-- The order in which a fair choice looks at the actors, described without indices.
use interleave.Prelude.{
  ℕ, suc, ◌+◌, ◌%◌, ◌≡◌, ◌⊎◌, inl, inr, refl, sym, ap, subst, ◌∙◌, false, Option, none, some, List,
  [], ◌∷◌, ◌++◌, Text, text_eq, has, eq_of_text_eq, text_eq_comm, Bool-cases, Option-cases, length,
  length-append, take, drop, take_append_length, drop_append_length, append-nil, append_assoc,
  arith,
}
use interleave.Lanes.Fair.{index_of, rotation_start, rotation}
use native.Mathlib.Nat.{mod-eq_of_lt, mod_self}

-- The names as they are, or where the last actor is one of them those after its first place come
-- first, then those before it, and itself at the end.
abbrev pub IsTurnOrder : List Text → Option Text → List Text → Type 0
IsTurnOrder names none turns = (turns ≡ names)
IsTurnOrder names (some last) turns =
    ((has last names ≡ false) × (turns ≡ names))
    ⊎ ((before : List Text) × (after : List Text) × (names ≡ before ++ last ∷ after)
        × (has last before ≡ false)
        × (turns ≡ after ++ (before ++ last ∷ [])))

index_of-none :
    (name : Text) (names : List Text) → index_of name names ≡ none → has name names ≡ false
unfolding index_of
index_of-none name [] h = refl
index_of-none name (n ∷ names) h = elim (Bool-cases (text_eq n name)) [
  | inl same ↦ absurd (ground arith)
  | inr other ↦ elim (Option-cases (index_of name names)) [
    | inl e ↦ let rest = index_of-none name names e in let c = text_eq_comm n name in ground arith
    | inr (i, e) ↦ absurd (ground arith)
  ]
]

index_of-some :
    (name : Text) (names : List Text) (i : ℕ)
    → index_of name names ≡ some i
    → (before : List Text) × (after : List Text) × (names ≡ before ++ name ∷ after)
      × (has name before ≡ false)
      × (length before ≡ i)
unfolding index_of
index_of-some name [] i h = absurd (ground arith)
index_of-some name (n ∷ names) i h = elim (Bool-cases (text_eq n name)) [
  | inl same ↦
      let e : n ≡ name = eq_of_text_eq n name same in ([], names, rw e refl, refl, ground arith)
  | inr other ↦ elim (Option-cases (index_of name names)) [
    | inl e ↦ absurd (ground arith)
    | inr (j, e) ↦
        let (before, after, split, clear, long) = index_of-some name names j e in
        let c = text_eq_comm n name in
        (n ∷ before, after, ap (λ x. n ∷ x) split, ground arith, ground arith)
  ]
]

turned :
    (before after : List Text) (last : Text)
    → length (before ++ last ∷ after) ≡ length before + suc (length after)
turned before after last = length-append before (last ∷ after)

rotated :
    (before after : List Text) (last : Text)
    → (let start = (length before + 1) % length (before ++ last ∷ after) in
        drop start (before ++ last ∷ after) ++ take start (before ++ last ∷ after))
      ≡ after ++ (before ++ last ∷ [])
rotated before [] last =
    let long : length (before ++ last ∷ []) ≡ length before + 1 = turned before [] last in
    let start : (length before + 1) % length (before ++ last ∷ []) ≡ 0 =
      rw long (mod_self (length before + 1)) in
    rw start (append-nil (before ++ last ∷ []))
rotated before (a ∷ after) last =
    let long = turned before (a ∷ after) last in
    let start : (length before + 1) % length (before ++ last ∷ a ∷ after)
        ≡ length (before ++ last ∷ []) =
      mod-eq_of_lt (omega arith) ∙ sym (turned before [] last) in
    let split : before ++ last ∷ a ∷ after ≡ (before ++ last ∷ []) ++ a ∷ after =
      sym (append_assoc before (last ∷ []) (a ∷ after)) in
    rw start (
      rw split (
        rw (drop_append_length (before ++ last ∷ []) (a ∷ after))
          (rw (take_append_length (before ++ last ∷ []) (a ∷ after)) refl)))

rotation_start-unknown :
    (names : List Text) (last : Text)
    → index_of last names ≡ none
    → rotation_start names (some last) ≡ 0
unfolding rotation_start
rotation_start-unknown names last h = ground arith

rotation_start-known :
    (names : List Text) (last : Text) (i : ℕ)
    → index_of last names ≡ some i
    → rotation_start names (some last) ≡ (i + 1) % length names
unfolding rotation_start
rotation_start-known names last i h = ground arith

known :
    (names : List Text) (last : Text) (i start : ℕ)
    → index_of last names ≡ some i
    → start ≡ (i + 1) % length names
    → IsTurnOrder names (some last) (drop start names ++ take start names)
known names last i start e s =
    let (before, after, split, clear, long) = index_of-some last names i e in
    let turned' : drop start names ++ take start names ≡ after ++ (before ++ last ∷ []) =
      subst (λ x. drop x names ++ take x names ≡ after ++ (before ++ last ∷ [])) (sym s)
        (subst
          (λ j.
            drop ((j + 1) % length names) names ++ take ((j + 1) % length names) names
            ≡ after ++ (before ++ last ∷ []))
          long
          (subst
            (λ x.
              drop ((length before + 1) % length x) x ++ take ((length before + 1) % length x) x
              ≡ after ++ (before ++ last ∷ []))
            (sym split) (rotated before after last))) in
    inr (before, after, split, clear, turned')

pub rotation-IsTurnOrder :
    (names : List Text) (last : Option Text) → IsTurnOrder names last (rotation names last)
unfolding rotation
rotation-IsTurnOrder names none = unfold rotation_start in append-nil names
rotation-IsTurnOrder names (some last) = elim (Option-cases (index_of last names)) [
  | inl e ↦ inl (
    index_of-none last names e,
    subst (λ x. drop x names ++ take x names ≡ names) (sym (rotation_start-unknown names last e))
        (append-nil names),
  )
  | inr (i, e) ↦
      known names last i (rotation_start names (some last)) e (rotation_start-known names last i e)
]
