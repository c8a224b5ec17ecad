-- ===== src/Protocol/Session/Metered.antt =====
-- The bytes of the entries of a map, after an insertion and a removal.
use interleave.Prelude.{
  ℕ, ◌+◌, ◌≡◌, refl, ap, ◌∙◌, subst, false, none, [], ◌∷◌, Text, Dict, lookup, insert, remove,
  length, text_eq, eq_of_text_eq, text_eq_comm, inl, inr, lookup-insert, lookup-remove, Bool-cases,
  arith,
}
use interleave.Protocol.Session.{entry_bytes}

module _ {ℓ} {V : Type ℓ} where
  -- No key stands twice.
  abbrev pub IsUnique : Dict V → Type ℓ
  IsUnique [] = Unit
  IsUnique ((k, v) ∷ m) = (lookup k m ≡ none) × IsUnique m

  abbrev pub metered : (V → ℕ) → Dict V → ℕ
  metered size [] = 0
  metered size ((k, v) ∷ m) = size v + length k + metered size m

  pub insert-IsUnique : (k : Text) (v : V) (m : Dict V) → IsUnique m → IsUnique (insert k v m)
  unfolding insert
  insert-IsUnique k v [] h = (unfold lookup in refl, tt)
  insert-IsUnique k v ((j, w) ∷ m) (new, rest) = elim (Bool-cases (text_eq j k)) [
    | inl same ↦ rw same (new, rest)
    | inr other ↦
        let absent : lookup j (insert k v m) ≡ none =
          lookup-insert k j v m ∙ (let c = text_eq_comm k j in ground arith) in
        rw other (absent, insert-IsUnique k v m rest)
  ]

  pub remove-IsUnique : (k : Text) (m : Dict V) → IsUnique m → IsUnique (remove k m)
  unfolding remove
  remove-IsUnique k [] h = tt
  remove-IsUnique k ((j, w) ∷ m) (new, rest) = elim (Bool-cases (text_eq j k)) [
    | inl same ↦ rw same (remove-IsUnique k m rest)
    | inr other ↦
        let absent : lookup j (remove k m) ≡ none = lookup-remove k j m ∙ ground arith in
        rw other (absent, remove-IsUnique k m rest)
  ]

  pub metered-insert :
      (size : V → ℕ) (k : Text) (v : V) (m : Dict V)
      → metered size (insert k v m) + entry_bytes size k (lookup k m)
        ≡ metered size m + (size v + length k)
  unfolding insert lookup
  metered-insert size k v [] = omega arith
  metered-insert size k v ((j, w) ∷ m) = elim (Bool-cases (text_eq j k)) [
    | inl same ↦
        let e : length j ≡ length k = ap length (eq_of_text_eq j k same) in rw same (omega arith)
    | inr other ↦ let ih = metered-insert size k v m in rw other (omega arith)
  ]

  metered-remove_absent :
      (size : V → ℕ) (k : Text) (m : Dict V)
      → lookup k m ≡ none
      → metered size (remove k m) ≡ metered size m
  unfolding remove lookup
  metered-remove_absent size k [] h = refl
  metered-remove_absent size k ((j, w) ∷ m) h =
      let other : text_eq j k ≡ false = ground arith in
      let ih = metered-remove_absent size k m (ground arith) in rw other (omega arith)

  pub metered-remove :
      (size : V → ℕ) (k : Text) (m : Dict V)
      → IsUnique m
      → metered size (remove k m) + entry_bytes size k (lookup k m) ≡ metered size m
  unfolding remove lookup
  metered-remove size k [] h = omega arith
  metered-remove size k ((j, w) ∷ m) (new, rest) = elim (Bool-cases (text_eq j k)) [
    | inl same ↦
        let e : j ≡ k = eq_of_text_eq j k same in
        let none_left = metered-remove_absent size k m (subst (λ x. lookup x m ≡ none) e new) in
        let l : length j ≡ length k = ap length e in rw same (omega arith)
    | inr other ↦ let ih = metered-remove size k m rest in rw other (omega arith)
  ]
