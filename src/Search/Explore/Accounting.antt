-- ===== src/Search/Explore/Accounting.antt =====
-- Bytes and occurrences of plans.
use interleave.Prelude.{
  ℕ, zero, suc, ◌+◌, ◌≤◌, ◌≡◌, refl, sym, true, false, some, List, [], ◌∷◌, ◌++◌, Text,
  text_eq_refl, eq_of_text_eq, take, any, Bool-cases, Option-cases, inl, inr, arith, if◌then◌else◌,
}
use interleave.Search.Explore.{
  plan_eq, plan_bytes, prefix_bytes, choice_bytes, joined_bytes, splice,
}

pub plan_eq_refl : (p : List Text) → plan_eq p p ≡ true
unfolding plan_eq
plan_eq_refl [] = refl
plan_eq_refl (x ∷ xs) = let e = text_eq_refl x in let rest = plan_eq_refl xs in ground arith

pub eq_of_plan_eq : (p q : List Text) → plan_eq p q ≡ true → p ≡ q
unfolding plan_eq
eq_of_plan_eq [] [] h = refl
eq_of_plan_eq [] (y ∷ ys) h = absurd (ground arith)
eq_of_plan_eq (x ∷ xs) [] h = absurd (ground arith)
eq_of_plan_eq (x ∷ xs) (y ∷ ys) h =
    let e : x ≡ y = eq_of_text_eq x y (ground arith) in
    let rest : xs ≡ ys = eq_of_plan_eq xs ys (ground arith) in rw e (rw rest refl)

-- How often a plan stands in a list.
abbrev pub occurrences : List Text → List (List Text) → ℕ
occurrences p [] = 0
occurrences p (q ∷ qs) = (if plan_eq p q then 1 else 0) + occurrences p qs

pub occurrences-append :
    (p : List Text) (xs ys : List (List Text))
    → occurrences p (xs ++ ys) ≡ occurrences p xs + occurrences p ys
occurrences-append p [] ys = omega arith
occurrences-append p (x ∷ xs) ys = let rest = occurrences-append p xs ys in omega arith

pub occurrences_none :
    (p : List Text) (xs : List (List Text)) → any (plan_eq p) xs ≡ false → occurrences p xs ≡ 0
occurrences_none p [] h = refl
occurrences_none p (x ∷ xs) h =
    let rest = occurrences_none p xs (ground arith) in
    let other : plan_eq p x ≡ false = ground arith in rw other (omega arith)

pub occurrences_some :
    (p : List Text) (xs : List (List Text)) → any (plan_eq p) xs ≡ true → 1 ≤ occurrences p xs
occurrences_some p [] h = absurd (ground arith)
occurrences_some p (x ∷ xs) h = elim (Bool-cases (plan_eq p x)) [
  | inl same ↦ rw same (omega arith)
  | inr other ↦ let rest = occurrences_some p xs (ground arith) in omega arith
]

pub occurrences-splice :
    (p : List Text) (i : ℕ) (xs : List (List Text)) (x : List Text) (rest : List (List Text))
    → splice i xs ≡ some (x, rest)
    → occurrences p xs ≡ (if plan_eq p x then 1 else 0) + occurrences p rest
unfolding splice
occurrences-splice p i [] x rest h = absurd (ground arith)
occurrences-splice p zero (y ∷ ys) x rest h =
    let head : y ≡ x = ground arith in let tail : ys ≡ rest = ground arith in rw head (rw tail refl)
occurrences-splice p (suc i) (y ∷ ys) x rest h = elim (Option-cases (splice i ys)) [
  | inl e ↦ absurd (ground arith)
  | inr ((z, zs), e) ↦
      let ih = occurrences-splice p i ys z zs e in
      let head : z ≡ x = ground arith in
      let tail : y ∷ zs ≡ rest = ground arith in rw (sym tail) (rw (sym head) (omega arith))
]

abbrev pub sum_of {ℓ} : {A : Type ℓ} → (A → ℕ) → List A → ℕ
sum_of f [] = 0
sum_of f (x ∷ xs) = f x + sum_of f xs

pub sum_of-append {ℓ} :
    {A : Type ℓ} (f : A → ℕ) (xs ys : List A) → sum_of f (xs ++ ys) ≡ sum_of f xs + sum_of f ys
sum_of-append f [] ys = omega arith
sum_of-append f (x ∷ xs) ys = let rest = sum_of-append f xs ys in omega arith

joined_bytes-snoc :
    (n : ℕ) (choices : List Text) (x : Text)
    → joined_bytes (take n choices ++ x ∷ []) + 1 ≡ prefix_bytes n choices + choice_bytes x
unfolding prefix_bytes
joined_bytes-snoc zero choices x = omega arith
joined_bytes-snoc (suc n) [] x = omega arith
joined_bytes-snoc (suc zero) (y ∷ ys) x = omega arith
joined_bytes-snoc (suc (suc n)) (y ∷ []) x = omega arith
joined_bytes-snoc (suc (suc n)) (y ∷ z ∷ zs) x =
    let ih = joined_bytes-snoc (suc n) (z ∷ zs) x in omega arith

-- The bytes that are counted for a new plan, from the running sums, are those of its encoding.
pub plan_bytes-snoc :
    (n : ℕ) (choices : List Text) (x : Text)
    → prefix_bytes n choices + choice_bytes x + 1 ≡ plan_bytes (take n choices ++ x ∷ [])
unfolding plan_bytes
plan_bytes-snoc n choices x = let e = joined_bytes-snoc n choices x in omega arith
