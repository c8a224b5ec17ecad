-- ===== src/Prelude/Subs.antt =====
-- Subsequences: what is left of a list when some elements are removed.
use Prim.Native.Nat.{ℕ, zero, suc, ◌+◌}
use mathlib.Core.Path.{◌≡◌, subst}
use mathlib.Core.List.{List, [], ◌∷◌, ◌++◌}
use native.Mathlib.Omega.{arith}
use interleave.Prelude.Lists.{take, drop}

module _ {ℓ} {A : Type ℓ} where
  pub data Sub : List A → List A → Type ℓ where
    done : Sub [] []
    keep : {x : A} {xs ys : List A} → Sub xs ys → Sub (x ∷ xs) (x ∷ ys)
    skip : {y : A} {xs ys : List A} → Sub xs ys → Sub xs (y ∷ ys)

  pub Sub-refl : (xs : List A) → Sub xs xs
  Sub-refl [] = done
  Sub-refl (x ∷ xs) = keep (Sub-refl xs)

  pub Sub-trans : {ys zs : List A} → Sub ys zs → {xs : List A} → Sub xs ys → Sub xs zs
  Sub-trans done p = p
  Sub-trans (keep q) (keep p) = keep (Sub-trans q p)
  Sub-trans (keep q) (skip p) = skip (Sub-trans q p)
  Sub-trans (skip q) p = skip (Sub-trans q p)

  Sub-drop : (n : ℕ) (xs : List A) → Sub (drop n xs) xs
  Sub-drop zero xs = Sub-refl xs
  Sub-drop (suc n) [] = done
  Sub-drop (suc n) (x ∷ xs) = skip (Sub-drop n xs)

  -- A list without a stretch of it.
  pub Sub-cut : (i n : ℕ) (xs : List A) → Sub (take i xs ++ drop (i + n) xs) xs
  Sub-cut zero n xs = Sub-drop (zero + n) xs
  Sub-cut (suc i) n [] = Sub-drop (suc i + n) []
  Sub-cut (suc i) n (x ∷ xs) =
      let e : suc (i + n) ≡ suc i + n = omega arith in
      subst (λ k. Sub (x ∷ (take i xs ++ drop k (x ∷ xs))) (x ∷ xs)) e (keep (Sub-cut i n xs))
