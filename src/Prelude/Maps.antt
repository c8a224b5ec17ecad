-- ===== src/Prelude/Maps.antt =====
-- A `Map` keyed by text: entries in the order of their first insertion. A `Set` of texts: a list
-- without repetition.

use mathlib.Core.Path.{◌≡◌, refl, ap}
use mathlib.Core.Bool.{Bool, ◌||◌}
use mathlib.Core.Option.{Option, none, some}
use mathlib.Core.List.{List, [], ◌∷◌, ◌++◌}
use native.Mathlib.Omega.{arith}
use interleave.Prelude.Tests.{if◌then◌else◌}
use interleave.Prelude.Lists.{any}
use interleave.Prelude.Texts.{Text, text_eq, text_eq_iff}

abbrev pub Dict {ℓ} : Type ℓ → Type ℓ
Dict V = List (Text × V)

module _ {ℓ} {V : Type ℓ} where
  unfoldable pub lookup : Text → Dict V → Option V
  lookup k [] = none
  lookup k ((j, v) ∷ m) = if text_eq j k then some v else lookup k m

  unfoldable pub insert : Text → V → Dict V → Dict V
  insert k v [] = (k, v) ∷ []
  insert k v ((j, w) ∷ m) = if text_eq j k then (j, v) ∷ m else (j, w) ∷ insert k v m

  unfoldable pub remove : Text → Dict V → Dict V
  remove k [] = []
  remove k ((j, w) ∷ m) = let rest = remove k m in if text_eq j k then rest else (j, w) ∷ rest

  pub lookup-insert :
      (k j : Text) (v : V) (m : Dict V)
      → lookup j (insert k v m) ≡ (if text_eq k j then some v else lookup j m)
  unfolding lookup insert
  lookup-insert k j v [] = refl
  lookup-insert k j v ((i, w) ∷ m) =
      ground (arith, text_eq_iff k j, text_eq_iff i k, text_eq_iff i j, lookup-insert k j v m)

  pub lookup-remove :
      (k j : Text) (m : Dict V) → lookup j (remove k m) ≡ (if text_eq k j then none else lookup j m)
  unfolding lookup remove
  lookup-remove k j [] = ground arith
  lookup-remove k j ((i, w) ∷ m) =
      ground (arith, text_eq_iff k j, text_eq_iff i k, text_eq_iff i j, lookup-remove k j m)

abbrev pub has : Text → List Text → Bool
has a s = any (text_eq a) s

unfoldable pub add : Text → List Text → List Text
add a s = if has a s then s else s ++ a ∷ []

has-snoc : (a b : Text) (s : List Text) → has b (s ++ a ∷ []) ≡ has b s || text_eq b a
has-snoc a b [] = ground arith
has-snoc a b (c ∷ s) = ground (arith, has-snoc a b s)

pub has-add : (a b : Text) (s : List Text) → has b (add a s) ≡ has b s || text_eq b a
unfolding add
has-add a b s = ground (arith, has-snoc a b s, text_eq_iff b a, ap (λ t. has t s))
