-- ===== src/Prelude/Fallible.antt =====
-- Fallible code: `none` is a throw. The chaining of fallible steps, guards, and what holds of a
-- result when there is one.

use Prim.Native.Nat.{suc}
use mathlib.Core.Path.{◌≡◌, refl, ap, sym, ◌∙◌, subst}
use mathlib.Core.Bool.{Bool, true, false}
use mathlib.Core.Option.{Option, none, some}
use mathlib.Core.List.{List, [], ◌∷◌}
use native.Mathlib.Omega.{arith}
use interleave.Prelude.Lists.{All, length}

infixl 5 ◌>>=◌ ◌>>◌
abbrev pub ◌>>=◌ {ℓ κ} : {A : Type ℓ} {B : Type κ} → Option A → (A → Option B) → Option B
none >>= f = none
some a >>= f = f a

abbrev pub ◌>>◌ {ℓ} : {B : Type ℓ} → Option (Unit {0}) → Option B → Option B
m >> k = m >>= λ _. k

-- `if (!test) throw`
abbrev pub guard : Bool → Option (Unit {0})
guard true = some tt
guard false = none

-- What a predicate says of a result, when there is one.
abbrev pub Holds {ℓ κ} : {A : Type ℓ} → (A → Type κ) → Option A → Type κ
Holds P none = Unit
Holds P (some a) = P a

module _ {ℓ κ} {A : Type ℓ} (P : A → Type κ) where
  pub Holds-of : (m : Option A) → ((a : A) → m ≡ some a → P a) → Holds P m
  Holds-of none h = tt
  Holds-of (some a) h = h a refl

  pub Holds-at : (m : Option A) {a : A} → Holds P m → m ≡ some a → P a
  Holds-at none h e = cc
  Holds-at (some b) {a} h e = let same : b ≡ a = cc in subst P same h

  pub Holds-guard : (b : Bool) (m : Option A) → (b ≡ true → Holds P m) → Holds P (guard b >> m)
  Holds-guard true m h = h refl
  Holds-guard false m h = tt

module _ {ℓ κ μ} {A : Type ℓ} {B : Type κ} (P : B → Type μ) where
  pub Holds-bind :
      (m : Option A) (f : A → Option B) → ((a : A) → m ≡ some a → Holds P (f a)) → Holds P (m >>= f)
  Holds-bind none f h = tt
  Holds-bind (some a) f h = h a refl

pub some_injective {ℓ} : {A : Type ℓ} {a b : A} → some a ≡ some b → a ≡ b
some_injective h = cc

-- A guard that was passed.
pub guard-some {ℓ} :
    {A : Type ℓ} (b : Bool) (m : Option A) {a : A}
    → (guard b >> m) ≡ some a
    → (b ≡ true) × (m ≡ some a)
guard-some true m h = (refl, h)
guard-some false m h = cc

module _ {ℓ κ} {A : Type ℓ} {B : Type κ} where
  pub bind-some :
      (m : Option A) (f : A → Option B) {b : B}
      → (m >>= f) ≡ some b
      → (a : A) × (m ≡ some a) × (f a ≡ some b)
  bind-some none f h = cc
  bind-some (some a) f h = (a, refl, h)

module _ {ℓ κ} {A : Type ℓ} {B : Type κ} where
  -- `values.map(f)` where `f` may throw.
  unfoldable pub traverse : (A → Option B) → List A → Option (List B)
  traverse f [] = some []
  traverse f (x ∷ xs) = do let rest = traverse f xs; y ← f x; ys ← rest; some (y ∷ ys)

  pub traverse-All {μ} :
      (P : B → Type μ) (f : A → Option B)
      → ((a : A) → Holds P (f a))
      → (xs : List A) → Holds (All P) (traverse f xs)
  unfolding traverse
  traverse-All P f h [] = tt
  traverse-All P f h (x ∷ xs) = Holds-bind (All P) (f x) _ (λ y e.
      Holds-bind (All P) (traverse f xs) _ (λ ys e'.
        (Holds-at P (f x) (h x) e, Holds-at (All P) (traverse f xs) (traverse-All P f h xs) e')))

  pub length-traverse :
      (f : A → Option B) (xs : List A) {ys : List B}
      → traverse f xs ≡ some ys
      → length ys ≡ length xs
  unfolding traverse
  length-traverse f [] h = ground arith
  length-traverse f (x ∷ xs) {ys} h =
      let (y, e, k) = bind-some (f x) _ h in
      let (rest, e', k') = bind-some (traverse f xs) _ k in
      let whole : y ∷ rest ≡ ys = cc in ap length (sym whole) ∙ ap suc (length-traverse f xs e')
