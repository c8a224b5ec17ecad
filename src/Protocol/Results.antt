-- ===== src/Protocol/Results.antt =====
-- What holds of a result that is no error.
use interleave.Prelude.{◌≡◌, refl, Bool, true, false, Bool-cases, inl, inr, if◌then◌else◌}
use interleave.Protocol.Reader.{AssemblerError, Result, error, ok, and_then, throw_if}

-- The property of a result that is no error.
abbrev pub Holds : {A : Type 0} → (A → Type 0) → Result A → Type 0
Holds P (error e) = Unit
Holds P (ok a) = P a

pub Holds-and_then :
    {A B : Type 0} (Q : A → Type 0) (P : B → Type 0) (r : Result A) (f : A → Result B)
    → Holds Q r
    → ((a : A) → Q a → Holds P (f a))
    → Holds P (and_then r f)
Holds-and_then Q P (error e) f h k = tt
Holds-and_then Q P (ok a) f h k = k a h

pub Holds-each :
    {A B : Type 0} (P : B → Type 0) (r : Result A) (f : A → Result B)
    → ((a : A) → Holds P (f a))
    → Holds P (and_then r f)
Holds-each P (error e) f k = tt
Holds-each P (ok a) f k = k a

pub Holds-if :
    {A : Type 0} (P : A → Type 0) (b : Bool) (x y : Result A)
    → Holds P x
    → Holds P y
    → Holds P (if b then x else y)
Holds-if P b x y h k = elim (Bool-cases b) [ inl yes' ↦ rw yes' h | inr no' ↦ rw no' k ]

-- The test of a branch is known in it.
pub Holds-cases :
    {A : Type 0} (P : A → Type 0) (b : Bool) (x y : Result A)
    → (b ≡ true → Holds P x)
    → (b ≡ false → Holds P y)
    → Holds P (if b then x else y)
Holds-cases P b x y h k = elim (Bool-cases b) [
  | inl yes' ↦ rw yes' (h yes')
  | inr no' ↦ rw no' (k no')
]

pub Holds-throw_if :
    {A : Type 0} (P : A → Type 0) (b : Bool) (e : AssemblerError) (m : Result A)
    → (b ≡ false → Holds P m)
    → Holds P (and_then (throw_if b e) (λ done. m))
Holds-throw_if P b e m h = elim (Bool-cases b) [ inl yes' ↦ rw yes' tt | inr no' ↦ rw no' (h no') ]

-- The value of a step is known after it.
pub Holds-of :
    {A B : Type 0} (P : B → Type 0) (m : Result A) (f : A → Result B)
    → ((a : A) → m ≡ ok a → Holds P (f a))
    → Holds P (and_then m f)
Holds-of P (error e) f h = tt
Holds-of P (ok a) f h = h a refl

-- The steps of a result that is no error.
pub and_then-ok :
    {A B : Type 0} (m : Result A) (f : A → Result B) {b : B}
    → and_then m f ≡ ok b
    → (a : A) × (m ≡ ok a) × (f a ≡ ok b)
and_then-ok (error e) f h = cc
and_then-ok (ok a) f h = (a, refl, h)

pub throw_if-ok :
    {B : Type 0} (b : Bool) (e : AssemblerError) (m : Result B) {x : B}
    → and_then (throw_if b e) (λ done. m) ≡ ok x
    → (b ≡ false) × (m ≡ ok x)
throw_if-ok true e m h = cc
throw_if-ok false e m h = (refl, h)
