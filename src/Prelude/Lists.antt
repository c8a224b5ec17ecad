-- ===== src/Prelude/Lists.antt =====
-- Lists measured and indexed by native numbers, and predicates on all elements.
use Prim.Native.Nat.{ℕ, zero, suc, ◌+◌, ◌-◌, ◌≤◌, min}
use mathlib.Core.Path.{◌≡◌, refl, ap}
use mathlib.Core.Logic.{◌⊎◌, inl, inr}
use mathlib.Core.Bool.{Bool, true, false, ◌&&◌, ◌||◌}
use mathlib.Core.List.{List, [], ◌∷◌, ◌++◌, map}
use mathlib.Core.Option.{Option, none, some}
use native.Mathlib.Omega.{arith}
use interleave.Prelude.Tests.{if◌then◌else◌, Bool-cases}

module _ {ℓ} {A : Type ℓ} where
  abbrev pub length : List A → ℕ
  length [] = 0
  length (x ∷ xs) = suc (length xs)

  abbrev pub get_elem? : List A → ℕ → Option A
  get_elem? [] i = none
  get_elem? (x ∷ xs) zero = some x
  get_elem? (x ∷ xs) (suc i) = get_elem? xs i

  abbrev pub take : ℕ → List A → List A
  take zero xs = []
  take (suc n) [] = []
  take (suc n) (x ∷ xs) = x ∷ take n xs

  abbrev pub drop : ℕ → List A → List A
  drop zero xs = xs
  drop (suc n) [] = []
  drop (suc n) (x ∷ xs) = drop n xs

  -- Array.prototype.some, every, filter and find
  abbrev pub any : (A → Bool) → List A → Bool
  any p [] = false
  any p (x ∷ xs) = p x || any p xs

  abbrev pub all : (A → Bool) → List A → Bool
  all p [] = true
  all p (x ∷ xs) = p x && all p xs

  abbrev pub filter : (A → Bool) → List A → List A
  filter p [] = []
  filter p (x ∷ xs) = if p x then x ∷ filter p xs else filter p xs

  abbrev pub find : (A → Bool) → List A → Option A
  find p [] = none
  find p (x ∷ xs) = if p x then some x else find p xs

  abbrev pub concat : List (List A) → List A
  concat [] = []
  concat (x ∷ xs) = x ++ concat xs

  abbrev pub All {κ} : (A → Type κ) → List A → Type κ
  All P [] = Unit
  All P (x ∷ xs) = P x × All P xs

  -- Where an element stands.
  pub data In (x : A) : List A → Type ℓ where
    here : {xs : List A} → In x (x ∷ xs)
    there : {y : A} {xs : List A} → In x xs → In x (y ∷ xs)

module _ {ℓ} {A : Type ℓ} where
  pub length-append : (xs ys : List A) → length (xs ++ ys) ≡ length xs + length ys
  length-append [] ys = omega arith
  length-append (x ∷ xs) ys = omega (arith, length-append xs ys)

  pub take-append-drop : (n : ℕ) (xs : List A) → take n xs ++ drop n xs ≡ xs
  take-append-drop zero xs = refl
  take-append-drop (suc n) [] = refl
  take-append-drop (suc n) (x ∷ xs) = rw (take-append-drop n xs)

  pub length-take : (n : ℕ) (xs : List A) → length (take n xs) ≡ min n (length xs)
  length-take zero xs = omega arith
  length-take (suc n) [] = omega arith
  length-take (suc n) (x ∷ xs) = omega (arith, length-take n xs)

  pub length-drop : (n : ℕ) (xs : List A) → length (drop n xs) ≡ length xs - n
  length-drop zero xs = omega arith
  length-drop (suc n) [] = omega arith
  length-drop (suc n) (x ∷ xs) = omega (arith, length-drop n xs)

  pub take_append_le : (n : ℕ) (xs ys : List A) → n ≤ length xs → take n (xs ++ ys) ≡ take n xs
  take_append_le zero xs ys h = refl
  take_append_le (suc n) [] ys h = absurd (omega arith)
  take_append_le (suc n) (x ∷ xs) ys h = ap (λ l. x ∷ l) (take_append_le n xs ys (omega arith))

  pub drop_append_le :
      (n : ℕ) (xs ys : List A) → n ≤ length xs → drop n (xs ++ ys) ≡ drop n xs ++ ys
  drop_append_le zero xs ys h = refl
  drop_append_le (suc n) [] ys h = absurd (omega arith)
  drop_append_le (suc n) (x ∷ xs) ys h = drop_append_le n xs ys (omega arith)

  pub take_append_length : (xs ys : List A) → take (length xs) (xs ++ ys) ≡ xs
  take_append_length [] ys = refl
  take_append_length (x ∷ xs) ys = ap (λ l. x ∷ l) (take_append_length xs ys)

  pub drop_append_length : (xs ys : List A) → drop (length xs) (xs ++ ys) ≡ ys
  drop_append_length [] ys = refl
  drop_append_length (x ∷ xs) ys = drop_append_length xs ys

  pub All-append {κ} : (P : A → Type κ) (xs ys : List A) → All P xs → All P ys → All P (xs ++ ys)
  All-append P [] ys h k = k
  All-append P (x ∷ xs) ys h k = (h.0, All-append P xs ys h.1 k)

  pub All-In {κ} : (P : A → Type κ) (xs : List A) {x : A} → All P xs → In x xs → P x
  All-In P [] h m = elim m [ ]
  All-In P (x ∷ xs) h here = h.0
  All-In P (x ∷ xs) h (there m) = All-In P xs h.1 m

  In-cons_head :
      (p : A → Bool) {x y : A} {xs ys : List A}
      → p y ≡ true
      → (In x ys → In x xs × (p x ≡ true))
      → In x (y ∷ ys)
      → In x (y ∷ xs) × (p x ≡ true)
  In-cons_head p t k here = (here, t)
  In-cons_head p t k (there m) = (there (k m).0, (k m).1)

  -- What a filter keeps was in the list and passed the test.
  pub In-filter : (p : A → Bool) (xs : List A) {x : A} → In x (filter p xs) → In x xs × (p x ≡ true)
  In-filter p [] m = elim m [ ]
  In-filter p (y ∷ ys) m = elim (Bool-cases (p y)) [
    | inl t ↦ In-cons_head p t (λ k. In-filter p ys k) (rw t at m)
    | inr f ↦ (there (In-filter p ys (rw f at m)).0, (In-filter p ys (rw f at m)).1)
  ]

  pub find-In : (p : A → Bool) (xs : List A) {x : A} → find p xs ≡ some x → In x xs × (p x ≡ true)
  find-In p [] h = cc
  find-In p (y ∷ ys) {x} h = elim (Bool-cases (p y)) [
    | inl t ↦ let e : y ≡ x = ground arith in rw (← e) (here, t)
    | inr f ↦ (there (find-In p ys (rw f at h)).0, (find-In p ys (rw f at h)).1)
  ]

  pub all-snoc :
      (p : A → Bool) (xs : List A) {x : A}
      → all p xs ≡ true
      → p x ≡ true
      → all p (xs ++ x ∷ []) ≡ true
  all-snoc p [] h k = rw k
  all-snoc p (y ∷ ys) {x} h k = ground (arith, all-snoc p ys {x = x})

  pub all-In : (p : A → Bool) (xs : List A) {x : A} → all p xs ≡ true → In x xs → p x ≡ true
  all-In p [] h m = elim m [ ]
  all-In p (y ∷ ys) h here = ground arith
  all-In p (y ∷ ys) h (there m) = all-In p ys (ground arith) m

  pub find-none : (p : A → Bool) (xs : List A) {x : A} → find p xs ≡ none → In x xs → p x ≡ false
  find-none p [] h m = elim m [ ]
  find-none p (y ∷ ys) h here = ground arith
  find-none p (y ∷ ys) h (there m) = find-none p ys (ground arith) m

  pub In-cons : {x y : A} {xs : List A} → In x (y ∷ xs) → (x ≡ y) ⊎ In x xs
  In-cons here = inl refl
  In-cons (there m) = inr m

  pub In-append : {x : A} (xs ys : List A) → In x (xs ++ ys) → In x xs ⊎ In x ys
  In-append [] ys m = inr m
  In-append (y ∷ xs) ys here = inl here
  In-append (y ∷ xs) ys (there m) = elim (In-append xs ys m) [
    | inl p ↦ inl (there p)
    | inr q ↦ inr q
  ]

module _ {ℓ κ} {A : Type ℓ} {B : Type κ} where
  pub In-map : (f : A → B) (xs : List A) {y : B} → In y (map f xs) → (x : A) × In x xs × (f x ≡ y)
  In-map f [] m = elim m [ ]
  In-map f (x ∷ xs) here = (x, here, refl)
  In-map f (x ∷ xs) (there m) = let (z, p, e) = In-map f xs m in (z, there p, e)

  pub map-In : (f : A → B) (xs : List A) {x : A} → In x xs → In (f x) (map f xs)
  map-In f [] m = elim m [ ]
  map-In f (x ∷ xs) here = here
  map-In f (x ∷ xs) (there m) = there (map-In f xs m)

module _ {ℓ} {A : Type ℓ} where
  pub In-append_left : {x : A} (xs ys : List A) → In x xs → In x (xs ++ ys)
  In-append_left [] ys m = elim m [ ]
  In-append_left (y ∷ xs) ys here = here
  In-append_left (y ∷ xs) ys (there m) = there (In-append_left xs ys m)

  pub In-append_right : {x : A} (xs ys : List A) → In x ys → In x (xs ++ ys)
  In-append_right [] ys m = m
  In-append_right (y ∷ xs) ys m = there (In-append_right xs ys m)

  pub In-swap : {x : A} (xs ys : List A) → In x (xs ++ ys) → In x (ys ++ xs)
  In-swap xs ys m = elim (In-append xs ys m) [
    | inl p ↦ In-append_right ys xs p
    | inr q ↦ In-append_left ys xs q
  ]

  -- Where `find` stopped: nothing before it passes the test.
  pub find-split :
      (p : A → Bool) (xs : List A) {x : A}
      → find p xs ≡ some x
      → (pre : List A) × (post : List A) × (xs ≡ pre ++ x ∷ post) × All (λ y. p y ≡ false) pre
  find-split p [] h = cc
  find-split p (y ∷ ys) {x} h = elim (Bool-cases (p y)) [
    | inl t ↦ let e : y ≡ x = ground arith in ([], ys, ap (λ z. z ∷ ys) e, tt)
    | inr f ↦
        let (pre, post, e, h') = find-split p ys {x = x} (ground arith) in
        (y ∷ pre, post, ap (λ l. y ∷ l) e, (f, h'))
  ]

  pub filter-In : (p : A → Bool) (xs : List A) {x : A} → In x xs → p x ≡ true → In x (filter p xs)
  filter-In p [] m h = elim m [ ]
  filter-In p (y ∷ ys) here h = rw h here
  filter-In p (y ∷ ys) (there m) h = elim (Bool-cases (p y)) [
    | inl t ↦ rw t (there (filter-In p ys m h))
    | inr f ↦ rw f (filter-In p ys m h)
  ]

  pub any-In : (p : A → Bool) (xs : List A) {x : A} → In x xs → p x ≡ true → any p xs ≡ true
  any-In p [] m h = elim m [ ]
  any-In p (y ∷ ys) here h = rw h refl
  any-In p (y ∷ ys) {x} (there m) h = ground (arith, any-In p ys {x = x} m h)

  pub In-any : (p : A → Bool) (xs : List A) → any p xs ≡ true → (x : A) × In x xs × (p x ≡ true)
  In-any p [] h = cc
  In-any p (y ∷ ys) h = elim (Bool-cases (p y)) [
    | inl t ↦ (y, here, t)
    | inr f ↦ let (x, m, e) = In-any p ys (ground arith) in (x, there m, e)
  ]

  pub All-intro {κ} : (P : A → Type κ) (xs : List A) → ((x : A) → In x xs → P x) → All P xs
  All-intro P [] h = tt
  All-intro P (x ∷ xs) h = (h x here, All-intro P xs (λ y m. h y (there m)))

  pub In-concat :
      {x : A} {xs : List A} (xss : List (List A)) → In xs xss → In x xs → In x (concat xss)
  In-concat [] m k = elim m [ ]
  In-concat (ys ∷ xss) here k = In-append_left ys (concat xss) k
  In-concat (ys ∷ xss) (there m) k = In-append_right ys (concat xss) (In-concat xss m k)
