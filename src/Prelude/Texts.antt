-- ===== src/Prelude/Texts.antt =====
-- Text as the list of its UTF-16 code units, the comparison of texts, decimal numerals.
use Prim.Native.Nat.{ℕ, zero, suc, ◌+◌, ◌*◌, ◌/◌, ◌%◌, ◌-◌, ◌≤◌, ◌<◌}
use Prim.Native.Char.{code}
use Prim.Native.String.{String}
use mathlib.Core.Path.{◌≡◌, refl, ap, sym, ◌∙◌}
use mathlib.Core.Logic.{◌↔◌, inl, inr}
use mathlib.Core.Bool.{Bool, true, false, ◌&&◌}
use mathlib.Core.List.{List, [], ◌∷◌, ◌++◌}
use native.Mathlib.Omega.{arith}
use interleave.Prelude.Tests.{◌==◌, leb, ltb, if◌then◌else◌, Bool-cases}
use interleave.Prelude.Lists.{all, all-snoc}

abbrev pub Text : Type 0
Text = List ℕ

abbrev pub Bytes : Type 0
Bytes = List ℕ

-- The code units of an ASCII literal.
abbrev pub codes : String → Text
codes String.[] = []
codes (String.◌∷◌ c s) = code c ∷ codes s

unfoldable pub text_eq : Text → Text → Bool
text_eq [] [] = true
text_eq [] (y ∷ ys) = false
text_eq (x ∷ xs) [] = false
text_eq (x ∷ xs) (y ∷ ys) = x == y && text_eq xs ys

pub eq_of_text_eq : (s t : Text) → text_eq s t ≡ true → s ≡ t
unfolding text_eq
eq_of_text_eq [] [] h = refl
eq_of_text_eq [] (y ∷ ys) h = cc
eq_of_text_eq (x ∷ xs) [] h = cc
eq_of_text_eq (x ∷ xs) (y ∷ ys) h = ground (arith, eq_of_text_eq xs ys)

pub text_eq_refl : (s : Text) → text_eq s s ≡ true
unfolding text_eq
text_eq_refl [] = refl
text_eq_refl (x ∷ xs) = ground (arith, text_eq_refl xs)

pub text_eq_of_eq : (s t : Text) → s ≡ t → text_eq s t ≡ true
text_eq_of_eq s t e = rw e (text_eq_refl t)

pub text_eq_iff : (s t : Text) → (text_eq s t ≡ true) ↔ (s ≡ t)
text_eq_iff s t = (eq_of_text_eq s t, text_eq_of_eq s t)

pub text_eq_comm : (s t : Text) → text_eq s t ≡ text_eq t s
text_eq_comm s t = ground (arith, text_eq_iff s t, text_eq_iff t s)

-- `${n}`: the decimal digits of a safe integer, most significant first.
decimal_from : ℕ → ℕ → Text
decimal_from zero n = []
decimal_from (suc fuel) n =
    let front = decimal_from fuel (n / 10) in
    if ltb n 10 then (48 + n) ∷ [] else front ++ (48 + n % 10) ∷ []

unfoldable pub decimal : ℕ → Text
unfolding decimal_from
decimal n = decimal_from (suc n) n

-- `Number(text)` of a text of decimal digits.
unfoldable pub number_from : ℕ → Text → ℕ
number_from acc [] = acc
number_from acc (c ∷ cs) = number_from (acc * 10 + (c - 48)) cs

unfoldable pub number : Text → ℕ
unfolding number_from
number cs = number_from 0 cs

number_from-append :
    (acc : ℕ) (xs ys : Text) → number_from acc (xs ++ ys) ≡ number_from (number_from acc xs) ys
unfolding number_from
number_from-append acc [] ys = refl
number_from-append acc (x ∷ xs) ys = number_from-append (acc * 10 + (x - 48)) xs ys

number-decimal_from : (fuel n : ℕ) → n < fuel → number_from 0 (decimal_from fuel n) ≡ n
unfolding decimal_from number_from
number-decimal_from zero n h = elim h [ ]
number-decimal_from (suc fuel) n h = elim (Bool-cases (ltb n 10)) [
  | inl small ↦ rw small (ground arith)
  | inr big ↦
      rw big (
        rw number_from-append
          (rw (number-decimal_from fuel (n / 10) (ground arith)) (ground arith)))
]

-- Reading back the decimal numeral of a number gives the number.
pub number-decimal : (n : ℕ) → number (decimal n) ≡ n
unfolding number decimal
number-decimal n = number-decimal_from (suc n) n (omega arith)

pub decimal_injective : (m n : ℕ) → decimal m ≡ decimal n → m ≡ n
decimal_injective m n e = sym (number-decimal m) ∙ ap number e ∙ number-decimal n

abbrev pub is_digit : ℕ → Bool
is_digit c = leb 48 c && leb c 57

decimal_from-digits : (fuel n : ℕ) → all is_digit (decimal_from fuel n) ≡ true
unfolding decimal_from
decimal_from-digits zero n = refl
decimal_from-digits (suc fuel) n = elim (Bool-cases (ltb n 10)) [
  | inl small ↦ rw small (ground arith)
  | inr big ↦ rw big (
      all-snoc is_digit (decimal_from fuel (n / 10)) (decimal_from-digits fuel (n / 10))
        (ground arith))
]

-- A numeral is made of digits.
pub decimal-digits : (n : ℕ) → all is_digit (decimal n) ≡ true
unfolding decimal
decimal-digits n = decimal_from-digits (suc n) n

decimal_from-fuel : (f g n : ℕ) → n < f → n < g → decimal_from f n ≡ decimal_from g n
unfolding decimal_from
decimal_from-fuel zero g n p q = absurd (omega arith)
decimal_from-fuel (suc f) zero n p q = absurd (omega arith)
decimal_from-fuel (suc f) (suc g) n p q = elim (Bool-cases (ltb n 10)) [
  | inl small ↦ rw small refl
  | inr big ↦ rw big (
      ap (λ t. t ++ (48 + n % 10) ∷ [])
        (decimal_from-fuel f g (n / 10) (ground arith) (ground arith)))
]

decimal_from_big :
    (f n : ℕ) → 10 ≤ n → decimal_from (suc f) n ≡ decimal_from f (n / 10) ++ (48 + n % 10) ∷ []
unfolding decimal_from
decimal_from_big f n h = ground arith

-- One more digit at the right of a numeral that is not zero.
pub decimal_snoc : (n d : ℕ) → 0 < n → d < 10 → decimal (n * 10 + d) ≡ decimal n ++ (48 + d) ∷ []
unfolding decimal
decimal_snoc n d h k =
    let m = n * 10 + d in
    let front : m / 10 ≡ n = omega arith in
    let back : m % 10 ≡ d = omega arith in
    decimal_from_big m m (omega arith)
    ∙ ap (λ q. decimal_from m q ++ (48 + m % 10) ∷ []) front
    ∙ ap (λ r. decimal_from m n ++ (48 + r) ∷ []) back
    ∙ ap (λ t. t ++ (48 + d) ∷ []) (decimal_from-fuel m (suc n) n (omega arith) (omega arith))

pub decimal_digit : (n : ℕ) → n < 10 → decimal n ≡ (48 + n) ∷ []
unfolding decimal decimal_from
decimal_digit n h = ground arith
