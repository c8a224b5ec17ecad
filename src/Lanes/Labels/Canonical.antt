-- ===== src/Lanes/Labels/Canonical.antt =====
-- Labels are canonical: what is parsed prints back as it was, and a label determines its lane.
use interleave.Prelude.{
  ℕ, ◌+◌, ◌*◌, ◌-◌, ◌<◌, ◌≡◌, refl, ap, sym, ◌∙◌, Bool, true, false, none, some, [], ◌∷◌, ◌++◌,
  append-nil, append_assoc, arith, Text, decimal, number, number_from, decimal_injective,
  decimal-digits, decimal_snoc, decimal_digit, is_digit, all,
}
use interleave.Types.{text}
use interleave.Lanes.Labels.{
  PlanEntry, hash_sign, is_name, is_generation, span, with_generation, parse_plan_entry, lane_label,
  entry_text,
}

-- A span takes its text apart.
span-append : (p : ℕ → Bool) (t : Text) → (span p t).0 ++ (span p t).1 ≡ t
unfolding span
span-append p [] = refl
span-append p (c ∷ cs) = ground (arith, span-append p cs)

number_from-digits :
    (acc : ℕ) (cs : Text)
    → 0 < acc
    → all is_digit cs ≡ true
    → decimal (number_from acc cs) ≡ decimal acc ++ cs
unfolding number_from
number_from-digits acc [] h d = sym (append-nil (decimal acc))
number_from-digits acc (c ∷ cs) h d =
    number_from-digits (acc * 10 + (c - 48)) cs (omega arith) (ground arith)
    ∙ ap (λ t. t ++ cs) (decimal_snoc acc (c - 48) h (ground arith))
    ∙ append_assoc (decimal acc) ((48 + (c - 48)) ∷ []) cs
    ∙ ap (λ n. decimal acc ++ n ∷ cs) (ground arith)

-- A generation is the numeral of its number.
decimal-number : (cs : Text) → is_generation cs ≡ true → decimal (number cs) ≡ cs
unfolding is_generation number number_from
decimal-number [] h = absurd (ground arith)
decimal-number (c ∷ []) h =
    let start : 0 * 10 + (c - 48) ≡ c - 48 = omega arith in
    let back : 48 + (c - 48) ≡ c = ground arith in
    ap decimal start ∙ decimal_digit (c - 48) (ground arith) ∙ ap (λ n. n ∷ []) back
decimal-number (c ∷ d ∷ ds) h =
    let start : 0 * 10 + (c - 48) ≡ c - 48 = omega arith in
    let back : 48 + (c - 48) ≡ c = ground arith in
    ap (λ n. decimal (number_from n (d ∷ ds))) start
    ∙ number_from-digits (c - 48) (d ∷ ds) (ground arith) (ground arith)
    ∙ ap (λ t. t ++ d ∷ ds) (decimal_digit (c - 48) (ground arith))
    ∙ ap (λ n. n ∷ d ∷ ds) back

with_generation-text :
    (name rest : Text) (e : PlanEntry)
    → with_generation name rest ≡ some e
    → entry_text e ≡ name ++ rest
unfolding with_generation entry_text
with_generation-text name [] e h =
    let same : e ≡ record { actor = name; connection = none } = ground arith in
    ap entry_text same ∙ sym (append-nil name)
with_generation-text name (c ∷ cs) e h =
    let same : e ≡ record { actor = name; connection = some (number cs) } = ground arith in
    let hash : hash_sign ≡ c = ground arith in
    ap entry_text same
    ∙ ap (λ t. name ++ hash_sign ∷ t) (decimal-number cs (ground arith))
    ∙ ap (λ n. name ++ n ∷ cs) hash

-- A text that parses as a plan entry is the one way to write that entry.
pub entry_text-parse_plan_entry :
    (t : Text) (e : PlanEntry) → parse_plan_entry (text t) ≡ some e → entry_text e ≡ t
unfolding parse_plan_entry
entry_text-parse_plan_entry t e h =
    with_generation-text (span is_name t).0 (span is_name t).1 e (ground arith)
    ∙ span-append is_name t

not-digits : (b e : Text) → all is_digit (b ++ hash_sign ∷ e) ≡ false
not-digits [] e = refl
not-digits (x ∷ b) e = rw (not-digits b e) (ground arith)

append-separated :
    (a b d e : Text)
    → all is_digit d ≡ true
    → all is_digit e ≡ true
    → a ++ hash_sign ∷ d ≡ b ++ hash_sign ∷ e
    → (a ≡ b) × (d ≡ e)
append-separated [] [] d e p q h = (refl, cc)
append-separated [] (y ∷ b) d e p q h =
    let same : d ≡ b ++ hash_sign ∷ e = cc in
    absurd (ground (arith, ap (all is_digit) same, not-digits b e))
append-separated (x ∷ a) [] d e p q h =
    let same : a ++ hash_sign ∷ d ≡ e = cc in
    absurd (ground (arith, ap (all is_digit) same, not-digits a d))
append-separated (x ∷ a) (y ∷ b) d e p q h =
    let ih = append-separated a b d e p q (cc) in let first : x ≡ y = cc in (rw (first, ih.0), ih.1)

-- The key `actor#n` names one connection of one actor, whatever the actor's name.
pub lane_label_injective :
    (a b : Text) (m n : ℕ) → lane_label a m ≡ lane_label b n → (a ≡ b) × (m ≡ n)
unfolding lane_label
lane_label_injective a b m n h =
    let (same, digits) =
      append-separated a b (decimal m) (decimal n) (decimal-digits m) (decimal-digits n) h in
    (same, decimal_injective m n digits)
