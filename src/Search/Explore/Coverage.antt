-- ===== src/Search/Explore/Coverage.antt =====
-- A search that ends with an empty frontier has handed out every alternative that its runs showed.
pub mod Exhaustion
use interleave.Prelude.{
  ℕ, zero, suc, ◌+◌, ◌≤◌, ◌<◌, ◌≡◌, ◌≢◌, ◌⊎◌, refl, sym, ap, ◌∙◌, subst, Bool, true, false, ◌&&◌,
  ◌||◌, not, Option, none, some, List, [], ◌∷◌, ◌++◌, map, Text, text_eq, take, length, any,
  Bool-cases, Option-cases, inl, inr, arith, if◌then◌else◌, leb, ltb, ◌==◌, max, get_elem?, In,
  In-append, In-cons, here, there,
}
use interleave.Types.{RunResult, is_some}
use interleave.Lanes.Plans.{Decision, decisions_from_trace, decision_choices, qualified}
use interleave.Search.Explore.{
  Config, World, State, Turn, halt, continue, plan_eq, splice, offer, offer_each, branch, count_run,
  retain, assess, attempt, search_round, frontier_exhausted,
}
use interleave.Search.Explore.Accounting.{plan_eq_refl}
use interleave.Search.Explore.Steps.{
  and_then, offer_each-end, offer_each-taken, offer_each-offer, branch-interrupted, branch-missing,
  branch-offer,
}

-- A loop is left with another stop reason, or goes on with the property.
abbrev pub Goes : (State → Type 0) → Turn → Type 0
Goes P (halt t) = (t.stop ≢ frontier_exhausted)
Goes P (continue t) = P t

pub Goes-and_then :
    (P Q : State → Type 0) (r : Turn) (f : State → Turn)
    → Goes P r
    → ((t : State) → P t → Goes Q (f t))
    → Goes Q (and_then r f)
Goes-and_then P Q (halt t) f h k = h
Goes-and_then P Q (continue t) f h k = k t h

pub Goes-map : (P Q : State → Type 0) (r : Turn) → Goes P r → ((t : State) → P t → Q t) → Goes Q r
Goes-map P Q (halt t) h k = h
Goes-map P Q (continue t) h k = k t h

-- The plan is one of those seen.
abbrev pub Seen : List Text → State → Type 0
Seen p s = any (plan_eq p) s.seen ≡ true

-- What the loops over alternatives keep; the plans seen only grow.
abbrev pub Extends : State → State → Type 0
Extends s t =
    (t.runs ≡ s.runs)
    × (t.stop ≡ s.stop)
    × (t.omitted_runs ≡ s.omitted_runs)
    × ((p : List Text) → Seen p s → Seen p t)

pub Extends-trans : (s t u : State) → Extends s t → Extends t u → Extends s u
Extends-trans s t u (a, b, c, d) (a', b', c', d') = (a' ∙ a, b' ∙ b, c' ∙ c, λ p h. d' p (d p h))

pub any-left {ℓ} :
    {A : Type ℓ} (f : A → Bool) (xs ys : List A) → any f xs ≡ true → any f (xs ++ ys) ≡ true
any-left f [] ys h = absurd (ground arith)
any-left f (x ∷ xs) ys h = elim (Bool-cases (f x)) [
  | inl holds ↦ rw holds refl
  | inr fails ↦ let rest = any-left f xs ys (ground arith) in ground arith
]

pub any-last {ℓ} :
    {A : Type ℓ} (f : A → Bool) (xs : List A) (y : A) → f y ≡ true → any f (xs ++ y ∷ []) ≡ true
any-last f [] y h = ground arith
any-last f (x ∷ xs) y h = let rest = any-last f xs y h in ground arith

get_elem?-none {ℓ} : {A : Type ℓ} (xs : List A) (i : ℕ) → get_elem? xs i ≡ none → length xs ≤ i
get_elem?-none [] i h = omega arith
get_elem?-none (x ∷ xs) zero h = absurd (ground arith)
get_elem?-none (x ∷ xs) (suc i) h = let rest = get_elem?-none xs i h in omega arith

pub get_elem?-lt {ℓ} :
    {A : Type ℓ} (xs : List A) (i : ℕ) {x : A} → get_elem? xs i ≡ some x → i < length xs
get_elem?-lt [] i h = absurd (ground arith)
get_elem?-lt (y ∷ ys) zero h = omega arith
get_elem?-lt (y ∷ ys) (suc i) h = let rest = get_elem?-lt ys i h in omega arith

module _ (c : Config) (w : World) where
  module _ (choices : List Text) (index : ℕ) where
    abbrev pub key_of : Text → List Text
    key_of alternative = take index choices ++ alternative ∷ []

    offer-Goes :
        (a : Text) (s : State)
        → Goes (λ t. Extends s t × Seen (key_of a) t) (offer c w choices index a s)
    unfolding offer
    offer-Goes a s = go _ refl
      where
        go :
            (r : Turn)
            → offer c w choices index a s ≡ r
            → Goes (λ t. Extends s t × Seen (key_of a) t) r
        go (halt t) e = λ h. ground arith
        go (continue t) e = elim (Bool-cases (any (plan_eq (key_of a)) s.seen)) [
          | inl old ↦
              let same : s ≡ t = ground arith in rw (sym same) ((refl, refl, refl, λ p h. h), old)
          | inr new ↦
              let seen : t.seen ≡ s.seen ++ key_of a ∷ [] = ground arith in
              (
                (
                  ground arith,
                  ground arith,
                  ground arith,
                  λ p h. rw seen (any-left (plan_eq p) s.seen (key_of a ∷ []) h),
                ),
                rw seen (any-last (plan_eq (key_of a)) s.seen (key_of a) (plan_eq_refl (key_of a))),
              )
        ]

    -- Every alternative of the list is seen, the choice itself left aside.
    abbrev pub SeenEach : Text → List Text → State → Type 0
    SeenEach choice alternatives t =
        (a : Text) → In a alternatives → text_eq a choice ≡ false → Seen (key_of a) t

    offer_each-Goes :
        (choice : Text) (alternatives : List Text) (s : State)
        → Goes
            (λ t. Extends s t × SeenEach choice alternatives t)
            (offer_each c w choices index choice alternatives s)
    offer_each-Goes choice [] s =
        rw (offer_each-end c w choices index choice s)
          ((refl, refl, refl, λ p h. h), λ a at other. elim at [ ])
    offer_each-Goes choice (a ∷ rest) s = elim (Bool-cases (text_eq a choice)) [
      | inl same ↦ rw (offer_each-taken c w choices index choice a rest s same) (
          Goes-map _ _ (offer_each c w choices index choice rest s) (offer_each-Goes choice rest s)
            (λ t (grown, seen). (
              grown,
              λ b at other. elim (In-cons at) [
                | inl e ↦ absurd (
                    let other' : text_eq a choice ≡ false =
                      subst (λ x. text_eq x choice ≡ false) e other in
                    ground arith)
                | inr later ↦ seen b later other
              ],
            )))
      | inr fresh ↦ rw (offer_each-offer c w choices index choice a rest s fresh) (
          Goes-and_then _ _ (offer c w choices index a s) _ (offer-Goes a s) (λ t (grown, key).
            Goes-map _ _ (offer_each c w choices index choice rest t)
              (offer_each-Goes choice rest t)
              (λ u (more, seen). (
                Extends-trans s t u grown more,
                λ b at other. elim (In-cons at) [
                  | inl e ↦ more.3 (key_of b) (subst (λ x. Seen (key_of x) t) (sym e) key)
                  | inr later ↦ seen b later other
                ],
              ))))
    ]

  -- Every alternative that the run showed at the index is seen.
  abbrev pub SeenAt : List Text → List Decision → ℕ → State → Type 0
  SeenAt multi decisions index t =
      (d : Decision)
      → get_elem? decisions index ≡ some d
      → SeenEach (map (λ d. d.choice) decisions) index d.choice
          (decision_choices d.available multi c.overlap) t

  branch-Goes :
      (multi : List Text) (decisions : List Decision) (bound : ℕ) (s : State)
      → bound ≤ length decisions
      → Goes
          (λ t. Extends s t × ((index : ℕ) → index < bound → SeenAt multi decisions index t))
          (branch c w multi decisions bound s)
  branch-Goes multi decisions zero s h =
      unfold branch in ((refl, refl, refl, λ p k. k), λ index k. absurd (omega arith))
  branch-Goes multi decisions (suc bound) s h = elim (Option-cases (w.reasons s.calls)) [
    | inr (i, e) ↦ rw (branch-interrupted c w multi decisions bound s i e) (λ k. ground arith)
    | inl e ↦ elim (Option-cases (get_elem? decisions bound)) [
      | inl d ↦ absurd (let k = get_elem?-none decisions bound d in omega arith)
      | inr (decision, d) ↦ rw (branch-offer c w multi decisions bound s decision e d) (
          Goes-and_then
            (λ t.
              Extends s t
              × SeenEach (map (λ d. d.choice) decisions) bound decision.choice
                  (decision_choices decision.available multi c.overlap) t)
            _ _ _
            (offer_each-Goes (map (λ d. d.choice) decisions) bound decision.choice
              (decision_choices decision.available multi c.overlap)
              (record s { calls = suc s.calls }))
            (λ t (grown, seen).
              Goes-map _ _ (branch c w multi decisions bound t)
                (branch-Goes multi decisions bound t (omega arith))
                (λ u (more, rest). (
                  Extends-trans s t u grown more,
                  λ index k. elim (Bool-cases (ltb index bound)) [
                    | inl below ↦ rest index (ground arith)
                    | inr last ↦
                        let at : bound ≡ index = ground arith in
                        subst (λ x. SeenAt multi decisions x u) at
                          (λ d' e'.
                            let same : decision ≡ d' = ground arith in
                            subst
                              (λ x.
                                SeenEach (map (λ d. d.choice) decisions) bound x.choice
                                  (decision_choices x.available multi c.overlap) u)
                              same (λ a at' other. more.3 _ (seen a at' other)))
                  ],
                ))))
    ]
  ]
