-- ===== src/Search/Explore/Rounds.antt =====
-- What every state of a search keeps: its plans, its bytes and its counts.
use interleave.Prelude.{
  ℕ, ◌+◌, ◌≤◌, ◌<◌, ◌≡◌, ◌⊎◌, refl, true, false, Option, none, some, List, [], ◌∷◌, ◌++◌, Text,
  take, length, length-append, any, Bool-cases, inl, inr, arith, leb, ltb, max, In,
}
use interleave.Types.{RunResult}
use interleave.Search.Environment.{is_violation}
use interleave.Search.Explore.{
  Config, World, State, Turn, halt, continue, plan_eq, plan_bytes, prefix_bytes, choice_bytes,
  offer,
}
use interleave.Search.Explore.Accounting.{
  occurrences, occurrences-append, occurrences_none, sum_of, sum_of-append, plan_bytes-snoc,
  eq_of_plan_eq,
}

pub Turn-cases : (r : Turn) → ((t : State) × (r ≡ halt t)) ⊎ ((t : State) × (r ≡ continue t))
Turn-cases (halt t) = inl (t, refl)
Turn-cases (continue t) = inr (t, refl)

abbrev pub Each {ℓ} : (State → Type ℓ) → Turn → Type ℓ
Each P (halt t) = P t
Each P (continue t) = P t

-- The bytes of the artifact of a retained run.
abbrev pub run_bytes : World → RunResult → ℕ
run_bytes w run = elim (w.parse_run_artifact run) [ none ↦ 0 | some (valid, bytes) ↦ bytes ]

abbrev pub IsFirstFailure : List RunResult → Option RunResult → Type 0
IsFirstFailure runs none = Unit
IsFirstFailure runs (some run) = In run runs × (is_violation run.outcome ≡ true)

module _ (c : Config) (w : World) where
  pub record IsSound (s : State) : Type 0 where
    -- the plans seen are those dispatched and those of the frontier, each of them once
    pub counted :
        (p : List Text)
        → occurrences p s.dispatched + occurrences p s.frontier ≡ occurrences p s.seen
    pub once : (p : List Text) → occurrences p s.seen ≤ 1
    pub bytes : s.retained_bytes ≡ sum_of plan_bytes s.seen + sum_of (run_bytes w) s.runs
    pub within : s.retained_bytes ≤ c.most_bytes
    pub few : length s.seen ≤ max 1 c.most_candidates
    pub explored : length s.dispatched ≡ s.explored
    pub kept : s.explored ≡ length s.runs + s.omitted_runs
    pub first : IsFirstFailure s.runs s.first_failure

  -- Only the stop reason and the calls differ.
  abbrev pub SameParts : State → State → Type 0
  SameParts s t =
      (t.frontier ≡ s.frontier)
      × (t.seen ≡ s.seen)
      × (t.dispatched ≡ s.dispatched)
      × (t.runs ≡ s.runs)
      × (t.retained_bytes ≡ s.retained_bytes)
      × (t.explored ≡ s.explored)
      × (t.omitted_runs ≡ s.omitted_runs)
      × (t.first_failure ≡ s.first_failure)

  -- A state whose parts are those of a sound one.
  pub IsSound-same : (s t : State) → IsSound s → SameParts s t → IsSound t
  IsSound-same s t h (frontier, seen, dispatched, runs, retained, explored, omitted, first) =
      record {
        counted = rw frontier (rw seen (rw dispatched h.counted));
        once = rw seen h.once;
        bytes = rw retained (rw seen (rw runs h.bytes));
        within = rw retained h.within;
        few = rw seen h.few;
        explored = rw dispatched (rw explored h.explored);
        kept = rw explored (rw runs (rw omitted h.kept));
        first = rw runs (rw first h.first);
      }

  module _ (choices : List Text) (index : ℕ) where
    abbrev key_of : Text → List Text
    key_of alternative = take index choices ++ alternative ∷ []

    IsSound-grown :
        (alternative : Text) (s : State)
        → IsSound s
        → any (plan_eq (key_of alternative)) s.seen ≡ false
        → s.retained_bytes + (prefix_bytes index choices + choice_bytes alternative + 1)
          ≤ c.most_bytes
        → length s.seen < c.most_candidates
        → IsSound (record s {
          retained_bytes =
              s.retained_bytes + (prefix_bytes index choices + choice_bytes alternative + 1);
          seen = s.seen ++ key_of alternative ∷ [];
          frontier = s.frontier ++ key_of alternative ∷ [];
        })
    IsSound-grown alternative s h new room few = record {
      counted = λ p.
          let a = occurrences-append p s.seen (key_of alternative ∷ []) in
          let b = occurrences-append p s.frontier (key_of alternative ∷ []) in
          let e = h.counted p in omega arith;
      once = λ p.
          let a = occurrences-append p s.seen (key_of alternative ∷ []) in
          elim (Bool-cases (plan_eq p (key_of alternative))) [
            | inl same ↦
                let e : p ≡ key_of alternative = eq_of_plan_eq p (key_of alternative) same in
                let z : occurrences p s.seen ≡ 0 =
                  rw e (occurrences_none (key_of alternative) s.seen new) in
                ground arith
            | inr other ↦ let e = h.once p in ground arith
          ];
      bytes =
          let a = sum_of-append plan_bytes s.seen (key_of alternative ∷ []) in
          let k = plan_bytes-snoc index choices alternative in let e = h.bytes in omega arith;
      within = room;
      few = let l = length-append s.seen (key_of alternative ∷ []) in omega arith;
      explored = h.explored;
      kept = h.kept;
      first = h.first;
    }

    pub offer-IsSound :
        (alternative : Text) (s : State)
        → IsSound s
        → Each IsSound (offer c w choices index alternative s)
    unfolding offer
    offer-IsSound alternative s h = elim (Bool-cases (any (plan_eq (key_of alternative)) s.seen)) [
      | inl old ↦ rw old h
      | inr new ↦
          elim (Bool-cases (
            ltb c.most_bytes
              (s.retained_bytes + (prefix_bytes index choices + choice_bytes alternative + 1)))) [
                | inl full ↦
                    rw new (
                      rw full (IsSound-same s _ h (refl, refl, refl, refl, refl, refl, refl, refl)))
                | inr room ↦ elim (Bool-cases (leb c.most_candidates (length s.seen))) [
                  | inl many ↦ rw new (
                      rw room (
                        rw many
                          (IsSound-same s _ h (refl, refl, refl, refl, refl, refl, refl, refl))))
                  | inr few ↦ rw new (
                      rw room
                        (rw few (IsSound-grown alternative s h new (ground arith) (ground arith))))
                ]
              ]
    ]
