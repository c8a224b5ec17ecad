-- ===== src/Lanes/Binder/Bijection.antt =====
-- The bindings are one bijection between recorded and live lanes, and no bind takes one back.
use interleave.Prelude.{
  ℕ, true, ◌≡◌, refl, ap, ◌∙◌, none, some, Text, text_eq, text_eq_iff, text_eq_refl, lookup,
  lookup-insert, arith, ◌==◌, if◌then◌else◌, Bool-cases, Option-cases, inl, inr,
}
use interleave.Types.{option_eq}
use interleave.Lanes.Labels.{lane_label}
use interleave.Lanes.Labels.Canonical.{lane_label_injective}
use interleave.Lanes.Binder.{RecordedLane, Binder, recorded_for, live_for, bound, write, bind}

lanes_agree :
    (a c : Text) (m n : ℕ) → text_eq (lane_label a m) (lane_label c n) ≡ true → (a ≡ c) × (m ≡ n)
lanes_agree a c m n h = lane_label_injective a c m n ((text_eq_iff _ _).0 h)

pub record IsBijective (b : Binder) : Type 0 where
  pub forth :
      (actor : Text) (live recorded : ℕ)
      → recorded_for b actor live ≡ some recorded
      → live_for b actor recorded ≡ some live
  pub back :
      (actor : Text) (live recorded : ℕ)
      → live_for b actor recorded ≡ some live
      → recorded_for b actor live ≡ some recorded

module _ (b : Binder) (a : Text) (rc lc : ℕ) (r : RecordedLane) where
  recorded_for-write :
      (c : Text) (l : ℕ)
      → recorded_for (write b a rc lc r) c l
        ≡ (if text_eq (lane_label a lc) (lane_label c l) then some rc else recorded_for b c l)
  unfolding recorded_for write
  recorded_for-write c l = lookup-insert (lane_label a lc) (lane_label c l) rc b.live

  live_for-write :
      (c : Text) (n : ℕ)
      → live_for (write b a rc lc r) c n
        ≡ (if text_eq (lane_label a rc) (lane_label c n) then some lc else live_for b c n)
  unfolding live_for write
  live_for-write c n = ground (
    arith,
    lookup-insert (lane_label a rc) (lane_label c n) (record r { live = some lc }) b.recorded,
  )

-- A bind that succeeds found the binding there already, or found neither side bound.
pub data Bound (b : Binder) (a : Text) (rc lc : ℕ) (b' : Binder) : Type 0 where
  again : recorded_for b a lc ≡ some rc → live_for b a rc ≡ some lc → b' ≡ b → Bound b a rc lc b'
  fresh :
      (r : RecordedLane)
      → recorded_for b a lc ≡ none
      → live_for b a rc ≡ none
      → b' ≡ write b a rc lc r
      → Bound b a rc lc b'

pub bind-Bound :
    (b : Binder) (a : Text) (rc lc : ℕ) (b' : Binder)
    → bind b a rc lc ≡ bound b'
    → Bound b a rc lc b'
unfolding bind recorded_for live_for
bind-Bound b a rc lc b' h = elim (Option-cases (lookup (lane_label a rc) b.recorded)) [
  | inl missing ↦ absurd (ground arith)
  | inr (r, found) ↦ elim (Bool-cases (option_eq ◌==◌ r.live (some lc))) [
    | inl same ↦ elim (Bool-cases (option_eq ◌==◌ (lookup (lane_label a lc) b.live) (some rc))) [
      | inl there ↦ again (ground arith) (ground arith) (ground arith)
      | inr other ↦ absurd (ground arith)
    ]
    | inr other ↦ fresh r (ground arith) (ground arith) (ground arith)
  ]
]

module _ (b : Binder) (a : Text) (rc lc : ℕ) (r : RecordedLane) (v : IsBijective b)
    (free_live : recorded_for b a lc ≡ none) (free_recorded : live_for b a rc ≡ none) where
  write_forth :
      (c : Text) (l n : ℕ)
      → recorded_for (write b a rc lc r) c l ≡ some n
      → live_for (write b a rc lc r) c n ≡ some l
  write_forth c l n h = elim (Bool-cases (text_eq (lane_label a lc) (lane_label c l))) [
    | inl same ↦
        let (actor, connection) = lanes_agree a c lc l same in
        let e : rc ≡ n = ground (arith, recorded_for-write b a rc lc r c l) in
        let key : text_eq (lane_label a rc) (lane_label c n) ≡ true =
          rw (← actor, ← e) (text_eq_refl (lane_label a rc)) in
        live_for-write b a rc lc r c n ∙ rw key (ap some connection)
    | inr other ↦
        let before : recorded_for b c l ≡ some n =
          ground (arith, recorded_for-write b a rc lc r c l) in
        elim (Bool-cases (text_eq (lane_label a rc) (lane_label c n))) [
          | inl same ↦
              let (actor, connection) = lanes_agree a c rc n same in
              let taken : live_for b a rc ≡ some l =
                rw (actor, connection) (v.forth c l n before) in
              absurd (ground arith)
          | inr elsewhere ↦ live_for-write b a rc lc r c n ∙ rw elsewhere (v.forth c l n before)
        ]
  ]

  write_back :
      (c : Text) (l n : ℕ)
      → live_for (write b a rc lc r) c n ≡ some l
      → recorded_for (write b a rc lc r) c l ≡ some n
  write_back c l n h = elim (Bool-cases (text_eq (lane_label a rc) (lane_label c n))) [
    | inl same ↦
        let (actor, connection) = lanes_agree a c rc n same in
        let e : lc ≡ l = ground (arith, live_for-write b a rc lc r c n) in
        let key : text_eq (lane_label a lc) (lane_label c l) ≡ true =
          rw (← actor, ← e) (text_eq_refl (lane_label a lc)) in
        recorded_for-write b a rc lc r c l ∙ rw key (ap some connection)
    | inr other ↦
        let before : live_for b c n ≡ some l = ground (arith, live_for-write b a rc lc r c n) in
        elim (Bool-cases (text_eq (lane_label a lc) (lane_label c l))) [
          | inl same ↦
              let (actor, connection) = lanes_agree a c lc l same in
              let taken : recorded_for b a lc ≡ some n =
                rw (actor, connection) (v.back c l n before) in
              absurd (ground arith)
          | inr elsewhere ↦ recorded_for-write b a rc lc r c l ∙ rw elsewhere (v.back c l n before)
        ]
  ]

-- A bind that succeeds keeps the bindings a bijection: a recorded lane is bound to a live one
-- exactly when the live one is bound to it.
pub bind-IsBijective :
    (b : Binder) (actor : Text) (recorded live : ℕ) (b' : Binder)
    → IsBijective b
    → bind b actor recorded live ≡ bound b'
    → IsBijective b'
bind-IsBijective b a rc lc b' v h = go (bind-Bound b a rc lc b' h)
  where
    go : Bound b a rc lc b' → IsBijective b'
    go (again p q e) = rw e v
    go (fresh r p q e) =
        rw e (record { forth = write_forth b a rc lc r v p q; back = write_back b a rc lc r v p q })

bind-keeps :
    (b : Binder) (actor : Text) (recorded live : ℕ) (b' : Binder)
    → bind b actor recorded live ≡ bound b'
    → (recorded_for b' actor live ≡ some recorded)
      × (live_for b' actor recorded ≡ some live)
      × ((c : Text) (l n : ℕ) → recorded_for b c l ≡ some n → recorded_for b' c l ≡ some n)
      × ((c : Text) (l n : ℕ) → live_for b c n ≡ some l → live_for b' c n ≡ some l)
bind-keeps b a rc lc b' h = go (bind-Bound b a rc lc b' h)
  where
    still_recorded :
        (r : RecordedLane)
        → recorded_for b a lc ≡ none
        → (c : Text) (l n : ℕ) → recorded_for b c l ≡ some n
        → recorded_for (write b a rc lc r) c l ≡ some n
    still_recorded r p c l n e = elim (Bool-cases (text_eq (lane_label a lc) (lane_label c l))) [
      | inl same ↦
          let (actor, connection) = lanes_agree a c lc l same in
          let taken : recorded_for b a lc ≡ some n = rw (actor, connection) e in
          absurd (ground arith)
      | inr other ↦ recorded_for-write b a rc lc r c l ∙ rw other e
    ]

    still_live :
        (r : RecordedLane)
        → live_for b a rc ≡ none
        → (c : Text) (l n : ℕ) → live_for b c n ≡ some l
        → live_for (write b a rc lc r) c n ≡ some l
    still_live r p c l n e = elim (Bool-cases (text_eq (lane_label a rc) (lane_label c n))) [
      | inl same ↦
          let (actor, connection) = lanes_agree a c rc n same in
          let taken : live_for b a rc ≡ some l = rw (actor, connection) e in absurd (ground arith)
      | inr other ↦ live_for-write b a rc lc r c n ∙ rw other e
    ]

    go :
        Bound b a rc lc b'
        → (recorded_for b' a lc ≡ some rc)
          × (live_for b' a rc ≡ some lc)
          × ((c : Text) (l n : ℕ) → recorded_for b c l ≡ some n → recorded_for b' c l ≡ some n)
          × ((c : Text) (l n : ℕ) → live_for b c n ≡ some l → live_for b' c n ≡ some l)
    go (again p q e) = rw e (p, q, λ c l n x. x, λ c l n x. x)
    go (fresh r p q e) = rw e (
      recorded_for-write b a rc lc r a lc ∙ rw (text_eq_refl (lane_label a lc)) refl,
      live_for-write b a rc lc r a rc ∙ rw (text_eq_refl (lane_label a rc)) refl,
      still_recorded r p,
      still_live r q,
    )

-- After a bind that succeeds the two lanes are bound to one another.
pub bind-binds :
    (b : Binder) (actor : Text) (recorded live : ℕ) (b' : Binder)
    → bind b actor recorded live ≡ bound b'
    → (recorded_for b' actor live ≡ some recorded) × (live_for b' actor recorded ≡ some live)
bind-binds b a rc lc b' h = let (p, q, _, _) = bind-keeps b a rc lc b' h in (p, q)

-- A binding never changes: what was bound before a bind that succeeds is bound the same after it.
pub bind_permanent :
    (b : Binder) (actor : Text) (recorded live : ℕ) (b' : Binder) (c : Text) (l n : ℕ)
    → IsBijective b
    → bind b actor recorded live ≡ bound b'
    → recorded_for b c l ≡ some n
    → (recorded_for b' c l ≡ some n) × (live_for b' c n ≡ some l)
bind_permanent b a rc lc b' c l n v h e =
    let (_, _, p, q) = bind-keeps b a rc lc b' h in (p c l n e, q c l n (v.forth c l n e))
