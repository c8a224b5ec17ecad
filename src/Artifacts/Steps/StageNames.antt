-- ===== src/Artifacts/Steps/StageNames.antt =====
-- The stages that a recorded step may name, by the protocol profile of its run.
use interleave.Prelude.{
  ◌≡◌, Bool, false, Bool-cases, refl, [], ◌∷◌, All, text_eq, ◌>>=◌, subst, true, Option, none, some,
  Text, Dict, codes, lookup, inl, inr, arith, bind-some, some_injective,
}
use interleave.Types.{StepStage, complete, describe, execute, recover, flush, sync}
use interleave.Artifacts.Json.{Json, null, boolean, number, string, array, object, foreign}
use interleave.Artifacts.Fields.{field, enum_value}
use interleave.Artifacts.Steps.{stage_names, Dialect, when_staged}

-- Only runs in Flush stages flush and sync, and only other runs execute.
abbrev pub IsKnown : Bool → StepStage → Type 0
IsKnown flushes complete = Unit
IsKnown flushes describe = Unit
IsKnown flushes execute = flushes ≡ false
IsKnown flushes recover = Unit
IsKnown flushes flush = flushes ≡ true
IsKnown flushes sync = flushes ≡ true

abbrev pub IsKnownStage : Bool → Option StepStage → Type 0
IsKnownStage flushes none = Unit
IsKnownStage flushes (some stage) = IsKnown flushes stage

lookup-All :
    (P : StepStage → Type 0) (t : Text) (names : Dict StepStage) (stage : StepStage)
    → All (λ (p : Text × StepStage). P p.1) names
    → lookup t names ≡ some stage
    → P stage
unfolding lookup
lookup-All P t [] stage all_ h = absurd cc
lookup-All P t ((name, s) ∷ names) stage (own, rest) h = elim (Bool-cases (text_eq name t)) [
  | inl same ↦ subst P (some_injective (rw same at h)) own
  | inr other ↦ lookup-All P t names stage rest (rw other at h)
]

stage_names-IsKnown :
    (flushes : Bool) → All (λ (p : Text × StepStage). IsKnown flushes p.1) (stage_names flushes)
stage_names-IsKnown true = (tt, (tt, (refl, (refl, (tt, tt)))))
stage_names-IsKnown false = (tt, (tt, (refl, (tt, tt))))

enum_value-IsKnown :
    (flushes : Bool) (v : Json) (stage : StepStage)
    → enum_value v (stage_names flushes) ≡ some stage
    → IsKnown flushes stage
unfolding enum_value
enum_value-IsKnown flushes (string t) stage h =
    lookup-All (IsKnown flushes) t (stage_names flushes) stage (stage_names-IsKnown flushes) h
enum_value-IsKnown flushes null stage h = absurd cc
enum_value-IsKnown flushes (boolean b) stage h = absurd cc
enum_value-IsKnown flushes (number n) stage h = absurd cc
enum_value-IsKnown flushes (array vs) stage h = absurd cc
enum_value-IsKnown flushes (object ms) stage h = absurd cc
enum_value-IsKnown flushes foreign stage h = absurd cc

pub when_staged-IsKnownStage :
    (d : Dialect) (ms : Dict Json) (stage : Option StepStage)
    → when_staged d
        (do named ← field ms (codes "stage"); enum_value named (stage_names d.flush_stages))
      ≡ some stage
    → IsKnownStage d.flush_stages stage
when_staged-IsKnownStage d ms none h = tt
when_staged-IsKnownStage d ms (some stage) h =
    let read : (do named ← field ms (codes "stage"); enum_value named (stage_names d.flush_stages))
        ≡ some stage =
      ground arith in
    let (named, e, k) = bind-some (field ms (codes "stage")) _ read in
    enum_value-IsKnown d.flush_stages named stage k
