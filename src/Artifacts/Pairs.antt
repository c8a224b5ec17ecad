-- ===== src/Artifacts/Pairs.antt =====
-- artifact-schema.ts, `validateOverlapPairs`: the steps that were released together.
pub mod Partners
use interleave.Prelude.{
  ℕ, suc, Bool, true, false, ◌&&◌, ◌||◌, not, Option, none, some, List, [], ◌∷◌, Text, text_eq,
  ◌==◌, guard, ◌>>=◌, ◌>>◌,
}
use interleave.Types.{TraceStep, option_eq}

abbrev pub texts_eq : List Text → List Text → Bool
texts_eq [] [] = true
texts_eq [] (y ∷ ys) = false
texts_eq (x ∷ xs) [] = false
texts_eq (x ∷ xs) (y ∷ ys) = text_eq x y && texts_eq xs ys

module _ (lanes : Bool) where
  -- Two lanes, or two actors where the record names no lanes.
  abbrev pub are_different : TraceStep → TraceStep → Bool
  are_different first second =
      not (text_eq second.actor first.actor && (not lanes || second.connection == first.connection))

  abbrev pub is_partner : ℕ → TraceStep → TraceStep → Bool
  is_partner index first second =
      option_eq ◌==◌ second.overlap (some index)
      && are_different first second
      && second.released_at == first.released_at
      && texts_eq second.available first.available

  -- The loop from a step at some index.
  unfoldable pub pairs_from : ℕ → List TraceStep → Option (Unit {0})
  pairs_from index [] = some tt
  pairs_from index (first ∷ []) = guard (option_eq ◌==◌ first.overlap none)
  pairs_from index (first ∷ second ∷ rest) = elim first.overlap [
    | none ↦ pairs_from (suc index) (second ∷ rest)
    | some named ↦ do
      guard (named == index)
      guard (is_partner index first second)
      pairs_from (suc (suc index)) rest
  ]

  unfoldable pub validate_overlap_pairs : List TraceStep → Option (Unit {0})
  unfolding pairs_from
  validate_overlap_pairs trace = pairs_from 0 trace
