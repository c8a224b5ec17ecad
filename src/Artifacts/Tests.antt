-- ===== src/Artifacts/Tests.antt =====
-- Tests and witnesses of the modules of run artifacts.
use interleave.Prelude.{
  ◌≡◌, refl, ℕ, ℤ, true, false, some, [], ◌∷◌, text_eq, lookup, insert, add, decimal, number,
  length, get_elem?, concat, map, arith,
}
use interleave.Types.{is_some, RunResult, TraceStep, or_else}
use interleave.Samples.{two_lanes, traced, step_by}
use interleave.Artifacts.Json.{one}
use interleave.Artifacts.Samples.{passed_run, first_json, reader}
use interleave.Artifacts.Safety.{assert_json_safe, new_counter}
use interleave.Artifacts.Fields.{max_artifact_bytes, utf8_byte_length}
use interleave.Artifacts.Steps.{Dialect, validate_trace_step}
use interleave.Artifacts.Parse.{parse_run_value}
use interleave.Artifacts.Parse.Guarantees.{
  parse_run_value-IsOrdered, parse_run_value-names, IsWithin,
}
use interleave.Artifacts.Safety.Measures.{
  assert_json_safe-measures, admitted, is_legal, nodes_of, depth_of, bytes_of,
}
use interleave.Artifacts.Fields.Utf8.{utf8_of, length-utf8_of}
use interleave.Lanes.Labels.{split_on, plus_sign}
use interleave.Lanes.Plans.{plan_from_trace, qualified, step_name}

abbrev plain : Dialect
plain = record {
  staged = false;
  lanes = false;
  overlap = false;
  version_5 = false;
  flush_stages = false;
}

abbrev pub digits : ℤ → ℕ
digits n = 1

safe_run : is_some (assert_json_safe max_artifact_bytes passed_run 0 new_counter) ≡ true
unfolding assert_json_safe text_eq one
safe_run = refl

first_step : is_some (validate_trace_step plain 0 first_json) ≡ true
unfolding validate_trace_step text_eq lookup one
first_step = refl

passed_run_parses : is_some (parse_run_value digits passed_run) ≡ true
unfolding parse_run_value text_eq lookup insert add decimal number one
passed_run_parses = refl

-- What the recorded run is read as.
abbrev pub the_run : RunResult
unfolding parse_run_value text_eq lookup insert add decimal number one
the_run = or_else (parse_run_value digits passed_run) two_lanes

abbrev pub step_at : ℕ → TraceStep
step_at i = or_else (get_elem? the_run.trace i) (traced (step_by reader 0 0) 0 [])

pub reads : parse_run_value digits passed_run ≡ some the_run
unfolding parse_run_value text_eq lookup insert add decimal number one
reads = refl

first_at : get_elem? the_run.trace 0 ≡ some (step_at 0)
unfolding parse_run_value text_eq lookup insert add decimal number one
first_at = refl

second_at : get_elem? the_run.trace 1 ≡ some (step_at 1)
unfolding parse_run_value text_eq lookup insert add decimal number one
second_at = refl

assert_json_safe-measures_example :
    assert_json_safe 1000 passed_run 0 new_counter
    ≡ admitted 1000 0 new_counter
        (is_legal passed_run)
        (nodes_of passed_run)
        (depth_of passed_run)
        (bytes_of passed_run)
assert_json_safe-measures_example = assert_json_safe-measures 1000 passed_run 0

length-utf8_of_example :
    length (utf8_of (104 ∷ 55357 ∷ 56832 ∷ 56832 ∷ []))
    ≡ utf8_byte_length (104 ∷ 55357 ∷ 56832 ∷ 56832 ∷ [])
length-utf8_of_example = length-utf8_of (104 ∷ 55357 ∷ 56832 ∷ 56832 ∷ []) refl

-- An emoji is four bytes, and half of one three.
emoji : utf8_byte_length (104 ∷ 55357 ∷ 56832 ∷ 56832 ∷ []) ≡ 8
unfolding utf8_byte_length
emoji = refl

parse_run_value-IsOrdered_example : IsWithin (step_at 0).released_at the_run.duration_ms (step_at 1)
parse_run_value-IsOrdered_example =
    parse_run_value-IsOrdered digits passed_run the_run reads 0 1 (step_at 0) (step_at 1) first_at
      second_at (omega arith)

parse_run_value-names_example :
    concat (map (split_on plus_sign) (plan_from_trace the_run))
    ≡ map (step_name (qualified the_run)) the_run.trace
parse_run_value-names_example = parse_run_value-names digits passed_run the_run reads
