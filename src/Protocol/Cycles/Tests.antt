-- ===== src/Protocol/Cycles/Tests.antt =====
-- Frames of two clients, grouped.
use interleave.Prelude.{
  ℕ, ◌≡◌, ◌++◌, refl, none, some, List, [], ◌∷◌, Bytes, concat, In, here, there,
}
use interleave.Types.{flush_stages}
use interleave.Protocol.Cycles.{
  Grouped, accept_all, accept, new_cycle_buffer, refusal, flush_refusal, take_in, early_flush,
  cycle_limit,
}
use interleave.Protocol.Cycles.Grouping.{IsCycle}
use interleave.Protocol.Cycles.Sequences.{accept_all-concat, accept_all-IsCycle}

cycle_tests : Unit {0}
unfolding accept_all accept new_cycle_buffer refusal flush_refusal take_in
cycle_tests = tt

abbrev message : ℕ → Bytes
message type = type ∷ 0 ∷ 0 ∷ 0 ∷ 4 ∷ []

-- Parse, Flush, Bind, Execute, Sync, Query and another Parse.
abbrev sent : List Bytes
sent = message 80 ∷ message 72 ∷ message 66 ∷ message 69 ∷ message 83 ∷ message 81 ∷ message 80 ∷ []

abbrev staged_sent : Grouped
staged_sent = accept_all (new_cycle_buffer 100 (some flush_stages)) sent

sent_cycles :
    staged_sent.cycles
    ≡ (message 80 ∷ message 72 ∷ [])
      ∷ (message 66 ∷ message 69 ∷ message 83 ∷ [])
      ∷ (message 81 ∷ [])
      ∷ []
unfolding cycle_tests
sent_cycles = refl

sent_fine : staged_sent.error ≡ none
unfolding cycle_tests
sent_fine = refl

plain_refuses : (accept_all (new_cycle_buffer 100 none) sent).error ≡ some early_flush
unfolding cycle_tests
plain_refuses = refl

limit_refuses :
    (accept_all (new_cycle_buffer 9 none) (message 80 ∷ message 83 ∷ [])).error ≡ some cycle_limit
unfolding cycle_tests
limit_refuses = refl

second_cycle : In (message 66 ∷ message 69 ∷ message 83 ∷ []) staged_sent.cycles
unfolding cycle_tests
second_cycle = there here

accept_all-concat_example : concat staged_sent.cycles ++ staged_sent.buffer.frames ≡ sent
accept_all-concat_example = accept_all-concat 100 (some flush_stages) sent sent_fine

accept_all-IsCycle_example : IsCycle (message 66 ∷ message 69 ∷ message 83 ∷ [])
accept_all-IsCycle_example =
    accept_all-IsCycle 100 (some flush_stages) sent (message 66 ∷ message 69 ∷ message 83 ∷ [])
      sent_fine second_cycle
