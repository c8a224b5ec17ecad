-- ===== src/Search/Limits.antt =====
-- search-budget.ts and exploration-search.ts: numeric limits, the deadline of a search, its strategy.
use interleave.Prelude.{
  ℕ, ◌-◌, ◌%◌, ◌<◌, ◌≡◌, ◌≢◌, Bool, true, false, ◌&&◌, ◌||◌, not, Option, none, some, ◌∷◌, ◌++◌,
  Text, codes, text_eq, decimal, ltb, leb, arith, if◌then◌else◌,
}
use interleave.Types.{Value, undefined, other, text, or_else}

-- `integerLimit`; `none` is the error.
unfoldable pub integer_limit : Option ℕ → ℕ → ℕ → ℕ → Option ℕ
integer_limit value fallback most least =
    let result = or_else value fallback in
    if ltb result least then none else if ltb most result then none else some result

pub data Interruption : Type 0 where
  aborted deadline : Interruption

-- The budget of a search; `expired` is the state of its own abort controller.
pub record Budget : Type 0 where
  pub timeout_ms : ℕ
  pub started : ℕ
  pub expired : Bool

-- `reason()` at a time of the clock, with the state of the caller's signal.
unfoldable pub reason : Budget → Bool → ℕ → Budget × Option Interruption
reason b external now =
    if external
    then (b, some aborted)
    else if b.expired || leb b.timeout_ms (now - b.started)
    then (record b { expired = true }, some deadline)
    else (b, none)

-- The listener on the caller's signal.
unfoldable pub abort : Budget → Budget
abort b = record b { expired = true }

-- A search that its deadline has stopped stays stopped, at every later time and whatever the
-- caller's signal does.
pub reason_permanent :
    (b : Budget) (external external' : Bool) (now now' : ℕ)
    → (reason b external now).1 ≡ some deadline
    → (reason (reason b external now).0 external' now').1 ≢ none
unfolding reason
reason_permanent b external external' now now' h = ground arith

pub data Search : Type 0 where
  fifo : Search
  seeded : ℕ → Search

pub data SearchError : Type 0 where
  bad_strategy bad_seed seed_with_fifo seed_missing : SearchError

pub data SearchChoice : Type 0 where
  accepted : Search → SearchChoice
  refused : SearchError → SearchChoice

-- The option `seed`: omitted, a number that is a non-negative integer, or anything else.
pub data Seed : Type 0 where
  no_seed invalid_seed : Seed
  seed : ℕ → Seed

abbrev is_strategy : Value → Bool
is_strategy undefined = true
is_strategy other = false
is_strategy (text t) = text_eq t (codes "fifo") || text_eq t (codes "seeded")

abbrev is_text : Text → Value → Bool
is_text s undefined = false
is_text s other = false
is_text s (text t) = text_eq t s

abbrev is_seed : Seed → Bool
is_seed no_seed = true
is_seed invalid_seed = false
is_seed (seed n) = leb n 4294967295

abbrev is_omitted : Seed → Bool
is_omitted no_seed = true
is_omitted invalid_seed = false
is_omitted (seed n) = false

abbrev selected : Seed → Search
selected no_seed = fifo
selected invalid_seed = fifo
selected (seed n) = seeded n

unfoldable pub normalize_exploration_search : Value → Seed → SearchChoice
normalize_exploration_search strategy s =
    if not (is_strategy strategy)
    then refused bad_strategy
    else if not (is_seed s)
    then refused bad_seed
    else if is_text (codes "fifo") strategy && not (is_omitted s)
    then refused seed_with_fifo
    else if is_text (codes "seeded") strategy && is_omitted s
    then refused seed_missing
    else accepted (selected s)

-- `digest` is the first word of the SHA-256 of a text, read as a big-endian 32-bit number.
unfoldable pub frontier_index : (Text → ℕ) → Search → ℕ → ℕ → ℕ
frontier_index digest fifo dequeue length = 0
frontier_index digest (seeded n) dequeue length =
    digest (codes "interleave:seeded-frontier-v1" ++ 0 ∷ (decimal n ++ 0 ∷ decimal dequeue))
    % length

-- The index is one of the frontier, whatever the digest.
pub frontier_index-lt :
    (digest : Text → ℕ) (search : Search) (dequeue length : ℕ)
    → 0 < length
    → frontier_index digest search dequeue length < length
unfolding frontier_index
frontier_index-lt digest fifo dequeue length h = h
frontier_index-lt digest (seeded n) dequeue length h = omega arith
