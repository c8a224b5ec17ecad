-- ===== src/Artifacts/Safety.antt =====
-- artifact-schema.ts, `assertJsonSafe`: the walk over a whole value before anything else reads it.
pub mod Measures
use interleave.Prelude.{
  ℕ, suc, ◌+◌, ◌*◌, Bool, not, any, Option, none, some, List, Text, length, leb, has, guard, ◌>>=◌,
  ◌>>◌,
}
use interleave.Artifacts.Json.{
  Json, null, boolean, string, array, object, foreign, Items, nil, cons, Members, end, member,
  Number, finite, unusable, items, members,
}
use interleave.Artifacts.Fields.{
  utf8_byte_length, plain_record, array_value, safe_integer, max_array_items, max_sql_bytes,
  max_artifact_bytes,
}

abbrev pub max_json_depth : ℕ
max_json_depth = 100

abbrev pub max_json_nodes : ℕ
max_json_nodes = 200000

abbrev pub actor_value_wrapper_depth : ℕ
actor_value_wrapper_depth = 3

pub record Counter : Type 0 where
  pub nodes : ℕ
  pub string_bytes : ℕ

abbrev pub new_counter : Counter
new_counter = record { nodes = 0; string_bytes = 0 }

module _ (max_string_bytes : ℕ) where
  -- One more node, at some depth.
  abbrev pub enter : ℕ → Counter → Option Counter
  enter depth c = do
    let nodes_ = suc c.nodes
    guard (leb nodes_ max_json_nodes)
    guard (leb depth max_json_depth)
    some (record c { nodes = nodes_ })

  -- The bytes of one more text.
  abbrev pub count_bytes : Text → Counter → Option Counter
  unfolding utf8_byte_length
  count_bytes t c = do
    let bytes = c.string_bytes + utf8_byte_length t
    guard (leb bytes max_string_bytes)
    some (record c { string_bytes = bytes })

  unfoldable mutual
    unfolding array_value plain_record utf8_byte_length

    pub assert_json_safe : Json → ℕ → Counter → Option Counter
    assert_json_safe null depth c = enter depth c
    assert_json_safe (boolean b) depth c = enter depth c
    assert_json_safe (string t) depth c = do
      entered ← enter depth c
      guard (leb (utf8_byte_length t) max_sql_bytes)
      count_bytes t entered
    assert_json_safe (Json.number (finite n)) depth c = enter depth c
    assert_json_safe (Json.number unusable) depth c = none
    assert_json_safe (array vs) depth c = do
      entered ← enter depth c
      values ← array_value (array vs) max_array_items
      assert_items_safe vs (suc depth) entered
    assert_json_safe (object ms) depth c = do
      entered ← enter depth c
      record_ ← plain_record (object ms)
      assert_members_safe ms (suc depth) entered
    assert_json_safe foreign depth c = none

    pub assert_items_safe : Items → ℕ → Counter → Option Counter
    assert_items_safe nil depth c = some c
    assert_items_safe (cons v vs) depth c = do
      after ← assert_json_safe v depth c
      assert_items_safe vs depth after

    pub assert_members_safe : Members → ℕ → Counter → Option Counter
    assert_members_safe end depth c = some c
    assert_members_safe (member k v ms) depth c = do
      counted ← count_bytes k c
      after ← assert_json_safe v depth counted
      assert_members_safe ms depth after

-- `options.maxBytes ?? MAX_ARTIFACT_BYTES`, when it is a limit.
unfoldable pub byte_limit : Option Number → Option ℕ
unfolding safe_integer
byte_limit none = some max_artifact_bytes
byte_limit (some n) = do
  limit ← safe_integer (Json.number n) 1
  guard (leb limit max_artifact_bytes)
  some limit

unfoldable pub validate_json_value : Json → Option Number → Option Counter
unfolding byte_limit assert_json_safe
validate_json_value value max_bytes = do
  limit ← byte_limit max_bytes
  assert_json_safe limit value actor_value_wrapper_depth new_counter
