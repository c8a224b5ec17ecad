-- ===== src/Artifacts/Safety/Measures.antt =====
-- What `assertJsonSafe` admits, said of the value as a whole: its nodes, the depth and the bytes of
-- its texts within the limits, and every node of it legal by itself.
use interleave.Prelude.{
  ℕ, suc, ◌+◌, ◌≤◌, ◌≡◌, refl, ◌∙◌, Bool, true, false, ◌&&◌, not, any, has, max, Option, none, some,
  Text, length, leb, if◌then◌else◌, ◌>>=◌, Bool-cases, inl, inr, arith,
}
use interleave.Artifacts.Json.{
  Json, null, boolean, string, array, object, foreign, Items, nil, cons, Members, end, member,
  finite, unusable, items, members,
}
use interleave.Artifacts.Fields.{
  utf8_byte_length, plain_record, array_value, max_array_items, max_sql_bytes,
}
use interleave.Artifacts.Safety.{
  Counter, new_counter, enter, count_bytes, assert_json_safe, assert_items_safe,
  assert_members_safe, max_json_depth, max_json_nodes,
}
use interleave.Lanes.Labels.{prototype_keys}

unfoldable mutual
  pub nodes_of : Json → ℕ
  nodes_of (array vs) = suc (nodes_of_items vs)
  nodes_of (object ms) = suc (nodes_of_members ms)
  nodes_of _ = 1

  pub nodes_of_items : Items → ℕ
  nodes_of_items nil = 0
  nodes_of_items (cons v vs) = nodes_of v + nodes_of_items vs

  pub nodes_of_members : Members → ℕ
  nodes_of_members end = 0
  nodes_of_members (member k v ms) = nodes_of v + nodes_of_members ms

unfoldable mutual
  pub depth_of : Json → ℕ
  depth_of (array vs) = depth_of_items vs
  depth_of (object ms) = depth_of_members ms
  depth_of _ = 0

  pub depth_of_items : Items → ℕ
  depth_of_items nil = 0
  depth_of_items (cons v vs) = max (suc (depth_of v)) (depth_of_items vs)

  pub depth_of_members : Members → ℕ
  depth_of_members end = 0
  depth_of_members (member k v ms) = max (suc (depth_of v)) (depth_of_members ms)

unfoldable mutual
  pub bytes_of : Json → ℕ
  bytes_of (string t) = utf8_byte_length t
  bytes_of (array vs) = bytes_of_items vs
  bytes_of (object ms) = bytes_of_members ms
  bytes_of _ = 0

  pub bytes_of_items : Items → ℕ
  bytes_of_items nil = 0
  bytes_of_items (cons v vs) = bytes_of v + bytes_of_items vs

  pub bytes_of_members : Members → ℕ
  bytes_of_members end = 0
  bytes_of_members (member k v ms) = utf8_byte_length k + (bytes_of v + bytes_of_members ms)

abbrev pub is_plain : Members → Bool
is_plain ms =
    leb (length (members ms)) max_array_items
    && not (any (λ (k, v). has k prototype_keys) (members ms))

-- A number is finite and not negative zero, a text is within the limit on SQL, an array or an object
-- is within the limit on items, no member has a sensitive name, and nothing is foreign to JSON.
unfoldable mutual
  pub is_legal : Json → Bool
  is_legal null = true
  is_legal (boolean b) = true
  is_legal (string t) = leb (utf8_byte_length t) max_sql_bytes
  is_legal (Json.number (finite n)) = true
  is_legal (Json.number unusable) = false
  is_legal (array vs) = leb (length (items vs)) max_array_items && is_legal_items vs
  is_legal (object ms) = is_plain ms && is_legal_members ms
  is_legal foreign = false

  pub is_legal_items : Items → Bool
  is_legal_items nil = true
  is_legal_items (cons v vs) = is_legal v && is_legal_items vs

  pub is_legal_members : Members → Bool
  is_legal_members end = true
  is_legal_members (member k v ms) = is_legal v && is_legal_members ms

unfoldable pub admits : ℕ → ℕ → Counter → Bool → ℕ → ℕ → ℕ → Bool
admits limit depth c legal nodes below bytes =
    legal
    && leb (c.nodes + nodes) max_json_nodes
    && leb (depth + below) max_json_depth
    && leb (c.string_bytes + bytes) limit

abbrev pub grown : Counter → ℕ → ℕ → Counter
grown c nodes bytes = record { nodes = c.nodes + nodes; string_bytes = c.string_bytes + bytes }

abbrev pub admitted : ℕ → ℕ → Counter → Bool → ℕ → ℕ → ℕ → Option Counter
unfolding admits
admitted limit depth c legal nodes below bytes =
    if admits limit depth c legal nodes below bytes then some (grown c nodes bytes) else none

module _ (limit : ℕ) where
  -- The two parts of an array or an object: the first value, then the others after it.
  sequence :
      (depth : ℕ) (c : Counter) (legal legal' : Bool) (n n' d d' b b' : ℕ)
      (rest : Counter → Option Counter)
      → ((c' : Counter)
          → c'.nodes ≤ max_json_nodes
          → c'.string_bytes ≤ limit
          → rest c' ≡ admitted limit depth c' legal' n' d' b')
      → (admitted limit (suc depth) c legal n d b >>= rest)
        ≡ admitted limit depth c (legal && legal') (n + n') (max (suc d) d') (b + b')
  unfolding admits
  sequence depth c legal legal' n n' d d' b b' rest h =
      elim (Bool-cases (admits limit (suc depth) c legal n d b)) [
        | inl fine ↦ rw fine (h (grown c n b) (ground arith) (ground arith) ∙ ground arith)
        | inr bad ↦ rw bad (ground arith)
      ]

  -- A member's key is counted before its value.
  keyed :
      (depth : ℕ) (c : Counter) (k : Text) (legal : Bool) (n d b : ℕ)
      (value : Counter → Option Counter)
      → c.string_bytes ≤ limit
      → ((c' : Counter) → c'.string_bytes ≤ limit → value c' ≡ admitted limit depth c' legal n d b)
      → (count_bytes limit k c >>= value)
        ≡ admitted limit depth c legal n d (utf8_byte_length k + b)
  unfolding admits count_bytes utf8_byte_length
  keyed depth c k legal n d b value h hv =
      elim (Bool-cases (leb (c.string_bytes + utf8_byte_length k) limit)) [
        | inl fine ↦ rw fine (
            hv (record c { string_bytes = c.string_bytes + utf8_byte_length k }) (ground arith)
            ∙ ground arith)
        | inr bad ↦ rw bad (ground arith)
      ]

  -- An array or an object is counted before its parts.
  framed :
      (depth : ℕ) (c : Counter) (legal : Bool) (n d b : ℕ) (rest : Counter → Option Counter)
      → c.string_bytes ≤ limit
      → ((c' : Counter)
          → c'.nodes ≤ max_json_nodes
          → depth ≤ max_json_depth
          → c'.string_bytes ≤ limit
          → rest c' ≡ admitted limit depth c' legal n d b)
      → (enter limit depth c >>= rest) ≡ admitted limit depth c legal (suc n) d b
  unfolding admits
  framed depth c legal n d b rest h hr =
      elim (Bool-cases (leb (suc c.nodes) max_json_nodes && leb depth max_json_depth)) [
        | inl fine ↦
            let c' : Counter = record c { nodes = suc c.nodes } in
            let next = hr c' (ground arith) (ground arith) h in ground arith
        | inr bad ↦ ground arith
      ]

  gated :
      {R : Type 0} (depth : ℕ) (c : Counter) (p legal : Bool) (n d b : ℕ) (r : R)
      (m : Option Counter)
      → m ≡ admitted limit depth c legal n d b
      → ((if p then some r else none) >>= λ _. m) ≡ admitted limit depth c (p && legal) n d b
  unfolding admits
  gated depth c true legal n d b r m h = h
  gated depth c false legal n d b r m h = refl

  mutual
    unfolding assert_json_safe nodes_of depth_of bytes_of is_legal admits array_value plain_record

    assert_json_safe_eq :
        (v : Json) (depth : ℕ) (c : Counter)
        → c.string_bytes ≤ limit
        → assert_json_safe limit v depth c
          ≡ admitted limit depth c (is_legal v) (nodes_of v) (depth_of v) (bytes_of v)
    assert_json_safe_eq null depth c h = ground arith
    assert_json_safe_eq (boolean b) depth c h = ground arith
    assert_json_safe_eq (string t) depth c h = ground arith
    assert_json_safe_eq (Json.number (finite n)) depth c h = ground arith
    assert_json_safe_eq (Json.number unusable) depth c h = ground arith
    assert_json_safe_eq (array vs) depth c h = framed depth c _ _ _ _ _ h (λ c' p q r.
        gated depth c' (leb (length (items vs)) max_array_items) _ _ _ _ (items vs) _
          (assert_items_safe_eq vs depth c' p q r))
    assert_json_safe_eq (object ms) depth c h = framed depth c _ _ _ _ _ h (λ c' p q r.
        gated depth c' (is_plain ms) _ _ _ _ (members ms) _
          (assert_members_safe_eq ms depth c' p q r))
    assert_json_safe_eq foreign depth c h = ground arith

    assert_items_safe_eq :
        (vs : Items) (depth : ℕ) (c : Counter)
        → c.nodes ≤ max_json_nodes
        → depth ≤ max_json_depth
        → c.string_bytes ≤ limit
        → assert_items_safe limit vs (suc depth) c
          ≡ admitted limit depth c
              (is_legal_items vs)
              (nodes_of_items vs)
              (depth_of_items vs)
              (bytes_of_items vs)
    assert_items_safe_eq nil depth c h h' h'' = ground arith
    assert_items_safe_eq (cons v vs) depth c h h' h'' =
        rw (assert_json_safe_eq v (suc depth) c h'')
          (sequence depth c _ _ _ _ _ _ _ _ _ (λ c' p q. assert_items_safe_eq vs depth c' p h' q))

    assert_members_safe_eq :
        (ms : Members) (depth : ℕ) (c : Counter)
        → c.nodes ≤ max_json_nodes
        → depth ≤ max_json_depth
        → c.string_bytes ≤ limit
        → assert_members_safe limit ms (suc depth) c
          ≡ admitted limit depth c
              (is_legal_members ms)
              (nodes_of_members ms)
              (depth_of_members ms)
              (bytes_of_members ms)
    assert_members_safe_eq end depth c h h' h'' = ground arith
    assert_members_safe_eq (member k v ms) depth c h h' h'' = keyed depth c k _ _ _ _ _ h'' (λ c' q.
        rw (assert_json_safe_eq v (suc depth) c' q) (
          sequence depth c' _ _ _ _ _ _ _ _ _
            (λ c'' p r. assert_members_safe_eq ms depth c'' p h' r)))

  -- The walk admits a value exactly when every node of it is legal, and its nodes, its depth below
  -- the starting one and the bytes of its texts and keys are within the limits; it counts the nodes
  -- and the bytes.
  pub assert_json_safe-measures :
      (v : Json) (depth : ℕ)
      → assert_json_safe limit v depth new_counter
        ≡ admitted limit depth new_counter (is_legal v) (nodes_of v) (depth_of v) (bytes_of v)
  assert_json_safe-measures v depth = assert_json_safe_eq v depth new_counter (omega arith)
