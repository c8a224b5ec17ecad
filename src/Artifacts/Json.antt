-- ===== src/Artifacts/Json.antt =====
-- The values that artifact-schema.ts and source-schema.ts examine. A value is a tree: an object
-- that is met again inside itself stands there as `foreign`.
use interleave.Prelude.{ℕ, ◌^◌, Bool, List, [], ◌∷◌, Text, Dict, ℤ}

-- A finite number is a multiple of the least positive one, 2 ^ -1074: a count of ticks, with its
-- sign. `unusable` is a number that is not finite, or negative zero.
pub data Number : Type 0 where
  finite : ℤ → Number
  unusable : Number

-- The ticks of the number 1.
unfoldable pub one : ℕ
one = 2 ^ 1074

mutual
  -- `foreign` is what JSON has no form for and every check refuses: `undefined`, functions, symbols,
  -- objects with a custom prototype, with symbol keys or accessors, arrays with holes or extra
  -- properties, and an object inside itself.
  pub data Json : Type 0 where
    null : Json
    boolean : Bool → Json
    number : Number → Json
    string : Text → Json
    array : Items → Json
    object : Members → Json
    foreign : Json

  pub data Items : Type 0 where
    nil : Items
    cons : Json → Items → Items

  -- The own properties of an object, in their order.
  pub data Members : Type 0 where
    end : Members
    member : Text → Json → Members → Members

abbrev pub items : Items → List Json
items nil = []
items (cons v vs) = v ∷ items vs

abbrev pub members : Members → Dict Json
members end = []
members (member k v ms) = (k, v) ∷ members ms
