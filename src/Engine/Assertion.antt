-- ===== src/Engine/Assertion.antt =====
-- Assertions on a response, crates/gabriel-engine/src/assertion.rs.
pub mod Convert
pub mod Verdict
mod Tests
use gabrielbrowser.Base.{
  ℕ, Bool, true, false, not, Option, none, some, List, [], ◌∷◌, ◌++◌, Str, codes, if◌then◌else◌,
  is_some,
}
use gabrielbrowser.Base.Text.{contains}
use gabrielbrowser.Base.Results.{Result, ok, err}
use gabrielbrowser.Model
use gabrielbrowser.Model.{AssertTarget, AssertOp, Assertion, eq, ne, lt, gt, exists, missing}
use gabrielbrowser.Model.Fields.{get_first}
use gabrielbrowser.Json.{Json, JsonOps, number, string, json_eq}
use gabrielbrowser.Json.Diff.{render}
use gabrielbrowser.Json.Select.{select}
use gabrielbrowser.Engine.Assertion.Convert.{Toml, TomlOps, toml_to_json}
use gabrielbrowser.Json.Response.{ExecutedResponse, text, json}

pub record AssertionOutcome : Type 0 where
  pub description : Str
  pub passed : Bool
  pub actual : Str

module _ {N F : Type 0} (ops : JsonOps N F) where
  -- `value.as_f64()`
  abbrev pub as_float : Json N → Option F
  as_float (number n) = ops.as_f64 n
  as_float _ = none

  abbrev pub both : (F → F → Bool) → Option F → Option F → Bool
  both test (some a) (some b) = test a b
  both test _ _ = false

  unfoldable pub values_equal : Json N → Json N → Bool
  values_equal actual expected =
      if json_eq ops.num_eq actual expected
      then true
      else both ops.f64_eq (as_float actual) (as_float expected)

  -- The last arm is unreachable in the source, where it panics: `none`.
  unfoldable pub compare : AssertOp → Json N → Json N → Option Bool
  unfolding values_equal
  compare eq actual expected = some (values_equal actual expected)
  compare ne actual expected = some (not (values_equal actual expected))
  compare lt actual expected = some (both ops.f64_lt (as_float actual) (as_float expected))
  compare gt actual expected = some (both ops.f64_lt (as_float expected) (as_float actual))
  compare Model.contains actual expected = some (contains (render ops actual) (render ops expected))
  compare exists actual expected = none
  compare missing actual expected = none

  abbrev pub both_values : AssertOp → Option (Json N) → Option (Json N) → Option Bool
  both_values op (some actual) (some expected) = compare op actual expected
  both_values op _ _ = some false

  -- `passed` of `evaluate`
  unfoldable pub verdict : AssertOp → Option (Json N) → Option (Json N) → Option Bool
  unfolding compare
  verdict exists actual expected = some (is_some actual)
  verdict missing actual expected = some (not (is_some actual))
  verdict op actual expected = both_values op actual expected

  abbrev pub target_text : AssertTarget → Option Str → Str
  target_text Model.status path = codes "status"
  target_text Model.duration_ms path = codes "duration_ms"
  target_text Model.header (some name) = codes "header " ++ name
  target_text Model.header none = codes "header"
  target_text Model.body (some path) = codes "body " ++ path
  target_text Model.body none = codes "body"

  abbrev pub op_text : AssertOp → Str
  op_text eq = codes "=="
  op_text ne = codes "!="
  op_text lt = codes "<"
  op_text gt = codes ">"
  op_text Model.contains = codes "contains"
  op_text exists = codes "exists"
  op_text missing = codes "is missing"

  unfoldable pub describe : {V : Type 0} → Assertion V → Option (Json N) → Str
  describe assertion (some value) =
      target_text assertion.target assertion.path
      ++ (codes " " ++ (op_text assertion.op ++ (codes " " ++ render ops value)))
  describe assertion none =
      target_text assertion.target assertion.path ++ (codes " " ++ op_text assertion.op)

  -- `select(…).ok().flatten()`
  abbrev pub found_at : Option (Json N) → Str → Option (Json N)
  found_at none path = none
  found_at (some doc) path = elim (select doc path) [ err e ↦ none | ok v ↦ v ]

  abbrev pub header_value : ExecutedResponse → Option Str → Option (Json N)
  header_value response none = none
  header_value response (some name) = elim (get_first name response.headers) [
    | none ↦ none
    | some v ↦ some (string v)
  ]

  unfoldable pub actual_value : AssertTarget → Option Str → ExecutedResponse → Option (Json N)
  unfolding json text
  actual_value Model.status path response = some (number (ops.from_u64 response.status))
  actual_value Model.duration_ms path response =
      some (number (ops.from_u64 response.timings.total_ms))
  actual_value Model.header path response = header_value response path
  actual_value Model.body (some path) response = found_at (json ops response) path
  actual_value Model.body none response = some (string (text response))

  abbrev pub actual_text : Option (Json N) → Str
  actual_text none = codes "<missing>"
  actual_text (some v) = render ops v

  abbrev pub expected_value : {D : Type 0} → TomlOps N F D → Option (Toml F D) → Option (Json N)
  expected_value toml none = none
  expected_value toml (some v) = some (toml_to_json toml v)

  abbrev pub outcome_of :
      {D : Type 0}
      → TomlOps N F D
      → Assertion (Toml F D)
      → Option (Json N)
      → Bool
      → AssertionOutcome
  outcome_of toml assertion actual passed = record {
    description = describe assertion (expected_value toml assertion.value);
    passed = passed;
    actual = actual_text actual;
  }

  -- `none` where the source would panic.
  unfoldable pub evaluate :
      {D : Type 0}
      → TomlOps N F D
      → Assertion (Toml F D)
      → ExecutedResponse
      → Option AssertionOutcome
  unfolding toml_to_json verdict describe actual_value
  evaluate toml assertion response =
      let expected = expected_value toml assertion.value in
      let actual = actual_value assertion.target assertion.path response in
      elim (verdict assertion.op actual expected) [
        | none ↦ none
        | some passed ↦ some (outcome_of toml assertion actual passed)
      ]
