-- ===== src/Engine/Outcome.antt =====
-- What a response leaves: the variables that it binds and the assertions on it, the end of
-- `Executor::execute` of crates/gabriel-engine/src/lib.rs.
pub mod Bindings
mod Tests
use gabrielbrowser.Base.{
  ℕ, Bool, true, false, not, Option, none, some, List, [], ◌∷◌, ◌++◌, Str, codes, str_eq,
  if◌then◌else◌, eq_ignore_ascii_case, filter, ◌>>=◌,
}
use gabrielbrowser.Base.Decimal.{decimal}
use gabrielbrowser.Base.Results.{Result, ok, err}
use gabrielbrowser.Base.Text.{split_once, split, trim}
use gabrielbrowser.Model
use gabrielbrowser.Model.{CaptureSource, VarCapture, Assertion, RequestSpec}
use gabrielbrowser.Model.Fields.{FieldMap, get_first, iter_pairs}
use gabrielbrowser.Vars
use gabrielbrowser.Vars.{Resolver}
use gabrielbrowser.Json.{Json, JsonOps}
use gabrielbrowser.Json.Select.{select, to_plain_string}
use gabrielbrowser.Json.Response.{ExecutedResponse, text, json}
use gabrielbrowser.Engine.{SentRequest, Hop}
use gabrielbrowser.Engine.Assertion.{AssertionOutcome, evaluate}
use gabrielbrowser.Engine.Assertion.Convert.{Toml, TomlOps}

abbrev pub first_part : List Str → Str
first_part [] = []
first_part (p ∷ ps) = p

-- The value of a `Set-Cookie` header, if it sets the cookie of a name.
unfoldable pub cookie_set : Str → Str → Option Str
cookie_set name header = elim (split_once b'=' header) [
  | none ↦ none
  | some (cookie_name, rest) ↦
      if str_eq (trim cookie_name) name then some (trim (first_part (split b';' rest))) else none
]

-- The first `Set-Cookie` header that sets it.
unfoldable pub cookie_value : Str → List (Str × Str) → Option Str
unfolding cookie_set
cookie_value name [] = none
cookie_value name ((k, v) ∷ pairs) =
    let rest = cookie_value name pairs in
    if eq_ignore_ascii_case k (codes "set-cookie")
    then elim (cookie_set name v) [ none ↦ rest | some value ↦ some value ]
    else rest

module _ {N F : Type 0} (ops : JsonOps N F) where
  -- `jsonpath::select(…).ok().flatten().map(to_plain_string)`
  abbrev pub selected_text : Json N → Str → Option Str
  selected_text doc path = elim (select doc path) [
    | err e ↦ none
    | ok found ↦ elim found [ none ↦ none | some v ↦ some (to_plain_string ops v) ]
  ]

  abbrev pub body_value : Option (Json N) → Option Str → ExecutedResponse → Option Str
  body_value (some doc) (some path) response = selected_text doc path
  body_value doc none response = some (text response)
  body_value none (some path) response = none

  -- the value of one capture
  unfoldable pub captured_value : Option (Json N) → ExecutedResponse → VarCapture → Option Str
  unfolding cookie_value text
  captured_value doc response capture = by_source capture.from
    where
      by_source : CaptureSource → Option Str
      by_source Model.status = some (decimal response.status)
      by_source Model.header = capture.path >>= (λ name. get_first name response.headers)
      by_source Model.cookie =
          capture.path >>= (λ name. cookie_value name (iter_pairs response.headers))
      by_source Model.body = body_value doc capture.path response

  -- the loop of `apply_captures`, with the variables and the list that it leaves
  unfoldable pub capture_all :
      Option (Json N)
      → ExecutedResponse
      → List VarCapture
      → Resolver
      → List (Str × Str)
      → Resolver × List (Str × Str)
  unfolding captured_value
  capture_all doc response [] r captured = (r, captured)
  capture_all doc response (capture ∷ captures) r captured =
      elim (captured_value doc response capture) [
        | none ↦ capture_all doc response captures r captured
        | some value ↦
            capture_all doc response captures (Vars.set r capture.var value)
              (captured ++ (capture.var, value) ∷ [])
      ]

  unfoldable pub apply_captures :
      List VarCapture → ExecutedResponse → Resolver → Resolver × List (Str × Str)
  unfolding capture_all json
  apply_captures captures response r = capture_all (json ops response) response captures r []

  abbrev pub evaluate_all :
      {D : Type 0}
      → TomlOps N F D
      → List (Assertion (Toml F D))
      → ExecutedResponse
      → Option (List AssertionOutcome)
  evaluate_all toml [] response = some []
  evaluate_all toml (a ∷ asserts) response = evaluate ops toml a response >>= (λ outcome.
      evaluate_all toml asserts response >>= (λ outcomes. some (outcome ∷ outcomes)))

pub record RunOutcome : Type 0 where
  pub sent : SentRequest
  pub response : ExecutedResponse
  pub assertions : List AssertionOutcome
  pub captured : List (Str × Str)
  pub redirects : List Hop

abbrev pub all_passed : List AssertionOutcome → Bool
all_passed [] = true
all_passed (a ∷ outcomes) = if a.passed then all_passed outcomes else false

unfoldable pub assertions_passed : RunOutcome → Bool
assertions_passed outcome = all_passed outcome.assertions

unfoldable pub failed_assertions : RunOutcome → List AssertionOutcome
failed_assertions outcome = filter (λ (a : AssertionOutcome). not a.passed) outcome.assertions
