-- ===== src/Engine/Assertion/Tests.antt =====
-- Assertions on a small response, and the instance of the theorem,
-- crates/gabriel-engine/src/assertion.rs.
use gabrielbrowser.Base.{ℕ, true, none, some, [], Str, codes, ◌≡◌, ◌==◌, ltb, ◌↔◌}
use gabrielbrowser.Base.Int.{ℤ, pos, negsuc}
use gabrielbrowser.Model
use gabrielbrowser.Model.{Assertion}
use gabrielbrowser.Json.{JsonOps, number, object, prop, end}
use gabrielbrowser.Json.Response.{ExecutedResponse}
use gabrielbrowser.Engine.Assertion.{AssertionOutcome, evaluate, actual_value, expected_value}
use gabrielbrowser.Engine.Assertion.Convert.{Toml, TomlOps, integer}
use gabrielbrowser.Engine.Assertion.Verdict.{Holds, evaluate_lem}

-- Numbers are natural numbers, and every body is `{"count": 3}`.
abbrev ops : JsonOps ℕ ℕ
ops = record {
  num_eq = λ m n. m == n;
  as_f64 = λ n. some n;
  f64_eq = λ m n. m == n;
  f64_lt = ltb;
  from_u64 = λ n. n;
  to_string = λ _. codes "?";
  from_slice = λ _. some (object (prop (codes "count") (number 3) end));
}

abbrev magnitude : ℤ → ℕ
magnitude (pos n) = n
magnitude (negsuc n) = n

abbrev toml : TomlOps ℕ ℕ Str
toml = record { from_i64 = magnitude; from_f64 = λ x. number x; date_text = λ d. d }

abbrev response : ExecutedResponse
response = record {
  status = 200;
  status_text = codes "OK";
  http_version = codes "HTTP/1.1";
  headers = [];
  body = codes "{\"count\": 3}";
  timings = record { ttfb_ms = 5; total_ms = 7 };
  final_url = codes "https://a/";
}

-- status < 300
abbrev below_300 : Assertion (Toml ℕ Str)
below_300 = record {
  target = Model.status;
  path = none;
  op = Model.lt;
  value = some (integer (pos 300));
}

evaluate_lem_example :
    (outcome : AssertionOutcome) × (evaluate ops toml below_300 response ≡ some outcome)
    × ((outcome.passed ≡ true)
        ↔ Holds ops Model.lt
            (actual_value ops Model.status none response)
            (expected_value ops toml (some (integer (pos 300)))))
evaluate_lem_example = evaluate_lem ops toml below_300 response
