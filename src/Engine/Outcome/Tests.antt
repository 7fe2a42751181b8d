-- ===== src/Engine/Outcome/Tests.antt =====
-- Captures from a small response, and the instance of the theorem, crates/gabriel-engine/src/lib.rs.
use gabrielbrowser.Base.{ℕ, none, some, List, [], ◌∷◌, Str, codes, ◌≡◌, ◌==◌, ltb}
use gabrielbrowser.Model
use gabrielbrowser.Model.{VarCapture}
use gabrielbrowser.Model.Fields
use gabrielbrowser.Vars
use gabrielbrowser.Vars.{get}
use gabrielbrowser.Json.{JsonOps}
use gabrielbrowser.Json.Response.{ExecutedResponse, json}
use gabrielbrowser.Engine.Outcome.{apply_captures}
use gabrielbrowser.Engine.Outcome.Bindings.{found, last_bound, apply_captures_lem}

-- No body is a document.
abbrev ops : JsonOps ℕ ℕ
ops = record {
  num_eq = λ m n. m == n;
  as_f64 = λ n. some n;
  f64_eq = λ m n. m == n;
  f64_lt = ltb;
  from_u64 = λ n. n;
  to_string = λ _. codes "?";
  from_slice = λ _. none;
}

abbrev response : ExecutedResponse
response = record {
  status = 201;
  status_text = codes "Created";
  http_version = codes "HTTP/1.1";
  headers = (codes "location", Fields.one (codes "/users/7")) ∷ [];
  body = [];
  timings = record { ttfb_ms = 5; total_ms = 7 };
  final_url = codes "https://a/";
}

abbrev captures : List VarCapture
captures =
    record { var = codes "code"; from = Model.status; path = none }
    ∷ record { var = codes "place"; from = Model.header; path = some (codes "location") }
    ∷ record { var = codes "id"; from = Model.body; path = some (codes "id") }
    ∷ []

apply_captures_lem_example :
    let bindings = found ops (json ops response) response captures in
    let (r', captured) = apply_captures ops captures response Vars.new in
    (captured ≡ bindings)
    × ((name : Str) → get r' name ≡ last_bound name bindings (get Vars.new name))
apply_captures_lem_example = apply_captures_lem ops captures response Vars.new
