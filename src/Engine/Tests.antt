-- ===== src/Engine/Tests.antt =====
-- A redirect chain of crates/gabriel-engine/src/lib.rs on a small network, and the instances of the
-- theorems about it.
use gabrielbrowser.Base.{
  length, true, none, some, List, [], ◌∷◌, Str, codes, str_eq, if◌then◌else◌, ◌≡◌, refl, ◌==◌,
  to_ascii_lowercase, eq_ignore_ascii_case, is_some,
}
use gabrielbrowser.Base.Results.{ok}
use gabrielbrowser.Base.Map
use gabrielbrowser.Model.Fields
use gabrielbrowser.Session.Store.{new, cookie_header, jar, matching}
use gabrielbrowser.Engine.{UrlOps, Network, Raw}
use gabrielbrowser.Engine.Headers.{
  same_origin, same_host, same_port, strip_credentials, is_redirect, merge_cookie_headers,
}
use gabrielbrowser.Engine.Redirect.{
  Plan, Chain, Reaches, here, later, turn, follow, advance, answer, record_answer, response_headers,
  set_cookies, wire, hop_cookie, run, first,
}
use gabrielbrowser.Engine.Redirect.Bounds.{run-first}
use gabrielbrowser.Engine.Redirect.Origin.{IsSafe, Reaches-IsSafe}
use gabrielbrowser.Engine.Redirect.Method.{Carries, Reaches-Carries, IsRewritten, turn-IsRewritten}

-- A URL is its host, over https.
abbrev ops : UrlOps Str
ops = record {
  scheme = λ _. codes "https";
  host_str = λ u. some u;
  port_or_known_default = λ _. some 443;
  path = λ _. codes "/";
  to_string = λ u. u;
  join_url = λ _ location. ok location;
}

abbrev moved : Raw
moved = record {
  status = 302;
  version = codes "HTTP/1.1";
  url = codes "api.test";
  headers = (codes "location", some (codes "evil.test")) ∷ [];
  body = ok [];
}

abbrev arrived : Raw
arrived = record moved { status = 200; url = codes "evil.test"; headers = [] }

abbrev net : Network Str
net = record { send = λ n w. if n == 0 then ok moved else ok arrived; now_ms = λ _. 0 }

abbrev plan : Plan
plan = record {
  auth = none;
  follow_redirects = true;
  max_redirects = 10;
  session = codes "default";
  record_cookies = true;
}

abbrev headers : List (Str × Str)
headers = (codes "Authorization", codes "Bearer t") ∷ (codes "X-Api-Key", codes "k") ∷ []

abbrev start : Chain Str
start = first ops net plan (codes "api.test") (codes "POST") (some (codes "body")) headers new

abbrev second : Chain Str
second = record start {
  url = codes "evil.test";
  method = codes "GET";
  body_bytes = none;
  header_list = (codes "X-Api-Key", codes "k") ∷ [];
  hops = record { status = 302; url = codes "api.test"; location = codes "evil.test" } ∷ [];
}

first_turn : (turn ops net plan start).1 ≡ follow second
unfolding turn wire hop_cookie cookie_header matching jar merge_cookie_headers answer advance
    record_answer response_headers set_cookies same_origin same_host same_port strip_credentials
    is_redirect str_eq to_ascii_lowercase eq_ignore_ascii_case Map.lookup Map.insert Fields.insert
    Fields.get_first
first_turn = refl

reached : Reaches ops net plan start second
reached = later (here start) first_turn

Reaches-IsSafe_example : IsSafe ops net plan start second
Reaches-IsSafe_example = Reaches-IsSafe ops net plan start second reached

Reaches-Carries_example : Carries ops net plan (codes "X-Api-Key") start second
unfolding to_ascii_lowercase str_eq eq_ignore_ascii_case
Reaches-Carries_example =
    Reaches-Carries ops net plan (codes "X-Api-Key") refl refl start second reached

turn-IsRewritten_example :
    (raw : Raw) × (net.send (length start.hops) (wire ops net plan start) ≡ ok raw)
    × (is_redirect raw.status ≡ true)
    × IsRewritten ops net plan raw.status start second
turn-IsRewritten_example = turn-IsRewritten ops net plan start second first_turn

run-first_example : is_some (run ops net plan 11 start) ≡ true
run-first_example =
    run-first ops net plan (codes "api.test") (codes "POST") (some (codes "body")) headers new

abbrev base : List Str
base = codes "sid=old" ∷ codes "theme=dark" ∷ []

abbrev fresher : List Str
fresher = codes "sid=new" ∷ []
