-- ===== src/Engine/Token/Tests.antt =====
-- A token fetched and kept, a form encoded, and the instances of the theorems about them,
-- crates/gabriel-engine/src/lib.rs.
use gabrielbrowser.Base.{Bool, false, none, some, [], ◌++◌, Str, codes, str_eq, ◌≡◌, refl, arith}
use gabrielbrowser.Base.Results.{Result, ok}
use gabrielbrowser.Base.Utf8.{from_utf8_lossy}
use gabrielbrowser.Capture.Url.{percent_decode}
use gabrielbrowser.Model.{new_spec, RequestSpec, bearer}
use gabrielbrowser.Session.Store
use gabrielbrowser.Vars.{World, Resolver}
use gabrielbrowser.Vars
use gabrielbrowser.Engine.{UrlOps, SentRequest}
use gabrielbrowser.Engine.Form.{urlencode, percent_decode-urlencode}
use gabrielbrowser.Engine.Body.{RequestOps}
use gabrielbrowser.Engine.Prepare.{prepare, first_request, with_clients}
use gabrielbrowser.Engine.Prepare.Shown.{executed, with_set_up, first_request-prepare}
use gabrielbrowser.Engine.Clients.{ClientOps, ClientConfig}
use gabrielbrowser.Engine.Token.{
  TokenWorld, TokenRequest, TokenResponse, AuthState, fetch_token, cached_token, read_token,
}
use gabrielbrowser.Engine.Token.Cache.{cached_token-fetch_token}

abbrev world : World
world = record {
  secret = λ _. none;
  env = λ _. none;
  uuid = λ _. [];
  timestamp = λ _. [];
  iso_timestamp = λ _. [];
  random_int = λ _. [];
}

abbrev answer : TokenResponse
answer = record { status = 200; status_line = codes "200 OK"; text = some (codes "{}") }

abbrev tokens : TokenWorld
tokens = record {
  now_ms = 1000;
  b64_encode = λ s. s;
  send = λ _. ok answer;
  read_json = λ _. ok (record { access_token = some (codes "tok"); expires_in = some 60 });
}

abbrev state : AuthState
state = record { resolver = Vars.new; oauth_tokens = [] }

abbrev request : TokenRequest
request = record { token_url = codes "https://auth.test/token"; authorization = none; form = [] }

cached_token-fetch_token_example :
    cached_token
      (fetch_token world tokens state (codes "k") request).0.oauth_tokens
      (codes "k")
      2000
    ≡ some (codes "tok")
unfolding str_eq
cached_token-fetch_token_example =
    cached_token-fetch_token world tokens state (codes "k") request answer (codes "tok") 60
      (codes "k") 2000 refl (unfold read_token in refl) (omega arith)

percent_decode-urlencode_example :
    percent_decode (urlencode (codes "a b+c/%")) ≡ some (codes "a b+c/%")
percent_decode-urlencode_example =
    percent_decode-urlencode (codes "a b+c/%")
      (
        omega arith,
        (
          omega arith,
          (omega arith, (omega arith, (omega arith, (omega arith, (omega arith, tt))))),
        ),
      )
      (unfold from_utf8_lossy in refl)

-- A URL is its text.
abbrev ops : UrlOps Str
ops = record {
  scheme = λ _. codes "https";
  host_str = λ u. some u;
  port_or_known_default = λ _. some 443;
  path = λ _. codes "/";
  to_string = λ u. u;
  join_url = λ _ location. ok location;
}

abbrev io : RequestOps Str (Unit {0})
io = record {
  parse_url = λ s. ok s;
  append_pair = λ u k v. u ++ (codes "?" ++ (k ++ (codes "=" ++ v)));
  parse_json = λ s. ok tt;
  graphql_bytes = λ q v n. q;
  read_file = λ p. none;
}

abbrev spec : RequestSpec (Unit {0})
spec = record (new_spec (λ s. s) (codes "GET") (codes "https://a.test")) {
  auth = some (bearer (codes "t"));
}

abbrev clients : ClientOps Str Str (ClientConfig Str Str)
clients = record {
  parse_proxy = λ s. ok s;
  parse_pem = λ s. ok s;
  build = λ c. ok c;
  hash = λ s. 0;
  read = λ _. none;
}

abbrev parse_method : Str → Result Str Str
parse_method m = ok m

first_request-prepare_example :
    let preparing =
      prepare world ops io tokens.b64_encode 5 Store.new (codes "default") state spec in
    (executed world ops io clients parse_method spec
        (first_request world ops io clients parse_method tokens state [] spec)
      ≡ with_set_up world ops io clients parse_method spec
          (with_clients world ops io clients parse_method [] preparing))
    × ((s' : AuthState) (shown : SentRequest) (pending : Bool)
        → preparing ≡ (s', ok (shown, pending))
        → pending ≡ false)
first_request-prepare_example =
    first_request-prepare world ops io clients parse_method tokens 5 Store.new (codes "default")
      state [] spec refl
