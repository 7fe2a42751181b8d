-- ===== src/Engine/OAuth.antt =====
-- The authorization-code flow with PKCE, crates/gabriel-engine/src/oauth.rs.
pub mod Callback
pub mod Secrets
mod Tests
use gabrielbrowser.Base.{
  ℕ, zero, suc, ◌+◌, ◌*◌, ◌/◌, ◌%◌, Bool, true, false, not, ◌&&◌, ◌||◌, Option, none, some, List,
  [], ◌∷◌, ◌++◌, Str, codes, map, if◌then◌else◌, ◌==◌, length, ◌>>=◌, filter, starts_with,
  strip_suffix, any, to_ascii_lowercase, get_elem?, leb, ltb,
}
use gabrielbrowser.Base.Decimal.{decimal}
use gabrielbrowser.Base.Map
use gabrielbrowser.Base.Map.{Map, lookup}
use gabrielbrowser.Base.Results.{Result, ok, err}
use gabrielbrowser.Base.Text.{
  split, split_once, split_whitespace, is_empty, join, has_byte, first_prefix, white_spaces,
}
use gabrielbrowser.Base.Utf8.{from_utf8_lossy}
use gabrielbrowser.Capture.Url.{percent_decode}
use gabrielbrowser.Model.{OAuth2}
use gabrielbrowser.Engine.{EngineError, auth}
use gabrielbrowser.Engine.Form.{is_unreserved, upper_hex}

pub record Pkce : Type 0 where
  pub verifier : Str
  pub challenge : Str

-- `digest` is SHA-256 and `base64url` the encoding without padding, of other crates.
abbrev pub from_verifier : (digest base64url : Str → Str) → Str → Pkce
from_verifier digest base64url verifier = record {
  verifier = verifier;
  challenge = base64url (digest verifier);
}

unfoldable pub urlencode : Str → Str
urlencode [] = []
urlencode (c ∷ s) =
    let rest = urlencode s in
    if is_unreserved c then c ∷ rest else b'%' ∷ upper_hex (c / 16) ∷ upper_hex (c % 16) ∷ rest

-- The text of `urldecode` is that of `percent_decode`; `none` is a panic here too.
abbrev pub urldecode : Str → Option Str
urldecode input = percent_decode input

abbrev pub optional_param : Str → Option Str → List (Str × Str)
optional_param name none = []
optional_param name (some value) = (name, value) ∷ []

abbrev pub authorize_params : OAuth2 → Str → Pkce → Str → List (Str × Str)
authorize_params config redirect_uri pkce state =
    (codes "response_type", codes "code")
    ∷ (codes "client_id", config.client_id)
    ∷ (codes "redirect_uri", redirect_uri)
    ∷ (codes "state", state)
    ∷ (codes "code_challenge", pkce.challenge)
    ∷ (codes "code_challenge_method", codes "S256")
    ∷ (optional_param (codes "scope") config.scope
        ++ optional_param (codes "audience") config.audience)

abbrev pub query_pair : Str × Str → Str
query_pair (k, v) = k ++ b'=' ∷ urlencode v

unfoldable pub build_authorize_url : Str → OAuth2 → Str → Pkce → Str → Str
unfolding urlencode
build_authorize_url authorize_url config redirect_uri pkce state =
    authorize_url
    ++ ((if has_byte b'?' authorize_url then codes "&" else codes "?")
        ++ join (codes "&") (map query_pair (authorize_params config redirect_uri pkce state)))

-- the loop of `parse_query`; a later pair replaces an earlier one
unfoldable pub add_params : Map Str → List Str → Option (Map Str)
add_params m [] = some m
add_params m (pair ∷ pairs) = elim (split_once b'=' pair) [
  | none ↦ add_params m pairs
  | some (key, value) ↦
      urldecode key >>= (λ k. urldecode value >>= (λ v. add_params (Map.insert k v m) pairs))
]

unfoldable pub parse_query : Str → Option (Map Str)
unfolding add_params
parse_query query = add_params [] (filter (λ pair. not (is_empty pair)) (split b'&' query))

-- `x ^ y` and `x | y` of bytes, by as many bits as `bits` says
unfoldable pub xor : (bits x y : ℕ) → ℕ
xor zero x y = 0
xor (suc bits) x y = (x % 2 + y % 2) % 2 + 2 * xor bits (x / 2) (y / 2)

abbrev pub or_bit : ℕ → ℕ → ℕ
or_bit zero y = y
or_bit (suc x) y = 1

unfoldable pub or : (bits x y : ℕ) → ℕ
or zero x y = 0
or (suc bits) x y = or_bit (x % 2) (y % 2) + 2 * or bits (x / 2) (y / 2)

-- the fold over the pairs of bytes
unfoldable pub differences : ℕ → Str → Str → ℕ
unfolding or xor
differences acc (x ∷ a) (y ∷ b) = differences (or 8 acc (xor 8 x y)) a b
differences acc _ _ = acc

unfoldable pub constant_time_eq : Str → Str → Bool
unfolding differences
constant_time_eq a b = if not (length a == length b) then false else differences 0 a b == 0

-- `request.lines().next()`
abbrev pub first_line : Str → Str
first_line [] = []
first_line (c ∷ s) = let rest = first_line s in if c == b'\n' then [] else c ∷ rest

abbrev pub without_cr : Str → Str
without_cr s = elim (strip_suffix s (codes "\r")) [ some r ↦ r | none ↦ s ]

-- the target of a request, `/` where it has none
unfoldable pub target_of : Str → Str
target_of request = elim (get_elem? (split_whitespace (without_cr (first_line request))) 1) [
  | none ↦ codes "/"
  | some target ↦ target
]

-- What one connection makes of the flow. `none` is a panic of `urldecode`.
pub data Answer : Type 0 where
  again : (status : ℕ) → Answer
  refused : (message : Str) → Answer
  accepted : (code : Str) → Answer

abbrev pub description_of : Str → Option Str → Str
description_of error none = error
description_of error (some description) = description

abbrev pub state_matches : Str → Option Str → Bool
state_matches expected none = false
state_matches expected (some state) = constant_time_eq state expected

abbrev pub code_answer : Option Str → Answer
code_answer none = again 400
code_answer (some code) = accepted code

unfoldable pub answer_params : Str → Map Str → Answer
answer_params expected params = elim (lookup (codes "error") params) [
  | some error ↦ refused (
      codes "the provider refused: "
      ++ (error
          ++ (0x20 ∷ 0xe2 ∷ 0x80 ∷ 0x94 ∷ 0x20 ∷ []
              ++ description_of error (lookup (codes "error_description") params))))
  | none ↦ elim (state_matches expected (lookup (codes "state") params)) [
    | true ↦ code_answer (lookup (codes "code") params)
    | false ↦ refused (
        codes "the callback's state did not match "
        ++ (0xe2 ∷ 0x80 ∷ 0x94 ∷ [] ++ codes " the response was discarded"))
  ]
]

unfoldable pub answer : Str → Str → Option Answer
unfolding target_of parse_query answer_params
answer expected request = elim (split_once b'?' (target_of request)) [
  | none ↦ some (again 404)
  | some (path, query) ↦ elim (parse_query query) [
    | none ↦ none
    | some params ↦ some (answer_params expected params)
  ]
]

-- What waiting for a connection comes to: a request's first bytes, read as text.
pub data Accepted : Type 0 where
  late : Accepted
  failed : (message : Str) → Accepted
  connection : (bytes : Str) → Accepted

-- The loop of `wait_for_code`, over the connections in their order; `none` is a panic, or that the
-- connections are over before the deadline is.
unfoldable pub wait_for_code : Str → List Accepted → Option (Result EngineError Str)
unfolding answer
wait_for_code expected [] = none
wait_for_code expected (late ∷ later) =
    some (err (auth (codes "timed out waiting for the browser to come back")))
wait_for_code expected (failed message ∷ later) =
    some (err (auth (codes "accepting the callback failed: " ++ message)))
wait_for_code expected (connection bytes ∷ later) = elim (answer expected (from_utf8_lossy bytes)) [
  | none ↦ none
  | some given ↦ elim given [
    | again status ↦ wait_for_code expected later
    | refused message ↦ some (err (auth message))
    | accepted code ↦ some (ok code)
  ]
]

abbrev pub exchange_form : OAuth2 → Str → Str → Str → List (Str × Str)
exchange_form config code verifier redirect_uri =
    (codes "grant_type", codes "authorization_code")
    ∷ (codes "code", code)
    ∷ (codes "redirect_uri", redirect_uri)
    ∷ (codes "client_id", config.client_id)
    ∷ (codes "code_verifier", verifier)
    ∷ optional_param (codes "client_secret") config.client_secret

abbrev pub refresh_form : OAuth2 → Str → List (Str × Str)
refresh_form config refresh_token =
    (codes "grant_type", codes "refresh_token")
    ∷ (codes "refresh_token", refresh_token)
    ∷ (codes "client_id", config.client_id)
    ∷ optional_param (codes "client_secret") config.client_secret

-- a control character, or white space, of Unicode
abbrev pub is_control : Str → Bool
is_control [] = false
is_control (c ∷ []) = ltb c 0x20 || c == 0x7f
is_control (c ∷ d ∷ s) = (ltb c 0x20 || c == 0x7f) || (c == 0xc2 && (leb 0x80 d && leb d 0x9f))

abbrev pub is_space : Str → Bool
is_space s = elim (first_prefix white_spaces s) [ none ↦ false | some rest ↦ true ]

unfoldable pub has_unsafe : Str → Bool
has_unsafe [] = false
has_unsafe (c ∷ s) =
    let rest = has_unsafe s in if is_control (c ∷ s) || is_space (c ∷ s) then true else rest

unfoldable pub is_safe_to_open : Str → Bool
unfolding has_unsafe
is_safe_to_open url =
    let lowered = to_ascii_lowercase url in
    if not (starts_with lowered (codes "http://") || starts_with lowered (codes "https://"))
    then false
    else not (has_unsafe url)
