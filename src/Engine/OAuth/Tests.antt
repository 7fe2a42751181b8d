-- ===== src/Engine/OAuth/Tests.antt =====
-- The callback of a login, and the instances of the theorems, crates/gabriel-engine/src/oauth.rs.
use gabrielbrowser.Base.{
  true, some, List, [], ◌∷◌, ◌++◌, Str, codes, str_eq, ◌≡◌, refl, All, ◌↔◌, arith, starts_with,
  strip_suffix,
}
use gabrielbrowser.Base.Map
use gabrielbrowser.Base.Results.{ok}
use gabrielbrowser.Capture.Url.{percent_decode}
use gabrielbrowser.Base.Utf8.{from_utf8_lossy}
use gabrielbrowser.Engine.OAuth.{
  Accepted, connection, constant_time_eq, wait_for_code, answer, target_of, parse_query, add_params,
  answer_params, differences, or, xor,
}
use gabrielbrowser.Base.Text.{split_once, split, split_whitespace}
use gabrielbrowser.Engine.OAuth.Callback.{IsGenuine, IsIgnored, wait_for_code_lem}
use gabrielbrowser.Engine.OAuth.Secrets.{constant_time_eq_iff}

-- a probe for an icon, an answer without a code and the genuine one
abbrev connections : List Accepted
connections =
    connection (codes "GET /favicon.ico HTTP/1.1\r\n\r\n")
    ∷ connection (codes "GET /callback?state=s1 HTTP/1.1\r\n\r\n")
    ∷ connection (codes "GET /callback?code=c1&state=s1 HTTP/1.1\r\n\r\n")
    ∷ []

found : wait_for_code (codes "s1") connections ≡ some (ok (codes "c1"))
unfolding wait_for_code answer target_of parse_query add_params answer_params constant_time_eq
    differences or xor from_utf8_lossy split_once split str_eq strip_suffix starts_with
    split_whitespace percent_decode Map.lookup Map.insert
found = refl

wait_for_code_lem_example :
    (before : List Accepted) × (bytes : Str) × (later : List Accepted) × (connections
      ≡ before ++ connection bytes ∷ later)
    × All (IsIgnored (codes "s1")) before
    × IsGenuine (codes "s1") (from_utf8_lossy bytes) (codes "c1")
wait_for_code_lem_example = wait_for_code_lem (codes "s1") connections (codes "c1") found

constant_time_eq_iff_example :
    (constant_time_eq (codes "s1") (codes "s2") ≡ true) ↔ (codes "s1" ≡ codes "s2")
constant_time_eq_iff_example =
    constant_time_eq_iff (codes "s1") (codes "s2") (omega arith, (omega arith, tt))
      (omega arith, (omega arith, tt))
