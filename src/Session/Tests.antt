-- ===== src/Session/Tests.antt =====
-- Cookies and jars at concrete inputs.
use gabrielbrowser.Base.{
  ◌+◌, ◌≡◌, refl, ◌↔◌, true, false, not, ◌&&◌, none, some, List, [], ◌∷◌, map, Str, codes, str_eq,
  starts_with, ends_with, strip_prefix, to_ascii_lowercase, length, filter, All, if◌then◌else◌,
  arith,
}
use gabrielbrowser.Base.Text.{
  trim, split, split_once, split_once_str, split_whitespace, trim_start_matches, rfind,
  parse_unsigned, join,
}
use gabrielbrowser.Base.Map.{lookup, insert, remove}
use gabrielbrowser.Base.Int.{pos, negsuc, ◌+ℤ◌, ◌-ℤ◌, ◌*ℤ◌, ◌/ℤ◌, ◌%ℤ◌, wrap_i64, as_i64, parse_i64}
use gabrielbrowser.Civil.{days_from_civil, era_of}
use gabrielbrowser.Session.{
  Cookie, domain_matches, path_matches, default_path, is_expired, matches, same_identity,
}
use gabrielbrowser.Session.Date.{month_number, parse_http_date}
use gabrielbrowser.Session.Parse.{
  Draft, domain_attr, plain_attr, attr_step, attrs, max_age_expiry, settle, first_draft, parse,
  origin_host,
}
use gabrielbrowser.Session.Home.{IsHome, parse-IsHome}
use gabrielbrowser.Session.Expiry.{max_age_overflow, max_age_deletes}
use gabrielbrowser.Session.Store.{
  SessionStore, new, jar, put, record_cookie, record_set_cookies, matching, cookie_header, prune,
  prune_jars, cookie_count, pair,
}
use gabrielbrowser.Base.Sort.{IsDescending}
use gabrielbrowser.Session.Store.Jar.{IsUnique, held, held-record_cookie}
use gabrielbrowser.Session.Store.Prune.{total, prune_lem}
use gabrielbrowser.Session.Store.Header.{is_due, SameButForPaths, cookie_header_lem}
use gabrielbrowser.Session.Store.Origin.{
  Response, absorb, History, start, response, pruned, History-IsUnique, IsAllowed,
  matching-IsAllowed,
}

pub session : Unit {0}
unfolding str_eq starts_with ends_with strip_prefix to_ascii_lowercase trim split split_once
    split_once_str split_whitespace trim_start_matches rfind parse_unsigned join lookup insert
    remove ◌+ℤ◌ ◌-ℤ◌ ◌*ℤ◌ ◌/ℤ◌ ◌%ℤ◌ wrap_i64 as_i64 parse_i64 days_from_civil era_of domain_matches
    path_matches default_path is_expired matches same_identity month_number parse_http_date
    domain_attr plain_attr attr_step attrs max_age_expiry settle first_draft parse jar put
    record_cookie record_set_cookies matching cookie_header prune prune_jars cookie_count
session = tt

abbrev sid : Cookie
sid = record {
  name = codes "sid";
  value = codes "abc";
  domain = codes "app.test";
  path = codes "/admin";
  host_only = false;
  secure = true;
  http_only = true;
  expires_ms = none;
}

sid_parsed :
    parse 5
      (codes "sid=abc; Domain=.app.test; Path=/admin; Secure; HttpOnly")
      (codes " WWW.app.test")
      (codes "/")
    ≡ some sid
unfolding session
sid_parsed = refl

parse_tests :
    (parse 5 (codes "sid=abc; Domain=bank.test") (codes "evil.test") (codes "/") ≡ none)
    × (parse 5 (codes "sid=abc; Domain=test") (codes "evil.test") (codes "/") ≡ none)
    × (parse 5 (codes "=abc") (codes "evil.test") (codes "/") ≡ none)
    × (parse_http_date (codes "Wed, 21 Oct 2026 07:28:00 GMT") ≡ some 1792567680000)
    × (default_path (codes "/admin/users/7") ≡ codes "/admin/users")
unfolding session
parse_tests = (refl, refl, refl, refl, refl)

domain_tests :
    (domain_matches (codes "notbank.test") (codes "bank.test") ≡ false)
    × (domain_matches (codes "secure.bank.test") (codes "bank.test") ≡ true)
    × (path_matches (codes "/administrator") (codes "/admin") ≡ false)
    × (path_matches (codes "/admin/x") (codes "/admin") ≡ true)
unfolding session
domain_tests = (refl, refl, refl, refl)

abbrev filled : SessionStore
filled =
    (record_set_cookies 5 new (codes "s")
      (codes "a=root; Path=/" ∷ codes "b=deep; Path=/admin" ∷ codes "c=; Max-Age=0" ∷ [])
      (codes "app.test") (codes "/")).0

header_tests :
    (cookie_header 6 filled (codes "s") (codes "app.test") (codes "/admin/x") false
      ≡ some (codes "b=deep; a=root"))
    × (cookie_header 6 filled (codes "s") (codes "evil.test") (codes "/") false ≡ none)
    × (cookie_header 6 filled (codes "t") (codes "app.test") (codes "/") false ≡ none)
    × (cookie_count filled (codes "s") ≡ 2)
unfolding session
header_tests = (refl, refl, refl, refl)

parse-IsHome_example : IsHome (origin_host (codes " WWW.app.test")) sid
parse-IsHome_example =
    parse-IsHome 5 (codes "sid=abc; Domain=.app.test; Path=/admin; Secure; HttpOnly")
      (codes " WWW.app.test") (codes "/") sid sid_parsed

abbrev draft : Draft
draft = record { cookie = sid; max_age = none }

max_age_overflow_example :
    is_expired 1 (settle 1785283200000 (record draft { max_age = some (pos 9223372036854776) }))
    ≡ true
max_age_overflow_example =
    max_age_overflow 1785283200000 9223372036854776 1 draft (omega arith) (omega arith)
      (omega arith)

max_age_deletes_example :
    (is_expired 1000 (settle 1000 (record draft { max_age = some (negsuc 4) })) ≡ true)
    × (is_expired 1000 (settle 1000 (record draft { max_age = some (pos 0) })) ≡ true)
max_age_deletes_example = max_age_deletes 1000 4 draft (omega arith) (omega arith)

abbrev first_response : Response
first_response = record {
  now = 5;
  session = codes "s";
  headers = codes "a=root; Path=/" ∷ codes "b=deep; Path=/admin" ∷ codes "a=again; Path=/" ∷ [];
  host = codes "app.test";
  path = codes "/";
}

abbrev history : History (first_response ∷ []) (prune 6 (absorb new first_response)).0
history = pruned 6 (response first_response start)

History-IsUnique_example : IsUnique (jar (prune 6 (absorb new first_response)).0 (codes "s"))
History-IsUnique_example = History-IsUnique history (codes "s")

matching-IsAllowed_example :
    All (IsAllowed (first_response ∷ []) 7 (codes "s") (codes "APP.test") (codes "/admin/x") true) (
      matching 7
        (prune 6 (absorb new first_response)).0
        (codes "s")
        (codes "APP.test")
        (codes "/admin/x")
        true)
matching-IsAllowed_example =
    matching-IsAllowed history 7 (codes "s") (codes "APP.test") (codes "/admin/x") true

held-record_cookie_example : held sid (jar (record_cookie 7 filled (codes "s") sid) (codes "s")) ≡ (
    if str_eq (codes "s") (codes "s") && same_identity sid sid
    then (if is_expired 7 sid then none else some sid)
    else held sid (jar filled (codes "s")))
held-record_cookie_example = held-record_cookie 7 filled (codes "s") (codes "s") sid sid

prune_lem_example :
    ((session_name : Str)
      → (jar (prune 9 filled).0 session_name
          ≡ filter (λ c. not (is_expired 9 c)) (jar filled session_name))
        × All (λ c. is_expired 9 c ≡ false) (jar (prune 9 filled).0 session_name))
    × (total filled.sessions ≡ total (prune 9 filled).0.sessions + (prune 9 filled).1)
prune_lem_example = prune_lem 9 filled

cookie_header_lem_example :
    let due = filter (is_due 6 (codes "app.test") (codes "/") false) (jar filled (codes "s")) in
    ((cookie_header 6 filled (codes "s") (codes "app.test") (codes "/") false ≡ none)
      ↔ All (λ c. is_due 6 (codes "app.test") (codes "/") false c ≡ false) (jar filled (codes "s")))
    × ((h : Str)
        → cookie_header 6 filled (codes "s") (codes "app.test") (codes "/") false ≡ some h
        → (sent : List Cookie) × (h ≡ join (codes "; ") (map pair sent))
          × IsDescending (λ (c : Cookie). length c.path) sent
          × SameButForPaths sent due)
cookie_header_lem_example =
    cookie_header_lem 6 filled (codes "s") (codes "app.test") (codes "/") false
