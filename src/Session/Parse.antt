-- ===== src/Session/Parse.antt =====
-- `Cookie::parse` of crates/gabriel-engine/src/session.rs.
use gabrielbrowser.Base.{
  ℕ, true, false, not, ◌||◌, Option, none, some, List, [], ◌∷◌, Str, codes, str_eq,
  to_ascii_lowercase, starts_with, ◌>>=◌, if◌then◌else◌,
}
use gabrielbrowser.Base.Text.{trim, trim_start_matches, split, split_once, has_byte, is_empty}
use gabrielbrowser.Base.Int.{ℤ, pos, clamp_zero, ◌+ℤ◌, ◌*ℤ◌, wrap_i64, as_i64, parse_i64}
use gabrielbrowser.Session.{Cookie, domain_matches, default_path}
use gabrielbrowser.Session.Date.{parse_http_date}

-- The variables of the loop over the attributes.
pub record Draft : Type 0 where
  pub cookie : Cookie
  pub max_age : Option ℤ

-- the key and the value of one attribute
abbrev pub split_attr : Str → Str × Str
split_attr attr = elim (split_once b'=' attr) [
  | some (k, v) ↦ (to_ascii_lowercase (trim k), trim v)
  | none ↦ (to_ascii_lowercase (trim attr), [])
]

-- The arm of `domain`: `none` is the early return.
unfoldable pub domain_attr : Str → Draft → Str → Option Draft
domain_attr request_host d val =
    let claimed = to_ascii_lowercase (trim_start_matches b'.' val) in
    if is_empty claimed
      || (not (has_byte b'.' claimed) || not (domain_matches request_host claimed))
    then none
    else some (record d { cookie = record d.cookie { domain = claimed; host_only = false } })

-- The other arms, none of which returns.
unfoldable pub plain_attr : Draft → Str → Str → Draft
plain_attr d key val =
    if str_eq key (codes "path")
    then (if starts_with val (codes "/")
        then record d { cookie = record d.cookie { path = val } }
        else d)
    else if str_eq key (codes "secure")
    then record d { cookie = record d.cookie { secure = true } }
    else if str_eq key (codes "httponly")
    then record d { cookie = record d.cookie { http_only = true } }
    else if str_eq key (codes "max-age")
    then record d { max_age = parse_i64 val }
    else if str_eq key (codes "expires")
    then record d { cookie = record d.cookie { expires_ms = parse_http_date val } }
    else d

unfoldable pub attr_step : Str → Draft → Str → Option Draft
attr_step request_host d attr =
    let (key, val) = split_attr attr in
    if str_eq key (codes "domain")
    then domain_attr request_host d val
    else some (plain_attr d key val)

unfoldable pub attrs : Str → Draft → List Str → Option Draft
attrs request_host d [] = some d
attrs request_host d (attr ∷ rest) = do
  next ← attr_step request_host d attr
  attrs request_host next rest

-- `(now_ms() as i64 + seconds * 1000).max(0) as u64`
unfoldable pub max_age_expiry : ℕ → ℤ → ℕ
max_age_expiry now seconds = clamp_zero (wrap_i64 (as_i64 now +ℤ wrap_i64 (seconds *ℤ pos 1000)))

-- `Max-Age` wins over `Expires`.
unfoldable pub settle : ℕ → Draft → Cookie
settle now d = elim d.max_age [
  | none ↦ d.cookie
  | some seconds ↦ record d.cookie { expires_ms = some (max_age_expiry now seconds) }
]

-- The cookie before its attributes are read.
unfoldable pub first_draft : Str → Str → Str → Str → Draft
first_draft name value request_host request_path = record {
  cookie = record {
    name = name;
    value = trim value;
    domain = request_host;
    path = default_path request_path;
    host_only = true;
    secure = false;
    http_only = false;
    expires_ms = none;
  };
  max_age = none;
}

abbrev pub origin_host : Str → Str
origin_host request_host = to_ascii_lowercase (trim request_host)

-- `header.split(';')`, with its first part taken off
abbrev pub parts : Str → Option (Str × List Str)
parts header = elim (split b';' header) [ [] ↦ none | first ∷ rest ↦ some (first, rest) ]

unfoldable pub parse : ℕ → Str → Str → Str → Option Cookie
parse now header request_host request_path = do
  (first, rest) ← parts header
  (name, value) ← split_once b'=' first
  let name = trim name
  if is_empty name then none else (do
    d ←
        attrs (origin_host request_host)
          (first_draft name value (origin_host request_host) request_path) rest
    some (settle now d))
