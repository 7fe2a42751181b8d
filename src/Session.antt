-- ===== src/Session.antt =====
-- Cookies and their scope, crates/gabriel-engine/src/session.rs. `gabriel_core::now_ms()` is the
-- argument `now`.
pub mod Date
pub mod Parse
pub mod Scope
pub mod Home
pub mod Expiry
pub mod Store
mod Tests
use gabrielbrowser.Base.{
  ℕ, zero, suc, ◌-◌, ◌+◌, Bool, true, false, not, ◌&&◌, ◌||◌, Option, none, some, List, [], ◌∷◌,
  Str, codes, str_eq, to_ascii_lowercase, starts_with, ends_with, length, get_elem?, take, ltb, leb,
  ◌==◌, if◌then◌else◌,
}
use gabrielbrowser.Base.Text.{rfind}

pub record Cookie : Type 0 where
  pub name : Str
  pub value : Str
  pub domain : Str
  pub path : Str
  pub host_only : Bool
  pub secure : Bool
  pub http_only : Bool
  pub expires_ms : Option ℕ

-- `bytes[i] == c`; every use has `i` in range
abbrev byte_is : Option ℕ → ℕ → Bool
byte_is none c = false
byte_is (some d) c = d == c

unfoldable pub domain_matches : Str → Str → Bool
domain_matches host domain =
    if str_eq host domain
    then true
    else ltb (length domain) (length host)
      && (ends_with host domain && byte_is (get_elem? host (length host - length domain - 1)) b'.')

unfoldable pub path_matches : Str → Str → Bool
path_matches request_path cookie_path =
    if str_eq request_path cookie_path
    then true
    else if not (starts_with request_path cookie_path)
    then false
    else ends_with cookie_path (b'/' ∷ [])
      || byte_is (get_elem? request_path (length cookie_path)) b'/'

unfoldable pub default_path : Str → Str
default_path request_path =
    if not (starts_with request_path (b'/' ∷ []))
    then codes "/"
    else elim (rfind b'/' request_path) [
      | none ↦ codes "/"
      | some zero ↦ codes "/"
      | some (suc index) ↦ take (suc index) request_path
    ]

-- `Cookie::is_expired`
unfoldable pub is_expired : ℕ → Cookie → Bool
is_expired now_ms c = elim c.expires_ms [ none ↦ false | some expiry ↦ leb expiry now_ms ]

-- `Cookie::matches`
unfoldable pub matches : Cookie → Str → Str → Bool → Bool
matches c host path is_secure =
    if c.secure && not is_secure
    then false
    else let h = to_ascii_lowercase host in
      (if c.host_only then str_eq h c.domain else domain_matches h c.domain)
      && path_matches path c.path

-- `Cookie::identity`, compared
unfoldable pub same_identity : Cookie → Cookie → Bool
same_identity a b = str_eq a.name b.name && (str_eq a.domain b.domain && str_eq a.path b.path)
