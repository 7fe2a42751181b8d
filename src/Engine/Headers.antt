-- ===== src/Engine/Headers.antt =====
-- Headers on a redirect, and cookies of two sources, crates/gabriel-engine/src/lib.rs.
pub mod Merge
use gabrielbrowser.Base.{
  ℕ, Bool, true, false, not, ◌&&◌, ◌||◌, Option, none, some, List, [], ◌∷◌, ◌++◌, map, Str, codes,
  str_eq, if◌then◌else◌, filter, any, ◌==◌, to_ascii_lowercase, eq_ignore_ascii_case,
}
use gabrielbrowser.Base.Text.{split_once, split_str, join, trim}
use gabrielbrowser.Engine.{UrlOps}

-- the name of a pair of a `Cookie` header
abbrev pub name_of : Str → Str
name_of pair = elim (split_once b'=' pair) [ none ↦ [] | some (n, v) ↦ trim n ]

abbrev pub is_in : List Str → Str → Bool
is_in [] name = false
is_in (n ∷ names) name = str_eq n name || is_in names name

unfoldable pub merge_pairs : List Str → List Str → List Str
merge_pairs base fresher =
    let overridden = map name_of fresher in
    fresher ++ filter (λ pair. not (is_in overridden (name_of pair))) base

unfoldable pub merge_cookie_headers : Option Str → Option Str → Option Str
unfolding merge_pairs
merge_cookie_headers none none = none
merge_cookie_headers (some only) none = some only
merge_cookie_headers none (some only) = some only
merge_cookie_headers (some base) (some fresher) =
    some (
      join (codes "; ")
        (merge_pairs (split_str (codes "; ") base) (split_str (codes "; ") fresher)))

unfoldable pub is_redirect : ℕ → Bool
is_redirect status =
    status == 301 || (status == 302 || (status == 303 || (status == 307 || status == 308)))

-- `a == b` on optional strings, and on optional ports
unfoldable pub same_host : Option Str → Option Str → Bool
unfolding str_eq
same_host none none = true
same_host (some a) (some b) = str_eq a b
same_host _ _ = false

unfoldable pub same_port : Option ℕ → Option ℕ → Bool
same_port none none = true
same_port (some a) (some b) = a == b
same_port _ _ = false

unfoldable pub same_origin : {Url : Type 0} → UrlOps Url → Url → Url → Bool
unfolding same_host same_port
same_origin ops a b =
    str_eq (ops.scheme a) (ops.scheme b)
    && (same_host (ops.host_str a) (ops.host_str b)
        && same_port (ops.port_or_known_default a) (ops.port_or_known_default b))

abbrev pub sensitive : List Str
sensitive =
    codes "authorization"
    ∷ codes "cookie"
    ∷ codes "proxy-authorization"
    ∷ codes "www-authenticate"
    ∷ []

abbrev pub is_sensitive : Str → Bool
is_sensitive name = is_in sensitive (to_ascii_lowercase name)

unfoldable pub strip_credentials : List (Str × Str) → List (Str × Str)
strip_credentials headers = filter (λ (h : Str × Str). not (is_sensitive h.0)) headers
