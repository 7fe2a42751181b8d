-- ===== src/Vars/Redact.antt =====
-- Masking what is shown, crates/gabriel-core/src/vars.rs.
use gabrielbrowser.Base.{
  Bool, false, ◌||◌, List, [], ◌∷◌, ◌++◌, Str, codes, str_eq, if◌then◌else◌, length, filter, leb,
  to_ascii_lowercase,
}
use gabrielbrowser.Base.Text.{contains, replace, trim, is_empty}

-- "••••redacted••••"
abbrev pub bullets : Str
bullets = 0xe2 ∷ 0x80 ∷ 0xa2 ∷ 0xe2 ∷ 0x80 ∷ 0xa2 ∷ 0xe2 ∷ 0x80 ∷ 0xa2 ∷ 0xe2 ∷ 0x80 ∷ 0xa2 ∷ []

abbrev pub mask : Str
mask = bullets ++ (codes "redacted" ++ bullets)

pub record Redactor : Type 0 where
  pub secrets : List Str

unfoldable pub new_redactor : List Str → Redactor
new_redactor secrets = record { secrets = filter (λ s. leb 4 (length s)) secrets }

abbrev pub is_empty_redactor : Redactor → Bool
is_empty_redactor r = is_empty r.secrets

unfoldable pub apply_secrets : List Str → Str → Str
apply_secrets [] out = out
apply_secrets (secret ∷ secrets) out =
    apply_secrets secrets (if contains out secret then replace out secret mask else out)

unfoldable pub apply : Redactor → Str → Str
unfolding apply_secrets
apply r text = apply_secrets r.secrets text

abbrev pub credential_names : List Str
credential_names =
    codes "authorization"
    ∷ codes "proxy-authorization"
    ∷ codes "cookie"
    ∷ codes "set-cookie"
    ∷ codes "x-api-key"
    ∷ codes "api-key"
    ∷ codes "x-auth-token"
    ∷ codes "x-access-token"
    ∷ codes "x-csrf-token"
    ∷ codes "authentication"
    ∷ []

-- `names.contains(&name)`
abbrev pub is_name_in : List Str → Str → Bool
is_name_in [] name = false
is_name_in (n ∷ names) name = str_eq n name || is_name_in names name

unfoldable pub is_credential_header : Str → Bool
is_credential_header name = is_name_in credential_names (to_ascii_lowercase (trim name))

unfoldable pub header_for_display : Str → Str → Redactor → Bool → Str
unfolding is_credential_header apply
header_for_display name value redactor show =
    if show then value else if is_credential_header name then mask else apply redactor value
