-- ===== src/Cli/Curl.antt =====
-- A request as a `curl` command, crates/gabriel-cli/src/codegen.rs.
pub mod Shell
pub mod Joined
pub mod Words
use gabrielbrowser.Base.{
  Bool, true, false, not, Option, none, some, List, [], ◌∷◌, ◌++◌, Str, codes, str_eq,
  if◌then◌else◌, eq_ignore_ascii_case, to_ascii_lowercase,
}
use gabrielbrowser.Base.Text.{is_empty, replace, join}
use gabrielbrowser.Engine.{SentRequest}
use gabrielbrowser.Vars.Redact.{Redactor, apply, header_for_display}

-- CURL_MANAGED
abbrev pub is_managed : Str → Bool
is_managed name = if str_eq (codes "content-length") name then true else str_eq (codes "host") name

-- `value.replace('\'', r"'\''")` between quotes
unfoldable pub quote : Str → Str
quote value = b'\'' ∷ (replace value (codes "'") (codes "'\\''") ++ b'\'' ∷ [])

abbrev pub method_part : (to_uppercase : Str → Str) → Str → List Str
method_part to_uppercase method =
    if not (eq_ignore_ascii_case method (codes "GET"))
    then (codes "-X " ++ to_uppercase method) ∷ []
    else []

-- `{name}: {value}`, as it is displayed
abbrev pub header_text : Redactor → Bool → Str × Str → Str
header_text redactor shown (name, value) =
    name ++ (codes ": " ++ header_for_display name value redactor shown)

unfoldable pub header_parts : Redactor → Bool → List (Str × Str) → List Str
unfolding quote
header_parts redactor shown [] = []
header_parts redactor shown (header ∷ headers) =
    let rest = header_parts redactor shown headers in
    if is_managed (to_ascii_lowercase header.0)
    then rest
    else (codes "-H " ++ quote (header_text redactor shown header)) ∷ rest

unfoldable pub body_part : Redactor → Option Str → List Str
unfolding quote
body_part redactor none = []
body_part redactor (some body) =
    if not (is_empty body) then (codes "--data-raw " ++ quote (apply redactor body)) ∷ [] else []

abbrev pub joiner : Bool → Str
joiner multiline = if multiline then codes " \\\n  " else codes " "

-- `to_uppercase` is that of Unicode.
unfoldable pub to_curl : (to_uppercase : Str → Str) → SentRequest → Redactor → Bool → Bool → Str
unfolding header_parts body_part
to_curl to_uppercase request redactor multiline shown = join (joiner multiline) (
    codes "curl"
    ∷ (method_part to_uppercase request.method
        ++ (quote (apply redactor request.url)
            ∷ (header_parts redactor shown request.headers ++ body_part redactor request.body))))
