-- ===== src/Har/Import.antt =====
-- A HAR as captures, crates/gabriel-core/src/har.rs.
use gabrielbrowser.Base.{
  ℕ, zero, suc, ◌+◌, ◌-◌, ◌/◌, ◌%◌, ◌^◌, min, Bool, false, not, ◌||◌, ◌&&◌, Option, none, some,
  List, [], ◌∷◌, ◌++◌, Str, codes, map, if◌then◌else◌, ◌==◌, ltb, length, str_eq, starts_with,
  ◌>>=◌,
}
use gabrielbrowser.Base.Text.{join, is_empty}
use gabrielbrowser.Capture.{Capture, CapturedRequest, CapturedResponse, CapturedBody, text, base64}
use gabrielbrowser.Civil.Text.{parse_iso8601}
use gabrielbrowser.Model.Fields
use gabrielbrowser.Model.Fields.{FieldMap}
use gabrielbrowser.Har.{NameValue, PostData, Content, Request, Response, Entry, Har, HarOps}

-- the loop over the headers: pseudo-headers of HTTP/2 are left out
unfoldable pub import_headers : FieldMap → List NameValue → FieldMap
import_headers m [] = m
import_headers m (header ∷ headers) =
    if starts_with header.name (codes ":")
    then import_headers m headers
    else import_headers (Fields.insert header.name header.value m) headers

abbrev pub param_text : NameValue → Str
param_text p = p.name ++ b'=' ∷ p.value

abbrev pub from_params : List NameValue → Option CapturedBody
from_params [] = none
from_params (p ∷ params) = some (text (join (codes "&") (map param_text (p ∷ params))))

abbrev pub body_from_post_data : Option PostData → Option CapturedBody
body_from_post_data none = none
body_from_post_data (some data') = elim data'.text [
  | none ↦ from_params data'.params
  | some t ↦ if not (is_empty t) then some (text t) else from_params data'.params
]

abbrev pub is_base64 : Option Str → Bool
is_base64 none = false
is_base64 (some encoding) = str_eq encoding (codes "base64")

unfoldable pub body_from_content : Content → Option CapturedBody
body_from_content content = elim content.text [
  | none ↦ none
  | some t ↦
      if is_empty t
      then none
      else if is_base64 content.encoding
      then some (base64 t)
      else some (text t)
]

-- `at`, or what stands for it; `none` is a panic of `parse_iso8601`.
abbrev pub started_at : Str → ℕ → Option ℕ
started_at started fallback = elim (parse_iso8601 started) [
  | none ↦ none
  | some at ↦ some (elim at [ none ↦ fallback | some ms ↦ ms ])
]

module _ {F J : Type 0} (ops : HarOps F J) (to_uppercase : Str → Str) where
  abbrev pub captured_response : Option Response → Option CapturedResponse
  captured_response none = none
  captured_response (some r) = some (record {
    status = r.status;
    status_text = r.status_text;
    headers = import_headers [] r.headers;
    body = body_from_content r.content;
  })

  abbrev pub captured_request : Request → CapturedRequest
  captured_request r = record {
    method = to_uppercase r.method;
    url = r.url;
    http_version = r.http_version;
    headers = import_headers [] r.headers;
    body = body_from_post_data r.post_data;
  }

  abbrev pub capture_at : Entry F J → Str → ℕ → Capture
  capture_at entry id at = record {
    id = id;
    at = at;
    duration_ms = elim (ops.is_measured entry.time) [ none ↦ 0 | some ms ↦ ms ];
    session = entry.gabriel_session;
    page = entry.gabriel_page;
    request = captured_request entry.request;
    response = captured_response entry.response;
  }

  -- The outer `none` is a panic.
  unfoldable pub capture_from_entry : Entry F J → Str → ℕ → Option (Option Capture)
  unfolding import_headers body_from_content parse_iso8601
  capture_from_entry entry id fallback =
      if is_empty entry.request.url || is_empty entry.request.method then some none else (do
        at ← started_at entry.started_date_time fallback
        some (some (capture_at entry id at)))

  abbrev pub hex_digit_of : ℕ → ℕ
  hex_digit_of d = if ltb d 10 then b'0' + d else b'a' + (d - 10)

  -- `{index:04x}`: at least four digits, and a round for each further one
  unfoldable pub hex_before : (rounds n : ℕ) → Str → Str
  hex_before zero n s = s
  hex_before (suc rounds) n s =
      let rest = hex_before rounds (n / 16) (hex_digit_of (n % 16) ∷ s) in
      if n == 0 && not (ltb (length s) 4) then s else rest

  abbrev pub entry_id : Str → ℕ → Str
  entry_id prefix index = prefix ++ hex_before (index + 4) index []

  abbrev pub imported : Option Capture → List Capture × ℕ → List Capture × ℕ
  imported none (captures, skipped) = (captures, suc skipped)
  imported (some c) (captures, skipped) = (c ∷ captures, skipped)

  -- the loop of `import`; the time that stands for a missing one saturates
  unfoldable pub import_from : Str → ℕ → ℕ → List (Entry F J) → Option (List Capture × ℕ)
  unfolding capture_from_entry hex_before
  import_from prefix base index [] = some ([], 0)
  import_from prefix base index (entry ∷ entries) = do
    c ← capture_from_entry entry (entry_id prefix index) (min (base + index) (2 ^ 64 - 1))
    rest ← import_from prefix base (suc index) entries
    some (imported c rest)

  abbrev pub import_har : Har F J → Str → ℕ → Option (List Capture × ℕ)
  import_har har id_prefix now = import_from id_prefix now 0 har.log.entries
