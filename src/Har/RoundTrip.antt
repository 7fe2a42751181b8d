-- ===== src/Har/RoundTrip.antt =====
-- What of a capture its HAR entry gives back, crates/gabriel-core/src/har.rs.
use gabrielbrowser.Base.{
  ℕ, Bool, false, not, Option, none, some, List, [], ◌∷◌, Str, codes, map, if◌then◌else◌,
  starts_with, str_eq, ◌≡◌, refl, ap, ◌∙◌, All,
}
use gabrielbrowser.Base.Text.{is_empty}
use gabrielbrowser.Base.Utf8.{from_utf8_lossy}
use gabrielbrowser.Capture.{
  Capture, CapturedRequest, CapturedResponse, CapturedBody, text, base64, body_bytes,
}
use gabrielbrowser.Model.Fields.{FieldMap, from_pairs, insert, iter_pairs}
use gabrielbrowser.Model.Fields.Laws.{values_of, valued, values_of-from_pairs}
use gabrielbrowser.Har.{HarOps}
use gabrielbrowser.Har.Export.{
  response_of, name_value, name_values, normalise_http_version, content_of, post_data_of,
  entry_from_capture,
}
use gabrielbrowser.Har.Import.{
  import_headers, body_from_post_data, body_from_content, capture_at, captured_response,
}

-- A header that HTTP/1 has.
abbrev pub IsHeader : Str × Str → Type 0
IsHeader (name, value) = starts_with name (codes ":") ≡ false

import_headers-names :
    (m : FieldMap) (pairs : List (Str × Str))
    → All IsHeader pairs
    → import_headers m (map name_value pairs) ≡ from_pairs m pairs
unfolding import_headers from_pairs
import_headers-names m [] h = refl
import_headers-names m ((k, v) ∷ pairs) (first, h) =
    ap
      (λ (b : Bool).
        if b
        then import_headers m (map name_value pairs)
        else import_headers (insert k v m) (map name_value pairs))
      first
    ∙ import_headers-names (insert k v m) pairs h

-- The values of every header, in their order.
abbrev pub HasHeaders : FieldMap → FieldMap → Type 0
HasHeaders headers m = (key : Str) → values_of key m ≡ valued key (iter_pairs headers)

names-HasHeaders :
    (headers : FieldMap)
    → All IsHeader (iter_pairs headers)
    → HasHeaders headers (import_headers [] (name_values headers))
unfolding name_values
names-HasHeaders headers h key =
    ap (values_of key) (import_headers-names [] (iter_pairs headers) h)
    ∙ values_of-from_pairs key (iter_pairs headers)

-- A body as a HAR can hold it: an empty one is none.
abbrev pub stored : Option CapturedBody → Option CapturedBody
stored none = none
stored (some (text t)) = if is_empty t then none else some (text t)
stored (some (base64 d)) = if is_empty d then none else some (base64 d)

module _ {F J : Type 0} (ops : HarOps F J) (to_uppercase : Str → Str) where
  body_from_content-content :
      (headers : FieldMap) (body : Option CapturedBody)
      → body_from_content (content_of ops headers body) ≡ stored body
  unfolding body_from_content str_eq
  body_from_content-content headers none = refl
  body_from_content-content headers (some (text t)) = refl
  body_from_content-content headers (some (base64 d)) = refl

  -- The bytes of a request's body as text.
  abbrev pub request_text : Option CapturedBody → Option CapturedBody
  request_text none = none
  request_text (some body) =
      stored (some (text (from_utf8_lossy (body_bytes (λ s. s) ops.b64_decode body))))

  body_from_post_data-post :
      (headers : FieldMap) (body : Option CapturedBody)
      → body_from_post_data (post_data_of ops headers body) ≡ request_text body
  body_from_post_data-post headers none = refl
  body_from_post_data-post headers (some body) =
      by_text (from_utf8_lossy (body_bytes (λ s. s) ops.b64_decode body))
    where
      by_text :
          (t : Str) → (if not (is_empty t) then some (text t) else none) ≡ stored (some (text t))
      by_text [] = refl
      by_text (c ∷ t) = refl

  abbrev pub IsCopiedRequest : CapturedRequest → CapturedRequest → Type 0
  IsCopiedRequest r s =
      (s.method ≡ to_uppercase r.method)
      × (s.url ≡ r.url)
      × (s.http_version ≡ normalise_http_version r.http_version)
      × HasHeaders r.headers s.headers
      × (s.body ≡ request_text r.body)

  abbrev pub IsCopiedResponse : Option CapturedResponse → Option CapturedResponse → Type 0
  IsCopiedResponse none s = s ≡ none
  IsCopiedResponse (some r) none = ⊥
  IsCopiedResponse (some r) (some s) =
      (s.status ≡ r.status)
      × (s.status_text ≡ r.status_text)
      × HasHeaders r.headers s.headers
      × (s.body ≡ stored r.body)

  abbrev pub HasHeaderNames : Option CapturedResponse → Type 0
  HasHeaderNames none = Unit
  HasHeaderNames (some r) = All IsHeader (iter_pairs r.headers)

  response_copied :
      (version : Str) (r : Option CapturedResponse)
      → HasHeaderNames r
      → IsCopiedResponse r (captured_response ops to_uppercase (response_of ops version r))
  response_copied version none h = refl
  response_copied version (some r) h =
      (refl, refl, names-HasHeaders r.headers h, body_from_content-content r.headers r.body)

  -- The entry of a capture, read as a capture again, has its session and page, and a copy of the
  -- request and of the response: the method in upper case, the URL, the version where there is one,
  -- the status, every value of every header in order, a request's body as text and a response's body
  -- as it is, unless they are empty. No header is a pseudo-header of HTTP/2.
  pub capture_at-entry_from_capture :
      (c : Capture) (id : Str) (at : ℕ)
      → All IsHeader (iter_pairs c.request.headers)
      → HasHeaderNames c.response
      → let copy = capture_at ops to_uppercase (entry_from_capture ops c) id at in
        (copy.session ≡ c.session)
        × (copy.page ≡ c.page)
        × IsCopiedRequest c.request copy.request
        × IsCopiedResponse c.response copy.response
  unfolding entry_from_capture
  capture_at-entry_from_capture c id at h k = (
    refl,
    refl,
    (
      refl,
      refl,
      refl,
      names-HasHeaders c.request.headers h,
      body_from_post_data-post c.request.headers c.request.body,
    ),
    response_copied c.request.http_version c.response k,
  )
