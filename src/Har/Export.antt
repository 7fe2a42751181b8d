-- ===== src/Har/Export.antt =====
-- Captures as a HAR, crates/gabriel-core/src/har.rs.
use gabrielbrowser.Base.{
  ℕ, ◌-◌, Bool, not, ◌&&◌, Option, none, some, List, [], ◌∷◌, ◌++◌, Str, codes, map, filter,
  if◌then◌else◌, length, to_ascii_lowercase, eq_ignore_ascii_case,
}
use gabrielbrowser.Base.Decimal.{decimal}
use gabrielbrowser.Base.Int.{ℤ, pos, negsuc, as_i64}
use gabrielbrowser.Base.Map.{str_lt}
use gabrielbrowser.Base.Sort.{stable_sort}
use gabrielbrowser.Base.Text.{split, split_once, trim, is_empty}
use gabrielbrowser.Base.Utf8.{from_utf8_lossy}
use gabrielbrowser.Capture.{
  Capture, CapturedRequest, CapturedResponse, CapturedBody, text, base64, body_bytes, body_len,
}
use gabrielbrowser.Capture.Promote.{is_listed}
use gabrielbrowser.Capture.Url.{key_value}
use gabrielbrowser.Civil.Text.{format_iso8601}
use gabrielbrowser.Model.Fields.{FieldMap, iter_pairs, get_first}
use gabrielbrowser.Har.{
  NameValue, Cookie, PostData, Content, Request, Response, Entry, Har, HarOps, har_version,
  unknown_http_version,
}

abbrev pub name_value : Str × Str → NameValue
name_value (name, value) = record { name = name; value = value }

unfoldable pub name_values : FieldMap → List NameValue
unfolding iter_pairs
name_values headers = map name_value (iter_pairs headers)

abbrev pub first_of : List Str → Str → Str
first_of [] whole = whole
first_of (p ∷ ps) whole = p

-- `split_query` of this file: the pairs of the query, not decoded
unfoldable pub query_pairs : Str → List NameValue
query_pairs url = elim (split_once b'?' url) [
  | none ↦ []
  | some (base, query) ↦
      map (λ pair. name_value (key_value pair))
        (filter (λ p. not (is_empty p)) (split b'&' (first_of (split b'#' query) query)))
]

unfoldable pub normalise_http_version : Str → Str
normalise_http_version version =
    if is_empty (trim version) then unknown_http_version else trim version

abbrev pub attributes : List Str
attributes =
    codes "path"
    ∷ codes "domain"
    ∷ codes "expires"
    ∷ codes "max-age"
    ∷ codes "samesite"
    ∷ codes "secure"
    ∷ codes "httponly"
    ∷ []

-- the cookies among the pairs of one header
unfoldable pub cookies_of : List Str → List Cookie
cookies_of [] = []
cookies_of (pair ∷ pairs) =
    let rest = cookies_of pairs in
    elim (split_once b'=' pair) [
      | none ↦ rest
      | some (name, value) ↦
          if not (is_empty (trim name))
            && not (is_listed attributes (to_ascii_lowercase (trim name)))
          then record { name = trim name; value = trim value } ∷ rest
          else rest
    ]

unfoldable pub cookies_among : List (Str × Str) → Str → List Cookie
unfolding cookies_of
cookies_among [] header = []
cookies_among ((name, value) ∷ pairs) header =
    let rest = cookies_among pairs header in
    if eq_ignore_ascii_case name header then cookies_of (split b';' value) ++ rest else rest

unfoldable pub cookies_from_header : FieldMap → Str → List Cookie
unfolding cookies_among
cookies_from_header headers header = cookies_among (iter_pairs headers) header

abbrev pub header_or_empty : Str → FieldMap → Str
header_or_empty name headers = elim (get_first name headers) [ none ↦ [] | some v ↦ v ]

-- -1
abbrev pub unknown_size : ℤ
unknown_size = negsuc 0

abbrev pub optional_len : Option CapturedBody → ℤ
optional_len none = pos 0
optional_len (some b) = as_i64 (body_len b)

module _ {F J : Type 0} (ops : HarOps F J) where
  abbrev pub decoded_size : Option Str → ℤ
  decoded_size none = unknown_size
  decoded_size (some b) = as_i64 (length b)

  abbrev pub content_of : FieldMap → Option CapturedBody → Content
  content_of headers (some (text t)) = record {
    size = as_i64 (length t);
    compression = none;
    mime_type = header_or_empty (codes "content-type") headers;
    text = some t;
    encoding = none;
  }
  content_of headers (some (base64 d)) = record {
    size = decoded_size (ops.b64_decode d);
    compression = none;
    mime_type = header_or_empty (codes "content-type") headers;
    text = some d;
    encoding = some (codes "base64");
  }
  content_of headers none = record {
    size = pos 0;
    compression = none;
    mime_type = header_or_empty (codes "content-type") headers;
    text = none;
    encoding = none;
  }

  abbrev pub post_data_of : FieldMap → Option CapturedBody → Option PostData
  post_data_of headers none = none
  post_data_of headers (some body) = some (record {
    mime_type = header_or_empty (codes "content-type") headers;
    text = some (from_utf8_lossy (body_bytes (λ s. s) ops.b64_decode body));
    params = [];
  })

  abbrev pub request_of : CapturedRequest → Request
  request_of r = record {
    method = r.method;
    url = r.url;
    http_version = normalise_http_version r.http_version;
    cookies = cookies_from_header r.headers (codes "cookie");
    headers = name_values r.headers;
    query_string = query_pairs r.url;
    post_data = post_data_of r.headers r.body;
    headers_size = unknown_size;
    body_size = optional_len r.body;
  }

  abbrev pub response_of : Str → Option CapturedResponse → Option Response
  response_of http_version none = none
  response_of http_version (some r) = some (record {
    status = r.status;
    status_text = r.status_text;
    http_version = normalise_http_version http_version;
    cookies = cookies_from_header r.headers (codes "set-cookie");
    headers = name_values r.headers;
    content = content_of r.headers r.body;
    redirect_url = header_or_empty (codes "location") r.headers;
    headers_size = unknown_size;
    body_size = optional_len r.body;
  })

  unfoldable pub entry_from_capture : Capture → Entry F J
  unfolding body_bytes
  entry_from_capture c = record {
    page_ref = none;
    started_date_time = format_iso8601 c.at;
    time = ops.of_ms c.duration_ms;
    request = request_of c.request;
    response = response_of c.request.http_version c.response;
    cache = ops.empty_object;
    timings = record {
      blocked = ops.minus_one;
      dns = ops.minus_one;
      connect = ops.minus_one;
      send = ops.of_ms 0;
      wait = ops.of_ms c.duration_ms;
      receive = ops.of_ms 0;
      ssl = ops.minus_one;
    };
    server_ip_address = none;
    connection = none;
    gabriel_page = c.page;
    gabriel_session = c.session;
  }

  abbrev pub starts_before : Entry F J → Entry F J → Bool
  starts_before y x = str_lt y.started_date_time x.started_date_time

  unfoldable pub build : List Capture → Option Str → Har F J
  unfolding entry_from_capture
  build captures comment = record {
    log = record {
      version = har_version;
      creator = record { name = codes "gabriel"; version = ops.package_version };
      pages = [];
      entries = stable_sort starts_before (map entry_from_capture captures);
      comment = comment;
    };
  }

  abbrev pub export : List Capture → Har F J
  export captures = build captures none

  -- the comment of `export_partial`
  abbrev pub partial_comment : ℕ → ℕ → Str
  partial_comment shown total =
      codes "PARTIAL EXPORT: this file contains the newest "
      ++ (decimal shown
          ++ (codes " of "
              ++ (decimal total
                  ++ (codes " captures. "
                      ++ (decimal (total - shown)
                          ++ codes
                              " were omitted because --limit was given. It is not a complete record.")))))

  abbrev pub export_partial : List Capture → ℕ → Har F J
  export_partial captures total = build captures (some (partial_comment (length captures) total))
