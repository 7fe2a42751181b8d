-- ===== src/Capture/Tests.antt =====
-- A capture promoted, crates/gabriel-core/src/capture.rs, and the instances of the theorems.
use gabrielbrowser.Base.{
  Option, none, some, [], ◌∷◌, ◌++◌, codes, str_eq, ◌≡◌, refl, strip_prefix, to_ascii_lowercase,
  All, eq_ignore_ascii_case, lower,
}
use gabrielbrowser.Base.Text.{
  split, split_once, split_once_str, trim, trim_start, trim_end, trim_start_matches,
  trim_end_matches, join, contains,
}
use gabrielbrowser.Base.Map
use gabrielbrowser.Base.Utf8.{from_utf8_lossy}
use gabrielbrowser.Model.Fields
use gabrielbrowser.Capture.{Capture, host}
use gabrielbrowser.Capture.Url.{
  percent_decode, decode_bytes, split_query, query_fields, split_origin, suggest_name,
  suggest_secret_name,
}
use gabrielbrowser.Capture.Promote.{
  Promotion, promote, default_options, header_steps, header_step, authorization_step,
  body_from_capture,
}
use gabrielbrowser.Capture.Promote.Kept.{IsSavable, IsSavableAuth, promote-IsSavable}

abbrev capture : Capture
capture = record {
  id = codes "cap_1";
  at = 0;
  duration_ms = 0;
  session = some (codes "work");
  page = none;
  request = record {
    method = codes "GET";
    url = codes "https://api.test/v1/users?page=2&q=ada%20l";
    http_version = [];
    headers =
        (codes "Accept", Fields.one (codes "*/*"))
        ∷ (codes "Authorization", Fields.one (codes "Bearer abc"))
        ∷ (codes "Cookie", Fields.one (codes "sid=1"))
        ∷ (codes "Host", Fields.one (codes "api.test"))
        ∷ [];
    body = none;
  };
  response = none;
}

abbrev promoted : Option (Promotion (Unit {0}))
promoted = promote (λ s. s) 5 default_options capture

abbrev headers_of : Option (Promotion (Unit {0})) → Fields.FieldMap
headers_of none = []
headers_of (some p) = p.spec.headers

runs : Unit {0}
unfolding promote header_steps header_step authorization_step body_from_capture percent_decode
    decode_bytes split_query query_fields split_origin suggest_name suggest_secret_name str_eq
    strip_prefix to_ascii_lowercase eq_ignore_ascii_case split split_once split_once_str trim
    trim_start trim_end trim_start_matches trim_end_matches join contains from_utf8_lossy lower
    Map.insert Map.lookup Fields.insert Fields.iter_pairs Fields.get_first host
runs =
    let headers : headers_of promoted ≡ (codes "Accept", Fields.one (codes "*/*")) ∷ [] = refl in
    let decoded : percent_decode (codes "ada%20l+x%zz") ≡ some (codes "ada l x%zz") = refl in
    let sliced : percent_decode (codes "%a" ++ 0xc3 ∷ 0xa9 ∷ []) ≡ none = refl in
    let at : host capture ≡ codes "api.test" = refl in tt

the_promotion : (p : Promotion (Unit {0})) × (promoted ≡ some p)
unfolding promote header_steps header_step authorization_step body_from_capture percent_decode
    decode_bytes split_query query_fields split_origin suggest_name suggest_secret_name str_eq
    strip_prefix to_ascii_lowercase eq_ignore_ascii_case split split_once split_once_str trim
    trim_start trim_end trim_start_matches trim_end_matches join contains from_utf8_lossy lower
    Map.insert Map.lookup Fields.insert Fields.iter_pairs Fields.get_first host
the_promotion = (_, refl)

promote-IsSavable_example :
    All
      (IsSavable (suggest_secret_name (codes "https://api.test/v1/users?page=2&q=ada%20l")))
      the_promotion.0.spec.headers
    × IsSavableAuth capture the_promotion.0.spec.auth
promote-IsSavable_example =
    promote-IsSavable (λ s. s) 5 default_options capture the_promotion.0 refl refl the_promotion.1
