-- ===== src/Json/Response.antt =====
-- The result of sending a request, crates/gabriel-core/src/response.rs.
use gabrielbrowser.Base.{
  ℕ, Bool, false, ◌&&◌, ◌||◌, Option, none, some, Str, codes, length, leb, ltb,
}
use gabrielbrowser.Base.Text.{contains}
use gabrielbrowser.Base.Utf8.{from_utf8_lossy}
use gabrielbrowser.Model.Fields.{FieldMap, get_first}
use gabrielbrowser.Json.{Json, JsonOps}

pub record Timings : Type 0 where
  pub ttfb_ms : ℕ
  pub total_ms : ℕ

pub record ExecutedResponse : Type 0 where
  pub status : ℕ
  pub status_text : Str
  pub http_version : Str
  pub headers : FieldMap
  pub body : Str
  pub timings : Timings
  pub final_url : Str

unfoldable pub text : ExecutedResponse → Str
unfolding from_utf8_lossy
text r = from_utf8_lossy (r.body)

unfoldable pub json : {N F : Type 0} → JsonOps N F → ExecutedResponse → Option (Json N)
json ops r = ops.from_slice (r.body)

unfoldable pub content_type : ExecutedResponse → Option Str
unfolding get_first
content_type r = get_first (codes "content-type") (r.headers)

abbrev pub names_json : Option Str → Bool
names_json none = false
names_json (some ct) = contains ct (codes "json") || contains ct (codes "+json")

unfoldable pub is_json : ExecutedResponse → Bool
unfolding content_type
is_json r = names_json (content_type r)

unfoldable pub is_success : ExecutedResponse → Bool
is_success r = leb 200 (r.status) && ltb (r.status) 300

unfoldable pub size : ExecutedResponse → ℕ
size r = length (r.body)
