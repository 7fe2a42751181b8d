-- ===== src/Har/Tests.antt =====
-- A capture and its HAR entry, and the instance of the theorem, crates/gabriel-core/src/har.rs.
use gabrielbrowser.Base.{ℕ, zero, suc, Option, none, some, [], ◌∷◌, codes, ◌≡◌, refl, starts_with}
use gabrielbrowser.Capture.{Capture, CapturedRequest, CapturedResponse, text, base64}
use gabrielbrowser.Model.Fields
use gabrielbrowser.Model.Fields.{iter_pairs, values}
use gabrielbrowser.Har.{HarOps}
use gabrielbrowser.Har.Export.{entry_from_capture}
use gabrielbrowser.Har.Import.{capture_at}
use gabrielbrowser.Har.RoundTrip.{IsCopiedRequest, IsCopiedResponse, capture_at-entry_from_capture}

abbrev measured : ℕ → Option ℕ
measured zero = none
measured (suc n) = some (suc n)

-- Floating-point numbers are natural numbers, and base64 is the text itself.
abbrev ops : HarOps ℕ Unit
ops = record {
  of_ms = λ n. n;
  minus_one = 0;
  is_measured = measured;
  empty_object = tt;
  b64_decode = λ s. some s;
  package_version = codes "1";
}

abbrev request : CapturedRequest
request = record {
  method = codes "POST";
  url = codes "https://a/?q=1";
  http_version = codes "HTTP/1.1";
  headers = (codes "Cookie", Fields.one (codes "sid=1")) ∷ [];
  body = some (text (codes "{}"));
}

abbrev response : CapturedResponse
response = record {
  status = 200;
  status_text = codes "OK";
  headers = (codes "Set-Cookie", Fields.many (codes "a=1" ∷ codes "b=2" ∷ [])) ∷ [];
  body = some (base64 (codes "AAAA"));
}

abbrev capture : Capture
capture = record {
  id = codes "c1";
  at = 0;
  duration_ms = 42;
  session = some (codes "s");
  page = none;
  request = request;
  response = some response;
}

capture_at-entry_from_capture_example :
    let copy = capture_at ops (λ s. s) (entry_from_capture ops capture) (codes "i0000") 7 in
    (copy.session ≡ some (codes "s"))
    × (copy.page ≡ none)
    × IsCopiedRequest ops (λ s. s) request copy.request
    × IsCopiedResponse ops (λ s. s) (some response) copy.response
unfolding iter_pairs starts_with
capture_at-entry_from_capture_example =
    capture_at-entry_from_capture ops (λ s. s) capture (codes "i0000") 7 (refl, tt)
      (refl, (refl, tt))
