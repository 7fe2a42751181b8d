-- ===== src/Cli/Tests.antt =====
-- A command for a small request, and the instance of the theorem, crates/gabriel-cli/src/codegen.rs.
use gabrielbrowser.Base.{eq_ignore_ascii_case, true, false, some, [], ◌∷◌, ◌++◌, codes, ◌≡◌, refl}
use gabrielbrowser.Base.Text.{join, replace, trim}
use gabrielbrowser.Vars.Redact.{Redactor, apply, header_for_display}
use gabrielbrowser.Engine.{SentRequest}
use gabrielbrowser.Cli.Curl.{to_curl}
use gabrielbrowser.Cli.Curl.Shell.{words, between}
use gabrielbrowser.Cli.Curl.Words.{words-to_curl, method_args, header_args, body_args}

abbrev request : SentRequest
request = record {
  method = codes "POST";
  url = codes "https://a/?q=it's";
  headers = (codes "X-Tag", codes "a b") ∷ [];
  body = some (codes "{}");
}

abbrev redactor : Redactor
redactor = record { secrets = [] }

words-to_curl_example :
    words between (to_curl (λ s. s) request redactor true false)
    ≡ some (
        codes "curl"
        ∷ (method_args (λ s. s) (codes "POST")
            ++ (apply redactor request.url
                ∷ (header_args redactor false request.headers ++ body_args redactor request.body))))
words-to_curl_example =
    words-to_curl (λ s. s) request redactor true false (refl, (refl, (refl, (refl, (refl, tt)))))

to_curl_test :
    to_curl (λ s. s) request redactor false false
    ≡ codes "curl -X POST 'https://a/?q=it'\\''s' -H 'X-Tag: a b' --data-raw '{}'"
unfolding to_curl join eq_ignore_ascii_case replace apply header_for_display trim
to_curl_test = refl
