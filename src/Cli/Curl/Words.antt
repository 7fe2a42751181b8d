-- ===== src/Cli/Curl/Words.antt =====
-- What a shell makes of a generated `curl` command, crates/gabriel-cli/src/codegen.rs.
use gabrielbrowser.Base.{
  ℕ, Bool, true, false, not, Option, none, some, List, [], ◌∷◌, ◌++◌, Str, codes, if◌then◌else◌,
  eq_ignore_ascii_case, to_ascii_lowercase, ◌≡◌, refl, sym, ap, ◌∙◌, All, append_assoc, append-nil,
  arith, subst,
}
use gabrielbrowser.Base.Text.{is_empty}
use gabrielbrowser.Engine.{SentRequest}
use gabrielbrowser.Vars.Redact.{Redactor, apply}
use gabrielbrowser.Cli.Curl.{
  is_managed, quote, method_part, header_text, header_parts, body_part, to_curl,
}
use gabrielbrowser.Cli.Curl.Shell.{is_literal, between, word, in_word, next, prepend, words}
use gabrielbrowser.Cli.Curl.Joined.{
  prepend-nil, silent, words-quote, Reads, AllRead, words-joiner, words-join, part, done,
}

-- the arguments of the command
abbrev pub method_args : (to_uppercase : Str → Str) → Str → List Str
method_args to_uppercase method =
    if not (eq_ignore_ascii_case method (codes "GET"))
    then codes "-X" ∷ to_uppercase method ∷ []
    else []

abbrev pub header_args : Redactor → Bool → List (Str × Str) → List Str
header_args redactor shown [] = []
header_args redactor shown (header ∷ headers) =
    let rest = header_args redactor shown headers in
    if is_managed (to_ascii_lowercase header.0)
    then rest
    else codes "-H" ∷ header_text redactor shown header ∷ rest

abbrev pub body_args : Redactor → Option Str → List Str
body_args redactor none = []
body_args redactor (some body) =
    if not (is_empty body) then codes "--data-raw" ∷ apply redactor body ∷ [] else []

-- An option is a word of its own.
abbrev Opens : Str → Type 0
Opens option =
    (s : Str) → words between (option ++ b' ' ∷ s) ≡ prepend (option ∷ []) (words between s)

option-Reads :
    (option v : Str) → Opens option → Reads ((option ++ codes " ") ++ quote v) (option ∷ []) v
option-Reads option v opens s =
    ap (words between) (
      append_assoc (option ++ codes " ") (quote v) s
      ∙ append_assoc option (codes " ") (quote v ++ s))
    ∙ (opens (quote v ++ s) ∙ ap (prepend (option ∷ [])) (words-quote v s))

literal_byte : (w : Str) (c : ℕ) → is_literal c ≡ true → in_word w c ≡ some (word (w ++ c ∷ []), [])
literal_byte w c h = ground arith

literal_start : (c : ℕ) → is_literal c ≡ true → next between c ≡ some (word (c ∷ []), [])
literal_start c h = ground arith

words-literal :
    (w p s : Str)
    → All (λ c. is_literal c ≡ true) p
    → words (word w) (p ++ s) ≡ words (word (w ++ p)) s
words-literal w [] s _ = ap (λ (x : Str). words (word x) s) (sym (append-nil w))
words-literal w (c ∷ p) s (h, hs) =
    silent (word w) (word (w ++ c ∷ [])) c (p ++ s) (literal_byte w c h)
    ∙ (words-literal (w ++ c ∷ []) p s hs
        ∙ ap (λ (x : Str). words (word x) s) (append_assoc w (c ∷ []) p))

-- A method that needs no quotes.
abbrev pub IsLiteral : Str → Type 0
IsLiteral p = (is_empty p ≡ false) × All (λ c. is_literal c ≡ true) p

literal-Reads : (p : Str) → IsLiteral p → Reads p [] p
literal-Reads [] (h, _) s = cc
literal-Reads (c ∷ p) (_, (h, hs)) s =
    silent between (word (c ∷ [])) c (p ++ s) (literal_start c h)
    ∙ (words-literal (c ∷ []) p s hs ∙ sym (prepend-nil (words (word (c ∷ p)) s)))

literal-Opens : (option : Str) → IsLiteral option → Opens option
literal-Opens option h s =
    literal-Reads option h (b' ' ∷ s)
    ∙ (prepend-nil (words (word option) (b' ' ∷ s)) ∙ words-joiner false option s)

header-Opens : Opens (codes "-H")
header-Opens = literal-Opens (codes "-H") (refl, (refl, (refl, tt)))

body-Opens : Opens (codes "--data-raw")
body-Opens =
    literal-Opens (codes "--data-raw")
      (refl, (refl, (refl, (refl, (refl, (refl, (refl, (refl, (refl, (refl, (refl, tt)))))))))))

method-Opens : Opens (codes "-X")
method-Opens = literal-Opens (codes "-X") (refl, (refl, (refl, tt)))

curl-Reads : Reads (codes "curl") [] (codes "curl")
curl-Reads = literal-Reads (codes "curl") (refl, (refl, (refl, (refl, (refl, tt)))))

method-Reads : (p : Str) → IsLiteral p → Reads (codes "-X " ++ p) (codes "-X" ∷ []) p
method-Reads p h s =
    method-Opens (p ++ s)
    ∙ ap (prepend (codes "-X" ∷ [])) (literal-Reads p h s ∙ prepend-nil (words (word p) s))

AllRead-append :
    (ps args qs more : List Str)
    → AllRead ps args
    → AllRead qs more
    → AllRead (ps ++ qs) (args ++ more)
AllRead-append [] _ qs more done k = k
AllRead-append (p ∷ ps) _ qs more (part _ ws last _ rest reads h) k =
    subst (AllRead (p ∷ (ps ++ qs))) (sym (append_assoc ws (last ∷ rest) more))
      (part p ws last (ps ++ qs) (rest ++ more) reads (AllRead-append ps rest qs more h k))

method_part-AllRead :
    (to_uppercase : Str → Str) (method : Str)
    → IsLiteral (to_uppercase method)
    → AllRead (method_part to_uppercase method) (method_args to_uppercase method)
method_part-AllRead to_uppercase method h = by_get (not (eq_ignore_ascii_case method (codes "GET")))
  where
    by_get :
        (b : Bool)
        → AllRead
            (if b then (codes "-X " ++ to_uppercase method) ∷ [] else [])
            (if b then codes "-X" ∷ to_uppercase method ∷ [] else [])
    by_get true =
        part (codes "-X " ++ to_uppercase method) (codes "-X" ∷ []) (to_uppercase method) [] []
          (method-Reads (to_uppercase method) h) done
    by_get false = done

header_parts-AllRead :
    (redactor : Redactor) (shown : Bool) (headers : List (Str × Str))
    → AllRead (header_parts redactor shown headers) (header_args redactor shown headers)
unfolding header_parts
header_parts-AllRead redactor shown [] = done
header_parts-AllRead redactor shown (header ∷ headers) =
    by_managed (is_managed (to_ascii_lowercase header.0))
      (header_parts-AllRead redactor shown headers)
  where
    text : Str
    text = header_text redactor shown header

    by_managed :
        (b : Bool)
        → AllRead (header_parts redactor shown headers) (header_args redactor shown headers)
        → AllRead
            (if b
              then header_parts redactor shown headers
              else (codes "-H " ++ quote text) ∷ header_parts redactor shown headers)
            (if b
              then header_args redactor shown headers
              else codes "-H" ∷ text ∷ header_args redactor shown headers)
    by_managed true h = h
    by_managed false h =
        part (codes "-H " ++ quote text) (codes "-H" ∷ []) text
          (header_parts redactor shown headers) (header_args redactor shown headers)
          (option-Reads (codes "-H") text header-Opens) h

body_part-AllRead :
    (redactor : Redactor) (body : Option Str)
    → AllRead (body_part redactor body) (body_args redactor body)
unfolding body_part
body_part-AllRead redactor none = done
body_part-AllRead redactor (some body) = by_empty (not (is_empty body))
  where
    by_empty :
        (b : Bool)
        → AllRead
            (if b then (codes "--data-raw " ++ quote (apply redactor body)) ∷ [] else [])
            (if b then codes "--data-raw" ∷ apply redactor body ∷ [] else [])
    by_empty true =
        part (codes "--data-raw " ++ quote (apply redactor body)) (codes "--data-raw" ∷ [])
          (apply redactor body) [] []
          (option-Reads (codes "--data-raw") (apply redactor body) body-Opens) done
    by_empty false = done

-- A shell reads a generated command, on one line or several, as `curl` and these arguments: the
-- method where it is not GET, the URL, each header that curl does not set itself and the body where
-- there is one, redacted or as displayed, each of them one word whatever its bytes are. The upper-case
-- method is not empty and of bytes that mean themselves to a shell.
pub words-to_curl :
    (to_uppercase : Str → Str) (request : SentRequest) (redactor : Redactor)
    (multiline shown : Bool)
    → IsLiteral (to_uppercase request.method)
    → words between (to_curl to_uppercase request redactor multiline shown)
      ≡ some (
          codes "curl"
          ∷ (method_args to_uppercase request.method
              ++ (apply redactor request.url
                  ∷ (header_args redactor shown request.headers
                      ++ body_args redactor request.body))))
unfolding to_curl
words-to_curl to_uppercase request redactor multiline shown h =
    let url = apply redactor request.url in
    let headers = header_parts redactor shown request.headers in
    let header_words = header_args redactor shown request.headers in
    let body = body_part redactor request.body in
    let body_words = body_args redactor request.body in
    let rest =
      AllRead-append headers header_words body body_words
        (header_parts-AllRead redactor shown request.headers)
        (body_part-AllRead redactor request.body) in
    let url_reads : Reads (quote url) [] url =
      λ s. words-quote url s ∙ sym (prepend-nil (words (word url) s)) in
    let method = method_part to_uppercase request.method in
    let method_words = method_args to_uppercase request.method in
    let whole =
      AllRead-append method method_words (quote url ∷ (headers ++ body))
        (url ∷ (header_words ++ body_words)) (method_part-AllRead to_uppercase request.method h)
        (part (quote url) [] url (headers ++ body) (header_words ++ body_words) url_reads rest) in
    words-join multiline (codes "curl" ∷ (method ++ (quote url ∷ (headers ++ body))))
      (codes "curl" ∷ (method_words ++ (url ∷ (header_words ++ body_words))))
      (part (codes "curl") [] (codes "curl") (method ++ (quote url ∷ (headers ++ body)))
        (method_words ++ (url ∷ (header_words ++ body_words))) curl-Reads whole)
