-- ===== src/Engine/Redirect.antt =====
-- The redirect chain of `Executor::execute`, crates/gabriel-engine/src/lib.rs: the loop that sends
-- a request, records the cookies of the answer and follows it, up to a number of hops.
pub mod Bounds
pub mod Origin
pub mod Method
use gabrielbrowser.Base.{
  ℕ, zero, suc, ◌+◌, Bool, true, false, not, ◌&&◌, Option, none, some, List, [], ◌∷◌, ◌++◌, Str,
  codes, str_eq, if◌then◌else◌, filter, length, ltb, leb, ◌≡◌, eq_ignore_ascii_case,
}
use gabrielbrowser.Base.Text.{is_empty}
use gabrielbrowser.Base.Results.{Result, ok, err}
use gabrielbrowser.Model.{Auth, session}
use gabrielbrowser.Model.Fields
use gabrielbrowser.Model.Fields.{FieldMap, get_first}
use gabrielbrowser.Session.Store.{SessionStore, record_set_cookies, cookie_header, new}
use gabrielbrowser.Engine.{EngineError, transport, bad_url, Hop, UrlOps, Wire, Raw, Network}
use gabrielbrowser.Engine.Headers.{
  merge_cookie_headers, is_redirect, same_origin, strip_credentials,
}

-- CHAIN_SESSION
abbrev pub chain_session : Str
chain_session = 0 ∷ codes "chain"

-- What the loop reads and never changes: of the request and of the context.
pub record Plan : Type 0 where
  pub auth : Option Auth
  pub follow_redirects : Bool
  pub max_redirects : ℕ
  pub session : Str
  pub record_cookies : Bool

-- What the loop changes.
pub record Chain (Url : Type 0) : Type 0 where
  pub url : Url
  pub method : Str
  pub body_bytes : Option Str
  pub header_list : List (Str × Str)
  pub hops : List Hop
  pub chain_jar : SessionStore
  pub sessions : SessionStore

-- The end of a chain: the last response.
pub record Final : Type 0 where
  pub status : ℕ
  pub http_version : Str
  pub headers : FieldMap
  pub bytes : Str
  pub final_url : Str

-- What one turn of the loop comes to.
pub data Turn (Url : Type 0) : Type 0 where
  stop : Result EngineError Final → Turn Url
  follow : Chain Url → Turn Url

abbrev pub binary_value : Str
binary_value = codes "<binary header value>"

abbrev pub text_of : Option Str → Str
text_of none = binary_value
text_of (some v) = v

-- the loop over the headers of a response
unfoldable pub response_headers : FieldMap → List (Str × Option Str) → FieldMap
response_headers m [] = m
response_headers m ((name, value) ∷ rest) =
    response_headers (Fields.insert name (text_of value) m) rest

unfoldable pub set_cookies : List (Str × Option Str) → List Str
set_cookies [] = []
set_cookies ((name, value) ∷ rest) =
    let later = set_cookies rest in
    if eq_ignore_ascii_case name (codes "set-cookie") then text_of value ∷ later else later

-- `method == Method::GET`: a method is case-sensitive
abbrev pub get_method : Str
get_method = codes "GET"

module _ {Url : Type 0} (ops : UrlOps Url) (net : Network Url) (plan : Plan) where
  abbrev pub host_of : Url → Str
  host_of url = elim (ops.host_str url) [ none ↦ [] | some h ↦ h ]

  unfoldable pub hop_cookie : ℕ → SessionStore → SessionStore → Url → Option Str
  hop_cookie now sessions chain_jar url =
      let is_secure = str_eq (ops.scheme url) (codes "https") in
      let from_session : Option Str = elim plan.auth [
        | some (session name) ↦
            cookie_header now sessions (elim name [ none ↦ plan.session | some n ↦ n ])
              (host_of url) (ops.path url) is_secure
        | _ ↦ none
      ] in
      merge_cookie_headers from_session
        (cookie_header now chain_jar chain_session (host_of url) (ops.path url) is_secure)

  -- the request of one hop
  unfoldable pub wire : Chain Url → Wire Url
  unfolding hop_cookie
  wire c = record {
    method = c.method;
    url = c.url;
    headers = elim (hop_cookie (net.now_ms (length c.hops)) c.sessions c.chain_jar c.url) [
      | none ↦ c.header_list
      | some cookie ↦ c.header_list ++ (codes "Cookie", cookie) ∷ []
    ];
    body = c.body_bytes;
  }

  -- recording the cookies of an answer
  unfoldable pub record_answer : List Str → Chain Url → Chain Url
  record_answer cookies c =
      if is_empty cookies
      then c
      else (let now = net.now_ms (length c.hops) in
          record c {
            chain_jar =
                (record_set_cookies now c.chain_jar chain_session cookies (host_of c.url)
                  (ops.path c.url)).0;
            sessions =
                if plan.record_cookies
                then (record_set_cookies now c.sessions plan.session cookies (host_of c.url)
                    (ops.path c.url)).0
                else c.sessions;
          })

  -- `matches!(status, 301..=303) && method != GET`
  abbrev pub becomes_get : ℕ → Str → Bool
  becomes_get status method = (leb 301 status && leb status 303) && not (str_eq method get_method)

  -- the end of the loop's body: the chain that goes on to `next`
  unfoldable pub advance : ℕ → Url → Chain Url → Chain Url
  advance status next c =
      let stripped =
        if not (same_origin ops next c.url)
        then strip_credentials c.header_list
        else c.header_list in
      let hops =
        c.hops
        ++ record { status = status; url = ops.to_string c.url; location = ops.to_string next }
          ∷ [] in
      if becomes_get status c.method
      then record c {
        url = next;
        method = get_method;
        body_bytes = none;
        header_list =
            filter (λ (h : Str × Str). not (eq_ignore_ascii_case h.0 (codes "content-type")))
              stripped;
        hops = hops;
      }
      else record c { url = next; header_list = stripped; hops = hops }

  abbrev pub finish : Raw → FieldMap → Turn Url
  finish raw headers = stop (elim raw.body [
    | err message ↦ err (transport message)
    | ok bytes ↦ ok (record {
      status = raw.status;
      http_version = raw.version;
      headers = headers;
      bytes = bytes;
      final_url = raw.url;
    })
  ])

  -- following to a location, when the response asks for it and the limit allows
  unfoldable pub answer : Raw → Chain Url → Turn Url
  unfolding advance
  answer raw c =
      let headers = response_headers [] raw.headers in
      if is_redirect raw.status && (plan.follow_redirects && ltb (length c.hops) plan.max_redirects)
      then elim (get_first (codes "location") headers) [
        | none ↦ finish raw headers
        | some location ↦ elim (ops.join_url c.url location) [
          | err message ↦ stop (err (bad_url location message))
          | ok next ↦ follow (advance raw.status next c)
        ]
      ]
      else finish raw headers

  -- one turn of the loop, and the sessions it leaves
  unfoldable pub turn : Chain Url → SessionStore × Turn Url
  unfolding wire record_answer answer
  turn c = elim (net.send (length c.hops) (wire c)) [
    | err message ↦ (c.sessions, stop (err (transport message)))
    | ok raw ↦ let c' = record_answer (set_cookies raw.headers) c in (c'.sessions, answer raw c')
  ]

  -- The loop; `none` says that the rounds ran out.
  unfoldable pub run : ℕ → Chain Url → Option (SessionStore × List Hop × Result EngineError Final)
  unfolding turn
  run zero c = none
  run (suc rounds) c =
      let (sessions, t) = turn c in
      elim t [ stop result ↦ some (sessions, c.hops, result) | follow next ↦ run rounds next ]

  abbrev pub first : Url → Str → Option Str → List (Str × Str) → SessionStore → Chain Url
  first url method body headers sessions = record {
    url = url;
    method = method;
    body_bytes = body;
    header_list = headers;
    hops = [];
    chain_jar = new;
    sessions = sessions;
  }

  -- A chain and those that later turns of the loop make of it.
  pub data Reaches : Chain Url → Chain Url → Type 0 where
    here : (c : Chain Url) → Reaches c c
    later : {a b c : Chain Url} → Reaches a b → (turn b).1 ≡ follow c → Reaches a c
