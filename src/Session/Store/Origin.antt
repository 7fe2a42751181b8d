-- ===== src/Session/Store/Origin.antt =====
-- Where the cookies that a request carries come from: a cookie of one site is not sent to another.
use mathlib.Core.List.{Memᴰ}
use gabrielbrowser.Base.{
  ℕ, ◌≡◌, refl, ◌⊎◌, inl, inr, Bool, true, false, not, ◌&&◌, some, List, [], ◌∷◌, ◌++◌, Str, str_eq,
  str_eq_iff, to_ascii_lowercase, filter, All, All-append, All-filter, All-map, All-filter_with,
  if◌then◌else◌, arith, Bool-cases, Option-cases, length, subst,
}
use gabrielbrowser.Base.Text.{has_byte}
use gabrielbrowser.Base.Map.{lookup, lookup-remove}
use gabrielbrowser.Base.Sort.{All-stable_sort, longest_first}
use gabrielbrowser.Session.{Cookie, is_expired, matches, domain_matches, same_identity}
use gabrielbrowser.Session.Parse.{parse, origin_host}
use gabrielbrowser.Session.Scope.{IsWithin, domain_matches_iff, IsBelow, path_matches_iff}
use gabrielbrowser.Session.Home.{IsHome, parse-IsHome}
use gabrielbrowser.Session.Store.{
  SessionStore, new, jar, put, record_cookie, record_set_cookies, clear, prune, matching,
}
use gabrielbrowser.Session.Store.Jar.{jar-record_cookie, IsUnique, put-IsUnique, filter-IsUnique}
use gabrielbrowser.Session.Store.Prune.{jar-prune}

-- A response whose `Set-Cookie` headers are recorded.
pub record Response : Type 0 where
  pub now : ℕ
  pub session : Str
  pub headers : List Str
  pub host : Str
  pub path : Str

abbrev pub absorb : SessionStore → Response → SessionStore
absorb s r = (record_set_cookies r.now s r.session r.headers r.host r.path).0

-- The stores that responses, prunings and clearings lead to, with the responses so far.
pub data History : List Response → SessionStore → Type 0 where
  start : History [] new
  response :
      {rs : List Response} {s : SessionStore} (r : Response)
      → History rs s
      → History (r ∷ rs) (absorb s r)
  pruned :
      {rs : List Response} {s : SessionStore} (now : ℕ) → History rs s → History rs (prune now s).0
  cleared :
      {rs : List Response} {s : SessionStore} (session : Str)
      → History rs s
      → History rs (clear s session).0

-- A response of the history set the cookie in this session: one of its headers reads as the cookie.
pub record IsSetBy (rs : List Response) (session : Str) (c : Cookie) : Type 0 where
  pub by : Response
  pub listed : Memᴰ by rs
  pub same_session : by.session ≡ session
  pub header : Str
  pub sent : Memᴰ header by.headers
  pub parsed : parse by.now header by.host by.path ≡ some c

abbrev AllSet : List Response → SessionStore → Type 0
AllSet rs s = (session : Str) → All (IsSetBy rs session) (jar s session)

put-All :
    (P : Cookie → Type 0) (now : ℕ) (j : List Cookie) (c : Cookie)
    → All P j
    → P c
    → All P (put now j c)
unfolding put
put-All P now j c h p =
    let kept = All-filter P (λ existing. not (same_identity existing c)) j h in
    go (is_expired now c) kept (All-append P _ (c ∷ []) kept (p, tt))
  where
    go :
        (b : Bool)
        → All P (filter (λ existing. not (same_identity existing c)) j)
        → All P (filter (λ existing. not (same_identity existing c)) j ++ c ∷ [])
        → All P (
            if not b
            then filter (λ existing. not (same_identity existing c)) j ++ c ∷ []
            else filter (λ existing. not (same_identity existing c)) j)
    go true k f = k
    go false k f = f

-- Every member of a list is one.
All-members : (headers : List Str) → All (λ header. Memᴰ header headers) headers
All-members [] = tt
All-members (header ∷ headers) = (
  Memᴰ.head refl,
  All-map (λ h. Memᴰ h headers) (λ h. Memᴰ h (header ∷ headers)) headers (λ h. Memᴰ.tail)
      (All-members headers),
)

record_cookie-AllSet :
    (rs : List Response) (now : ℕ) (s : SessionStore) (session : Str) (c : Cookie)
    → AllSet rs s
    → IsSetBy rs session c
    → AllSet rs (record_cookie now s session c)
record_cookie-AllSet rs now s session c h p other =
    rw jar-record_cookie (elim (Bool-cases (str_eq session other)) [
      | inl same ↦ rw same (
          subst (λ (k : Str). All (IsSetBy rs k) (put now (jar s session) c))
            ((str_eq_iff session other).0 same)
            (put-All (IsSetBy rs session) now (jar s session) c (h session) p))
      | inr differs ↦ rw differs (h other)
    ])

record_set_cookies-AllSet :
    (rs : List Response) (r : Response) (s : SessionStore) (headers : List Str)
    → Memᴰ r rs
    → All (λ header. Memᴰ header r.headers) headers
    → AllSet rs s
    → AllSet rs (record_set_cookies r.now s r.session headers r.host r.path).0
unfolding record_set_cookies
record_set_cookies-AllSet rs r s [] m among h = h
record_set_cookies-AllSet rs r s (header ∷ headers) m (first, among) h =
    elim (Option-cases (parse r.now header r.host r.path)) [
      | inl refused ↦
          rw (refused, record_set_cookies) (record_set_cookies-AllSet rs r s headers m among h)
      | inr (c, parsed) ↦
          rw (parsed, record_set_cookies)
            (record_set_cookies-AllSet rs r (record_cookie r.now s r.session c) headers m among (
              record_cookie-AllSet rs r.now s r.session c h (record {
                by = r;
                listed = m;
                same_session = refl;
                header = header;
                sent = first;
                parsed = parsed;
              })))
    ]

more :
    (rs : List Response) (r : Response) (session : Str) (c : Cookie)
    → IsSetBy rs session c
    → IsSetBy (r ∷ rs) session c
more rs r session c h = record {
  by = h.by;
  listed = Memᴰ.tail h.listed;
  same_session = h.same_session;
  header = h.header;
  sent = h.sent;
  parsed = h.parsed;
}

pub jar-clear :
    (s : SessionStore) (session other : Str)
    → jar (clear s session).0 other ≡ (if str_eq session other then [] else jar s other)
unfolding clear jar
jar-clear s session other = ground (arith, lookup-remove session other s.sessions)

History-AllSet : {rs : List Response} {s : SessionStore} → History rs s → AllSet rs s
History-AllSet start session = unfold jar lookup in tt
History-AllSet (response {rs} {s} r h) session =
    record_set_cookies-AllSet (r ∷ rs) r s r.headers (Memᴰ.head refl) (All-members r.headers)
      (λ k.
        All-map (IsSetBy rs k) (IsSetBy (r ∷ rs) k) (jar s k) (more rs r k) (History-AllSet h k))
      session
History-AllSet (pruned {rs} {s} now h) session = rw jar-prune (
    All-filter (IsSetBy rs session) (λ c. not (is_expired now c)) (jar s session)
      (History-AllSet h session))
History-AllSet (cleared {rs} {s} gone h) session =
    rw jar-clear (elim (Bool-cases (str_eq gone session)) [
      | inl same ↦ rw same tt
      | inr differs ↦ rw differs (History-AllSet h session)
    ])

record_cookie-IsUnique :
    (now : ℕ) (s : SessionStore) (session : Str) (c : Cookie)
    → ((k : Str) → IsUnique (jar s k))
    → (k : Str) → IsUnique (jar (record_cookie now s session c) k)
record_cookie-IsUnique now s session c h k =
    rw jar-record_cookie (elim (Bool-cases (str_eq session k)) [
      | inl same ↦ rw same (put-IsUnique now (jar s session) c (h session))
      | inr differs ↦ rw differs (h k)
    ])

record_set_cookies-IsUnique :
    (r : Response) (s : SessionStore) (headers : List Str)
    → ((k : Str) → IsUnique (jar s k))
    → (k : Str) → IsUnique (jar (record_set_cookies r.now s r.session headers r.host r.path).0 k)
unfolding record_set_cookies
record_set_cookies-IsUnique r s [] h = h
record_set_cookies-IsUnique r s (header ∷ headers) h =
    elim (Option-cases (parse r.now header r.host r.path)) [
      | inl refused ↦ rw (refused, record_set_cookies) (record_set_cookies-IsUnique r s headers h)
      | inr (c, parsed) ↦
          rw (parsed, record_set_cookies)
            (record_set_cookies-IsUnique r (record_cookie r.now s r.session c) headers
              (record_cookie-IsUnique r.now s r.session c h))
    ]

-- Whatever responses are recorded, with prunings and clearings between them, no jar ever holds two
-- cookies with the same name, domain and path.
pub History-IsUnique :
    {rs : List Response} {s : SessionStore}
    → History rs s
    → (session : Str) → IsUnique (jar s session)
History-IsUnique start session = unfold jar lookup in tt
History-IsUnique (response {s} r h) session =
    record_set_cookies-IsUnique r s r.headers (History-IsUnique h) session
History-IsUnique (pruned {s} now h) session =
    rw jar-prune
      (filter-IsUnique (λ c. not (is_expired now c)) (jar s session) (History-IsUnique h session))
History-IsUnique (cleared {s} gone h) session =
    rw jar-clear (elim (Bool-cases (str_eq gone session)) [
      | inl same ↦ rw same tt
      | inr differs ↦ rw differs (History-IsUnique h session)
    ])

-- Two hosts that may share a cookie: the same host, or two hosts within the cookie's domain, which
-- has a dot in it and so is no bare top-level name.
abbrev pub MayShare : Str → Str → Cookie → Type 0
MayShare setter receiver c =
    (receiver ≡ setter)
    ⊎ ((has_byte b'.' c.domain ≡ true) × IsWithin setter c.domain × IsWithin receiver c.domain)

-- What holds of a cookie that is sent.
pub record IsAllowed (rs : List Response) (now : ℕ) (session host path : Str) (is_secure : Bool)
    (c : Cookie) : Type 0 where
  pub set_by : IsSetBy rs session c
  pub shared : MayShare (origin_host set_by.by.host) (to_ascii_lowercase host) c
  pub on_path : IsBelow path c.path
  pub kept_secure : c.secure ≡ true → is_secure ≡ true
  pub alive : is_expired now c ≡ false

host_matches :
    (c : Cookie) (host : Str)
    → (if c.host_only
        then str_eq (to_ascii_lowercase host) c.domain
        else domain_matches (to_ascii_lowercase host) c.domain)
      ≡ true
    → (setter : Str) → IsHome setter c
    → MayShare setter (to_ascii_lowercase host) c
host_matches c host h setter home =
    let receiver = to_ascii_lowercase host in
    ground (arith, home.own, str_eq_iff receiver c.domain, domain_matches_iff receiver c.domain)

matches-IsAllowed :
    (rs : List Response) (now : ℕ) (session host path : Str) (is_secure : Bool) (c : Cookie)
    → IsSetBy rs session c
    → (not (is_expired now c) && matches c host path is_secure) ≡ true
    → IsAllowed rs now session host path is_secure c
unfolding matches
matches-IsAllowed rs now session host path is_secure c by h = record {
  set_by = by;
  shared =
      host_matches c host (ground arith) (origin_host by.by.host)
        (parse-IsHome by.by.now by.header by.by.host by.by.path c by.parsed);
  on_path = (path_matches_iff path c.path).0 (ground arith);
  kept_secure = ground arith;
  alive = ground arith;
}

-- Every cookie that a request carries was set, in the session that the request uses, by a header of
-- a response of the history, read as it stands, whose host is the request's host or shares the cookie's dotted domain with it. Its
-- path covers the request's path, it is not sent in the clear if it is secure, and it has not expired.
pub matching-IsAllowed :
    {rs : List Response} {s : SessionStore}
    → History rs s
    → (now : ℕ) (session host path : Str) (is_secure : Bool)
    → All
        (IsAllowed rs now session host path is_secure)
        (matching now s session host path is_secure)
unfolding matching
matching-IsAllowed {rs} {s} h now session host path is_secure =
    let allowed = IsAllowed rs now session host path is_secure in
    let p : Cookie → Bool = λ c. not (is_expired now c) && matches c host path is_secure in
    All-stable_sort (longest_first (λ (c : Cookie). length c.path)) allowed
      (filter p (jar s session))
      (All-filter_with (IsSetBy rs session) allowed p (jar s session)
        (λ c by e. matches-IsAllowed rs now session host path is_secure c by e)
        (History-AllSet h session))
