-- ===== src/Engine/Redirect/Method.antt =====
-- The method, the body and the plain headers along a redirect chain of
-- crates/gabriel-engine/src/lib.rs.
use gabrielbrowser.Base.{
  ℕ, Bool, true, false, not, ◌&&◌, none, List, [], ◌∷◌, Str, codes, str_eq, str_eq_iff,
  if◌then◌else◌, filter, leb, length, ◌≡◌, ◌⊎◌, inr, refl, sym, subst, ap, ◌∙◌, arith, match_if,
  eq_ignore_ascii_case,
}
use gabrielbrowser.Base.Text.{is_empty}
use gabrielbrowser.Base.Results.{ok}
use gabrielbrowser.Engine.{UrlOps, Network, Raw}
use gabrielbrowser.Engine.Headers.{is_redirect, same_origin, strip_credentials, is_sensitive}
use gabrielbrowser.Engine.Redirect.{
  Plan, Chain, Reaches, here, later, turn, follow, advance, record_answer, set_cookies, becomes_get,
  get_method, wire,
}
use gabrielbrowser.Engine.Redirect.Bounds.{turn-follow, recorded}

-- The headers of exactly one name.
abbrev pub named : Str → List (Str × Str) → List (Str × Str)
named name headers = filter (λ (h : Str × Str). str_eq h.0 name) headers

-- A filter that keeps every header of a name.
named-filter :
    (name : Str) (p : Str → Bool) (headers : List (Str × Str))
    → p name ≡ true
    → named name (filter (λ (h : Str × Str). p h.0) headers) ≡ named name headers
named-filter name p [] h = refl
named-filter name p ((n, v) ∷ headers) h = ground (arith, named-filter name p headers h, same)
  where
    same : str_eq n name ≡ true → p n ≡ p name
    same e = ap p ((str_eq_iff n name).0 e)

module _ {Url : Type 0} (ops : UrlOps Url) (net : Network Url) (plan : Plan) where
  -- One chain carries the headers of this name that another one carries.
  abbrev pub Carries : Str → Chain Url → Chain Url → Type 0
  Carries name a c = named name c.header_list ≡ named name a.header_list

  module _ (name : Str) (open_name : is_sensitive name ≡ false)
      (other : eq_ignore_ascii_case name (codes "content-type") ≡ false) where
    record_answer-Carries :
        (raw : Raw) (a : Chain Url) → Carries name a (recorded ops net plan raw a)
    unfolding record_answer
    record_answer-Carries raw a =
        match_if (Carries name a) (is_empty (set_cookies raw.headers)) (λ _. refl) (λ _. refl)

    advance-Carries :
        (status : ℕ) (next : Url) (a : Chain Url)
        → Carries name a (advance ops net plan status next a)
    unfolding advance strip_credentials
    advance-Carries status next a =
        let kept : (headers : List (Str × Str))
            → named name (
                filter (λ (h : Str × Str). not (eq_ignore_ascii_case h.0 (codes "content-type")))
                  headers)
              ≡ named name headers =
          λ headers.
            named-filter name (λ n. not (eq_ignore_ascii_case n (codes "content-type"))) headers
              (ap not other) in
        let stripped =
          named-filter name (λ n. not (is_sensitive n)) a.header_list (ap not open_name) in
        let either : named name (
              if not (same_origin ops next a.url)
              then strip_credentials a.header_list
              else a.header_list)
            ≡ named name a.header_list =
          match_if (λ (l : List (Str × Str)). named name l ≡ named name a.header_list)
            (not (same_origin ops next a.url)) (λ _. stripped) (λ _. refl) in
        match_if (Carries name a) (becomes_get ops net plan status a.method)
          (λ _.
            kept (
              if not (same_origin ops next a.url)
              then strip_credentials a.header_list
              else a.header_list)
            ∙ either)
          (λ _. either)

    turn-Carries : (a c : Chain Url) → (turn ops net plan a).1 ≡ follow c → Carries name a c
    turn-Carries a c e =
        let f = turn-follow ops net plan a c e in
        subst (Carries name a) (sym f.to) (
          advance-Carries f.raw.status f.next (recorded ops net plan f.raw a)
          ∙ record_answer-Carries f.raw a)

    -- A header that is neither one of the four credentials nor the content type is sent at every
    -- hop, also at another origin: a header that carries an API key follows the redirect.
    pub Reaches-Carries : (a c : Chain Url) → Reaches ops net plan a c → Carries name a c
    Reaches-Carries a c (here _) = refl
    Reaches-Carries a c (later {b = b} r e) = turn-Carries b c e ∙ Reaches-Carries a b r

  -- What a turn makes of the method and the body, by the status of the response.
  abbrev pub IsRewritten : ℕ → Chain Url → Chain Url → Type 0
  IsRewritten status b c =
      (((leb 301 status && leb status 303) ≡ true)
        → (c.method ≡ get_method) × ((b.method ≡ get_method) ⊎ (c.body_bytes ≡ none)))
      × (((leb 301 status && leb status 303) ≡ false)
          → (c.method ≡ b.method) × (c.body_bytes ≡ b.body_bytes))

  advance-IsRewritten :
      (status : ℕ) (next : Url) (b : Chain Url)
      → IsRewritten status b (advance ops net plan status next b)
  unfolding advance
  advance-IsRewritten status next b =
      match_if (IsRewritten status b) (becomes_get ops net plan status b.method)
        (λ yes. ((λ _. (refl, inr refl)), (λ no. ground arith)))
        (λ no. (
          (λ yes. (
            ground (arith, str_eq_iff b.method get_method),
            ground (arith, str_eq_iff b.method get_method),
          )),
          (λ _. (refl, refl)),
        ))

  record_answer-IsRewritten :
      (status : ℕ) (raw : Raw) (b c : Chain Url)
      → IsRewritten status (recorded ops net plan raw b) c
      → IsRewritten status b c
  unfolding record_answer
  record_answer-IsRewritten status raw b c =
      match_if (λ (d : Chain Url). IsRewritten status d c → IsRewritten status b c)
        (is_empty (set_cookies raw.headers)) (λ _ h. h) (λ _ h. h)

  -- A turn that goes on has had an answer from the network, to the request of the hop, with a
  -- redirect's status; after 301, 302 and 303 the request is a GET, without a body unless it was a
  -- GET before; after 307 and 308 method and body are as they were.
  pub turn-IsRewritten :
      (b c : Chain Url)
      → (turn ops net plan b).1 ≡ follow c
      → (raw : Raw) × (net.send (length b.hops) (wire ops net plan b) ≡ ok raw)
        × (is_redirect raw.status ≡ true)
        × IsRewritten raw.status b c
  turn-IsRewritten b c e =
      let f = turn-follow ops net plan b c e in
      let rewritten : IsRewritten f.raw.status (recorded ops net plan f.raw b) c =
        subst (IsRewritten f.raw.status (recorded ops net plan f.raw b)) (sym f.to)
          (advance-IsRewritten f.raw.status f.next (recorded ops net plan f.raw b)) in
      (
        f.raw,
        f.answered,
        ground (arith, f.allowed),
        record_answer-IsRewritten f.raw.status f.raw b c rewritten,
      )
