-- ===== src/Engine/Redirect/Origin.antt =====
-- Credentials and other headers along a redirect chain of crates/gabriel-engine/src/lib.rs.
use gabrielbrowser.Base.{
  ℕ, true, false, not, Option, none, some, List, Str, codes, str_eq_iff, str_eq_refl, filter, ◌≡◌,
  ◌⊎◌, inl, inr, refl, sym, subst, arith, match_if, eq_ignore_ascii_case, All, All-filter,
  All-of_filter, Bool-cases,
}
use gabrielbrowser.Base.Text.{is_empty}
use gabrielbrowser.Engine.{UrlOps, Network, Raw}
use gabrielbrowser.Engine.Headers.{
  same_origin, same_host, same_port, strip_credentials, is_sensitive,
}
use gabrielbrowser.Engine.Redirect.{
  Plan, Chain, Reaches, here, later, advance, record_answer, set_cookies, becomes_get,
}
use gabrielbrowser.Engine.Redirect.Bounds.{turn-follow, recorded}

-- No header of the list carries a credential.
abbrev pub IsStripped : List (Str × Str) → Type 0
IsStripped = All (λ (h : Str × Str). is_sensitive h.0 ≡ false)

strip_credentials-IsStripped : (headers : List (Str × Str)) → IsStripped (strip_credentials headers)
unfolding strip_credentials
strip_credentials-IsStripped headers =
    All-of_filter (λ (h : Str × Str). is_sensitive h.0 ≡ false)
      (λ (h : Str × Str). not (is_sensitive h.0)) headers (λ h e. ground arith)

same_host_trans :
    (a b c : Option Str) → same_host a b ≡ true → same_host b c ≡ true → same_host a c ≡ true
unfolding same_host
same_host_trans none none c h k = k
same_host_trans none (some b) c h k = ground arith
same_host_trans (some a) none c h k = ground arith
same_host_trans (some a) (some b) none h k = ground arith
same_host_trans (some a) (some b) (some c) h k =
    ground (arith, str_eq_iff a b, str_eq_iff b c, str_eq_iff a c)

same_port_trans :
    (a b c : Option ℕ) → same_port a b ≡ true → same_port b c ≡ true → same_port a c ≡ true
unfolding same_port
same_port_trans none none c h k = k
same_port_trans none (some b) c h k = ground arith
same_port_trans (some a) none c h k = ground arith
same_port_trans (some a) (some b) none h k = ground arith
same_port_trans (some a) (some b) (some c) h k = ground arith

module _ {Url : Type 0} (ops : UrlOps Url) where
  same_origin_trans :
      (a b c : Url)
      → same_origin ops a b ≡ true
      → same_origin ops b c ≡ true
      → same_origin ops a c ≡ true
  unfolding same_origin
  same_origin_trans a b c h k = ground (
    arith,
    str_eq_iff (ops.scheme a) (ops.scheme b),
    str_eq_iff (ops.scheme b) (ops.scheme c),
    str_eq_iff (ops.scheme a) (ops.scheme c),
    same_host_trans (ops.host_str a) (ops.host_str b) (ops.host_str c),
    same_port_trans (ops.port_or_known_default a) (ops.port_or_known_default b)
        (ops.port_or_known_default c),
  )

  same_host_refl : (a : Option Str) → same_host a a ≡ true
  unfolding same_host
  same_host_refl none = refl
  same_host_refl (some a) = str_eq_refl a

  same_port_refl : (a : Option ℕ) → same_port a a ≡ true
  unfolding same_port
  same_port_refl none = refl
  same_port_refl (some a) = ground arith

  same_origin_refl : (a : Url) → same_origin ops a a ≡ true
  unfolding same_origin
  same_origin_refl a = ground (
    arith,
    str_eq_refl (ops.scheme a),
    same_host_refl (ops.host_str a),
    same_port_refl (ops.port_or_known_default a),
  )

module _ {Url : Type 0} (ops : UrlOps Url) (net : Network Url) (plan : Plan) where
  -- Still at the origin of the first URL, or without credentials.
  abbrev pub IsSafe : Chain Url → Chain Url → Type 0
  IsSafe a c = (same_origin ops c.url a.url ≡ true) ⊎ IsStripped c.header_list

  record_answer-IsSafe :
      (raw : Raw) (a c : Chain Url) → IsSafe a c → IsSafe a (recorded ops net plan raw c)
  unfolding record_answer
  record_answer-IsSafe raw a c h =
      match_if (IsSafe a) (is_empty (set_cookies raw.headers)) (λ _. h) (λ _. h)

  abbrev plain : List (Str × Str) → List (Str × Str)
  plain headers =
      filter (λ (h : Str × Str). not (eq_ignore_ascii_case h.0 (codes "content-type"))) headers

  advance-IsSafe :
      (status : ℕ) (next : Url) (a c : Chain Url)
      → IsSafe a c
      → IsSafe a (advance ops net plan status next c)
  unfolding advance
  advance-IsSafe status next a c h = elim (Bool-cases (same_origin ops next c.url)) [
    | inr e ↦ rw e (
        match_if (IsSafe a) (becomes_get ops net plan status c.method)
          (λ _. inr (
            All-filter _ _ (strip_credentials c.header_list)
              (strip_credentials-IsStripped c.header_list)))
          (λ _. inr (strip_credentials-IsStripped c.header_list)))
    | inl e ↦ rw e (
        match_if (IsSafe a) (becomes_get ops net plan status c.method)
          (λ _. elim h [
            | inl k ↦ inl (same_origin_trans ops next c.url a.url e k)
            | inr k ↦ inr (All-filter _ _ c.header_list k)
          ])
          (λ _. elim h [
            | inl k ↦ inl (same_origin_trans ops next c.url a.url e k)
            | inr k ↦ inr k
          ]))
  ]

  -- At every hop of a chain the URL still has the origin of the first one, or the headers have no
  -- `Authorization`, `Cookie`, `Proxy-Authorization` or `WWW-Authenticate` any more.
  pub Reaches-IsSafe : (a c : Chain Url) → Reaches ops net plan a c → IsSafe a c
  Reaches-IsSafe a c (here _) = inl (same_origin_refl ops a.url)
  Reaches-IsSafe a c (later {b = b} r e) =
      let f = turn-follow ops net plan b c e in
      subst (IsSafe a) (sym f.to) (
        advance-IsSafe f.raw.status f.next a (recorded ops net plan f.raw b)
          (record_answer-IsSafe f.raw a b (Reaches-IsSafe a b r)))
