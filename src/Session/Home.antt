-- ===== src/Session/Home.antt =====
-- What `Cookie::parse` of crates/gabriel-engine/src/session.rs lets an origin set.
use gabrielbrowser.Base.{
  ℕ, zero, suc, ◌≡◌, refl, ◌⊎◌, inl, inr, Bool, true, false, Option, none, some, List, [], ◌∷◌, Str,
  codes, str_eq, starts_with, strip_prefix, take, ◌>>=◌, >>=-eq-some, if◌then◌else◌, arith, subst,
  some_inj, Bool-cases, to_ascii_lowercase,
}
use gabrielbrowser.Base.Text.{has_byte, is_empty, trim, trim_start_matches, split_once, rfind}
use gabrielbrowser.Session.{Cookie, default_path}
use gabrielbrowser.Session.Parse.{
  Draft, domain_attr, plain_attr, attr_step, split_attr, attrs, settle, first_draft, origin_host,
  parts, parse,
}
use gabrielbrowser.Session.Scope.{IsWithin, domain_matches_iff}

-- The cookie belongs to the host itself and goes back to it alone, or to a domain with a dot in it
-- that the host is within.
abbrev pub IsOwn : Str → Cookie → Type 0
IsOwn host c =
    ((c.host_only ≡ true) × (c.domain ≡ host))
    ⊎ ((c.host_only ≡ false) × (has_byte b'.' c.domain ≡ true) × IsWithin host c.domain)

abbrev root : Str
root = codes "/"

pub record IsHome (host : Str) (c : Cookie) : Type 0 where
  pub own : IsOwn host c
  pub rooted : starts_with c.path root ≡ true

-- The attributes keep it so.
domain_attr-IsHome :
    (host : Str) (d e : Draft) (val : Str)
    → IsHome host d.cookie
    → domain_attr host d val ≡ some e
    → IsHome host e.cookie
unfolding domain_attr
domain_attr-IsHome host d e val h eq =
    let claimed = to_ascii_lowercase (trim_start_matches b'.' val) in
    ground (arith, (domain_matches_iff host claimed).0, h.own, h.rooted)

plain_attr-IsHome :
    (host : Str) (d : Draft) (key val : Str)
    → IsHome host d.cookie
    → IsHome host (plain_attr d key val).cookie
unfolding plain_attr
plain_attr-IsHome host d key val h = ground (arith, h.own, h.rooted)

attr_step-IsHome :
    (host : Str) (d e : Draft) (attr : Str)
    → IsHome host d.cookie
    → attr_step host d attr ≡ some e
    → IsHome host e.cookie
unfolding attr_step
attr_step-IsHome host d e attr h eq =
    let (key, val) = split_attr attr in
    elim (Bool-cases (str_eq key (codes "domain"))) [
      | inl claims ↦ domain_attr-IsHome host d e val h (rw claims at eq)
      | inr other ↦
          let same : plain_attr d key val ≡ e = some_inj (rw other at eq) in
          subst (λ (x : Draft). IsHome host x.cookie) same (plain_attr-IsHome host d key val h)
    ]

attrs-IsHome :
    (host : Str) (d e : Draft) (rest : List Str)
    → IsHome host d.cookie
    → attrs host d rest ≡ some e
    → IsHome host e.cookie
unfolding attrs
attrs-IsHome host d e [] h eq = subst (λ (x : Draft). IsHome host x.cookie) (some_inj eq) h
attrs-IsHome host d e (attr ∷ rest) h eq =
    let (d', stepped, later) = >>=-eq-some (attr_step host d attr) _ eq in
    attrs-IsHome host d' e rest (attr_step-IsHome host d d' attr h stepped) later

-- A default path is a path from the root.
prefix_rooted :
    (n : ℕ) (s : Str) → starts_with s root ≡ true → starts_with (take (suc n) s) root ≡ true
unfolding starts_with strip_prefix
prefix_rooted n [] h = cc
prefix_rooted n (c ∷ s) h = ground arith

default_path-rooted : (path : Str) → starts_with (default_path path) root ≡ true
unfolding default_path
default_path-rooted path = elim (Bool-cases (starts_with path root)) [
  | inl rooted ↦ rw rooted (at_last (rfind b'/' path) rooted)
  | inr other ↦ rw other (unfold starts_with strip_prefix in refl)
]
  where
    at_last :
        (o : Option ℕ)
        → starts_with path root ≡ true
        → starts_with
            (elim o [ none ↦ root | some zero ↦ root | some (suc index) ↦ take (suc index) path ])
            root
          ≡ true
    at_last none h = unfold starts_with strip_prefix in refl
    at_last (some zero) h = unfold starts_with strip_prefix in refl
    at_last (some (suc i)) h = prefix_rooted i path h

first_draft-IsHome :
    (name value host path : Str) → IsHome host (first_draft name value host path).cookie
unfolding first_draft
first_draft-IsHome name value host path = record {
  own = inl (refl, refl);
  rooted = default_path-rooted path;
}

settle-IsHome :
    (now : ℕ) (host : Str) (d : Draft) → IsHome host d.cookie → IsHome host (settle now d)
unfolding settle
settle-IsHome now host d h = ground (arith, h.own, h.rooted)

-- Whatever the header says, a cookie that `parse` accepts belongs to the host that set it: it goes
-- back to that host alone, or to a domain that holds a dot and that the host is within. Its path
-- begins with a slash.
pub parse-IsHome :
    (now : ℕ) (header host path : Str) (c : Cookie)
    → parse now header host path ≡ some c
    → IsHome (origin_host host) c
unfolding parse
parse-IsHome now header host path c eq =
    let ((first, rest), _, eq) = >>=-eq-some (parts header) _ eq in
    let ((name, value), _, eq) = >>=-eq-some (split_once b'=' first) _ eq in
    go name value rest (is_empty (trim name)) eq
  where
    go :
        (name value : Str) (rest : List Str) (b : Bool)
        → (if b then none else (do
          d ← attrs (origin_host host) (first_draft (trim name) value (origin_host host) path) rest
          some (settle now d)))
          ≡ some c
        → IsHome (origin_host host) c
    go name value rest true e = cc
    go name value rest false e =
        let (d, done, e) = >>=-eq-some (attrs (origin_host host) _ rest) _ e in
        subst (IsHome (origin_host host)) (some_inj e) (
          settle-IsHome now (origin_host host) d (
            attrs-IsHome (origin_host host) _ d rest
              (first_draft-IsHome (trim name) value (origin_host host) path) done))
