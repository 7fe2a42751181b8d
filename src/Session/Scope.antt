-- ===== src/Session/Scope.antt =====
-- To which hosts and paths a cookie goes back: the rules of RFC 6265, against their descriptions as
-- equations between texts. crates/gabriel-engine/src/session.rs.
use gabrielbrowser.Base.{
  ℕ, ◌-◌, ◌<◌, ◌≡◌, refl, sym, ap, ◌∙◌, ◌↔◌, ◌⊎◌, inl, inr, true, [], ◌∷◌, ◌++◌, append_assoc, Str,
  str_eq, str_eq_iff, starts_with, starts_with_iff, ends_with, ends_with_iff, length, length-append,
  get_elem?, get_elem?-append, last_split, ◌==◌, ==_iff, Bool-cases, arith,
}
use gabrielbrowser.Session.{byte_is, domain_matches, path_matches}

-- `host` is `domain`, or a name below it.
abbrev pub IsWithin : Str → Str → Type 0
IsWithin host domain = (host ≡ domain) ⊎ ((sub : Str) × (host ≡ sub ++ b'.' ∷ domain))

-- The byte before a suffix.
dot_before :
    (q domain : Str) (c : ℕ)
    → byte_is (get_elem? (q ++ c ∷ domain) (length (q ++ c ∷ domain) - length domain - 1)) b'.'
      ≡ (c == b'.')
dot_before q domain c =
    let at : length (q ++ c ∷ domain) - length domain - 1 ≡ length q =
      omega (arith, length-append q (c ∷ domain)) in
    rw (at, get_elem?-append q c domain)

suffix_split :
    (host domain : Str)
    → ends_with host domain ≡ true
    → length domain < length host
    → (q : Str) × (c : ℕ) × (host ≡ q ++ c ∷ domain)
suffix_split host domain ends longer =
    let (r, e) = (ends_with_iff host domain).0 ends in
    let (q, c, e') = last_split r (omega (arith, length-append r domain, ap length e)) in
    (q, c, e ∙ ap (λ (l : Str). l ++ domain) e' ∙ append_assoc q (c ∷ []) domain)

dot_of :
    (host domain q : Str) (c : ℕ)
    → host ≡ q ++ c ∷ domain
    → byte_is (get_elem? host (length host - length domain - 1)) b'.' ≡ true
    → host ≡ q ++ b'.' ∷ domain
dot_of host domain q c e h =
    let dot : (c == b'.') ≡ true = sym (dot_before q domain c) ∙ (rw e at h) in
    rw (← (==_iff c b'.').0 dot) e

domain_matches_sound :
    (host domain : Str) → domain_matches host domain ≡ true → IsWithin host domain
unfolding domain_matches
domain_matches_sound host domain h = elim (Bool-cases (str_eq host domain)) [
  | inl same ↦ inl ((str_eq_iff host domain).0 same)
  | inr other ↦
      let ends : ends_with host domain ≡ true = ground arith in
      let longer : length domain < length host = ground arith in
      let (q, c, e) = suffix_split host domain ends longer in
      inr (q, dot_of host domain q c e (ground arith))
]

domain_matches_complete :
    (host domain : Str) → IsWithin host domain → domain_matches host domain ≡ true
unfolding domain_matches
domain_matches_complete host domain (inl e) = rw ((str_eq_iff host domain).1 e)
domain_matches_complete host domain (inr (sub, e)) = ground (
  arith,
  (ends_with_iff host domain).1 (sub ++ b'.' ∷ [], e ∙ sym (append_assoc sub (b'.' ∷ []) domain)),
  ap (λ (l : Str). byte_is (get_elem? l (length l - length domain - 1)) b'.') e,
  dot_before sub domain b'.',
  length-append sub (b'.' ∷ domain),
  ap length e,
)

-- A host matches a domain exactly when it is the domain or ends in a dot and the domain: a name
-- that merely ends in the same letters does not match.
pub domain_matches_iff :
    (host domain : Str) → (domain_matches host domain ≡ true) ↔ IsWithin host domain
domain_matches_iff host domain =
    (domain_matches_sound host domain, domain_matches_complete host domain)

-- The request path is the cookie's path, or continues it after a slash.
abbrev pub IsBelow : Str → Str → Type 0
IsBelow request_path cookie_path =
    (request_path ≡ cookie_path)
    ⊎ ((rest : Str) × (request_path ≡ cookie_path ++ rest)
        × (((dir : Str) × (cookie_path ≡ dir ++ b'/' ∷ []))
            ⊎ ((more : Str) × (rest ≡ b'/' ∷ more))))

-- the byte behind a prefix
byte_after :
    (cookie_path rest : Str)
    → byte_is (get_elem? (cookie_path ++ rest) (length cookie_path)) b'/' ≡ true
    → (more : Str) × (rest ≡ b'/' ∷ more)
byte_after [] [] h = cc
byte_after [] (c ∷ rest) h = (rest, ap (λ x. x ∷ rest) ((==_iff c b'/').0 h))
byte_after (d ∷ cookie_path) rest h = byte_after cookie_path rest h

path_matches_sound : (r c : Str) → path_matches r c ≡ true → IsBelow r c
unfolding path_matches
path_matches_sound r c h = elim (Bool-cases (str_eq r c)) [
  | inl same ↦ inl ((str_eq_iff r c).0 same)
  | inr other ↦
      let starts : starts_with r c ≡ true = ground arith in
      let (rest, e) = (starts_with_iff r c).0 starts in
      elim (Bool-cases (ends_with c (b'/' ∷ []))) [
        | inl slash ↦ inr (rest, e, inl ((ends_with_iff c (b'/' ∷ [])).0 slash))
        | inr plain ↦
            let behind : byte_is (get_elem? r (length c)) b'/' ≡ true = ground arith in
            inr (rest, e, inr (byte_after c rest (rw e at behind)))
      ]
]

path_matches_complete : (r c : Str) → IsBelow r c → path_matches r c ≡ true
unfolding path_matches
path_matches_complete r c (inl e) = rw ((str_eq_iff r c).1 e)
path_matches_complete r c (inr (rest, e, inl (dir, e'))) =
    ground (arith, (starts_with_iff r c).1 (rest, e), (ends_with_iff c (b'/' ∷ [])).1 (dir, e'))
path_matches_complete r c (inr (rest, e, inr (more, e'))) =
    let behind : byte_is (get_elem? r (length c)) b'/' ≡ true =
      rw (e, e', get_elem?-append c b'/' more) refl in
    ground (arith, (starts_with_iff r c).1 (rest, e))

-- A request path matches a cookie's path exactly when it is that path, or continues it and the
-- boundary is a slash, at the end of the cookie's path or right after it.
pub path_matches_iff : (r c : Str) → (path_matches r c ≡ true) ↔ IsBelow r c
path_matches_iff r c = (path_matches_sound r c, path_matches_complete r c)
