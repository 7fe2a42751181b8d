-- ===== src/Capture/Promote/Kept.antt =====
-- Which headers and credentials a promoted request keeps, crates/gabriel-core/src/capture.rs.
use gabrielbrowser.Base.{
  ℕ, >>=-eq-some, true, false, not, ◌&&◌, Option, none, some, List, [], ◌∷◌, Str, codes, str_eq,
  str_eq_iff, ◌≡◌, ◌⊎◌, inl, inr, refl, arith, subst, to_ascii_lowercase, strip_prefix, All,
  All-append, some_inj, match_option, match_if, Bool-cases,
}
use gabrielbrowser.Base.Map
use gabrielbrowser.Base.Map.{Map}
use gabrielbrowser.Model.{Auth, session, bearer}
use gabrielbrowser.Model.Fields
use gabrielbrowser.Model.Fields.{FieldMap, FieldValue, one, many, extended, values, iter_pairs}
use gabrielbrowser.Capture.{Capture}
use gabrielbrowser.Capture.Url.{suggest_secret_name, split_query}
use gabrielbrowser.Capture.Promote.{
  PromoteOptions, Draft, hop_by_hop, is_listed, secret_reference, authorization_step, header_step,
  header_steps, Promotion, promote, promoted_body,
}

-- A header that may be saved: it is not about one hop, it is no cookie, and a value of
-- `Authorization` is a reference to the vault.
abbrev pub IsSavable : Str → Str × FieldValue → Type 0
IsSavable name (key, value) =
    (is_listed hop_by_hop (to_ascii_lowercase key) ≡ false)
    × ((str_eq (to_ascii_lowercase key) (codes "cookie") ≡ false)
        × ((str_eq (to_ascii_lowercase key) (codes "authorization") ≡ true)
            → All (λ v. v ≡ secret_reference name) (values value)))

-- The authentication that may be saved: none, a session's cookies, or a token in the vault.
abbrev pub IsSavableAuth : Capture → Option Auth → Type 0
IsSavableAuth c auth =
    (auth ≡ none)
    ⊎ ((auth ≡ some (session c.session))
        ⊎ (auth ≡ some (bearer (secret_reference (suggest_secret_name c.request.url)))))

All-map_insert :
    (P : Str × FieldValue → Type 0) (k : Str) (v : FieldValue) (m : FieldMap)
    → P (k, v)
    → All P m
    → All P (Map.insert k v m)
unfolding Map.insert
All-map_insert P k v [] p h = (p, tt)
All-map_insert P k v ((j, w) ∷ m) p (q, h) =
    match_if (All P) (str_eq j k) (λ _. (p, h))
      (λ _.
        match_if (All P) (Map.str_lt k j) (λ _. (p, (q, h))) (λ _. (q, All-map_insert P k v m p h)))

All-map_lookup :
    (P : Str × FieldValue → Type 0) (k : Str) (v : FieldValue) (m : FieldMap)
    → All P m
    → Map.lookup k m ≡ some v
    → P (k, v)
unfolding Map.lookup
All-map_lookup P k v [] h e = ground arith
All-map_lookup P k v ((j, w) ∷ m) (q, h) e = elim (Bool-cases (str_eq j k)) [
  | inl f ↦
      let same : j ≡ k = (str_eq_iff j k).0 f in
      let held : w ≡ v = some_inj (ground (arith, e, f)) in
      subst (λ i. P (i, v)) same (subst (λ x. P (j, x)) held q)
  | inr f ↦ All-map_lookup P k v m h (ground (arith, e, f))
]

-- a value more for a key
IsSavable-extended :
    (name key value : Str) (o : Option FieldValue)
    → ((v : FieldValue) → o ≡ some v → IsSavable name (key, v))
    → IsSavable name (key, one value)
    → IsSavable name (key, extended o value)
IsSavable-extended name key value none old new = new
IsSavable-extended name key value (some (one first)) old (a, (b, new)) =
    let (_, (_, before)) = old (one first) refl in (a, (b, λ e. ((before e).0, new e)))
IsSavable-extended name key value (some (many list)) old (a, (b, new)) =
    let (_, (_, before)) = old (many list) refl in
    (a, (b, λ e. All-append _ list (value ∷ []) (before e) (new e)))

insert-IsSavable :
    (name key value : Str) (m : FieldMap)
    → IsSavable name (key, one value)
    → All (IsSavable name) m
    → All (IsSavable name) (Fields.insert key value m)
unfolding Fields.insert
insert-IsSavable name key value m new h =
    All-map_insert (IsSavable name) key (extended (Map.lookup key m) value) m
      (IsSavable-extended name key value (Map.lookup key m)
        (λ v e. All-map_lookup (IsSavable name) key v m h e) new)
      h

module _ (opts : PromoteOptions) (c : Capture) (no_cookies : opts.inline_cookies ≡ false)
    (no_token : opts.inline_token ≡ false) where
  abbrev IsSafeDraft : Draft → Type 0
  IsSafeDraft d =
      All (IsSavable (suggest_secret_name c.request.url)) d.headers × IsSavableAuth c d.auth

  authorization_step-IsSafe :
      (d : Draft) (key value : Str)
      → is_listed hop_by_hop (to_ascii_lowercase key) ≡ false
      → str_eq (to_ascii_lowercase key) (codes "cookie") ≡ false
      → IsSafeDraft d
      → IsSafeDraft (authorization_step opts c d key value)
  unfolding authorization_step
  authorization_step-IsSafe d key value a b (h, k) =
      let name = suggest_secret_name c.request.url in
      match_option IsSafeDraft (strip_prefix value (codes "Bearer "))
        (λ _.
          match_if IsSafeDraft opts.inline_token (λ e. ground arith)
            (λ _. (
              insert-IsSavable name key (secret_reference name) d.headers (a, (b, λ _. (refl, tt)))
                  h,
              k,
            )))
        (λ token _.
          match_if IsSafeDraft opts.inline_token (λ e. ground arith) (λ _. (h, inr (inr refl))))

  header_step-IsSafe :
      (d : Draft) (header : Str × Str) → IsSafeDraft d → IsSafeDraft (header_step opts c d header)
  unfolding header_step
  header_step-IsSafe d (key, value) (h, k) =
      let name = suggest_secret_name c.request.url in
      let lowered = to_ascii_lowercase key in
      match_if IsSafeDraft (is_listed hop_by_hop lowered) (λ _. (h, k))
        (λ a.
          match_if IsSafeDraft (str_eq lowered (codes "cookie") && not opts.inline_cookies)
            (λ _. (h, session_kept d.auth k))
            (λ b.
              let no_cookie : str_eq lowered (codes "cookie") ≡ false =
                ground (arith, b, no_cookies) in
              match_if IsSafeDraft (str_eq lowered (codes "authorization"))
                (λ _. authorization_step-IsSafe d key value a no_cookie (h, k))
                (λ f. (
                  insert-IsSavable name key value d.headers (a, (no_cookie, λ e. ground arith)) h,
                  k,
                ))))
    where
      session_kept :
          (o : Option Auth)
          → IsSavableAuth c o
          → IsSavableAuth c (elim o [ none ↦ some (session c.session) | some x ↦ some x ])
      session_kept none k = inr (inl refl)
      session_kept (some x) k = k

  header_steps-IsSavable :
      (d : Draft) (headers : List (Str × Str))
      → All (IsSavable (suggest_secret_name c.request.url)) d.headers
      → IsSavableAuth c d.auth
      → (let d' = header_steps opts c d headers in
          All (IsSavable (suggest_secret_name c.request.url)) d'.headers × IsSavableAuth c d'.auth)
  unfolding header_steps
  header_steps-IsSavable d [] h k = (h, k)
  header_steps-IsSavable d (header ∷ headers) h k =
      let (h', k') = header_step-IsSafe d header (h, k) in
      header_steps-IsSavable (header_step opts c d header) headers h' k'

-- Promoted without the options that inline credentials, a request has no header that is a cookie or
-- about one hop, each value of its `Authorization` headers is a reference to the vault, and its
-- authentication is none, the session's cookies, or a token in the vault.
pub promote-IsSavable :
    {V : Type 0} (to_uppercase : Str → Str) (now_ms : ℕ) (opts : PromoteOptions) (c : Capture)
    (p : Promotion V)
    → opts.inline_cookies ≡ false
    → opts.inline_token ≡ false
    → promote to_uppercase now_ms opts c ≡ some p
    → All (IsSavable (suggest_secret_name c.request.url)) p.spec.headers
      × IsSavableAuth c p.spec.auth
unfolding promote
promote-IsSavable to_uppercase now_ms opts c p no_cookies no_token h =
    let (base, e, more) = >>=-eq-some (split_query c.request.url) _ h in
    let (body, f, last) = >>=-eq-some (promoted_body c.request.body _) _ more in
    let kept =
      header_steps-IsSavable opts c no_cookies no_token
        (record { headers = []; auth = none; secrets = [] }) (iter_pairs c.request.headers) tt
        (inl refl) in
    subst
      (λ (q : Promotion _).
        All (IsSavable (suggest_secret_name c.request.url)) q.spec.headers
        × IsSavableAuth c q.spec.auth)
      (some_inj last) kept
