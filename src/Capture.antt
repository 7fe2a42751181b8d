-- ===== src/Capture.antt =====
-- Captured traffic, crates/gabriel-core/src/capture.rs.
pub mod Url
pub mod Promote
mod Tests
use gabrielbrowser.Base.{
  ℕ, ◌*◌, ◌/◌, ◌==◌, Bool, Option, none, some, List, [], ◌∷◌, Str, codes, if◌then◌else◌, length,
  ◌||◌, ◌≡◌, refl, str_eq, Bool-cases, match_option, some_inj, sym, ◌∙◌, arith, inl, inr,
}
use gabrielbrowser.Base.Text.{is_empty, split_once_str}
use gabrielbrowser.Base.Utf8.{from_utf8, from_utf8_lossy}
use gabrielbrowser.Model.Fields.{FieldMap}

pub data CapturedBody : Type 0 where
  text : Str → CapturedBody
  base64 : Str → CapturedBody

pub record CapturedRequest : Type 0 where
  pub method : Str
  pub url : Str
  pub http_version : Str
  pub headers : FieldMap
  pub body : Option CapturedBody

pub record CapturedResponse : Type 0 where
  pub status : ℕ
  pub status_text : Str
  pub headers : FieldMap
  pub body : Option CapturedBody

pub record Capture : Type 0 where
  pub id : Str
  pub at : ℕ
  pub duration_ms : ℕ
  pub session : Option Str
  pub page : Option Str
  pub request : CapturedRequest
  pub response : Option CapturedResponse

-- The encoding of the `base64` crate, which the source calls.
module _ (b64_encode : Str → Str) (b64_decode : Str → Option Str) where
  unfoldable pub from_bytes : Str → Option CapturedBody
  unfolding from_utf8
  from_bytes bs =
      if is_empty bs
      then none
      else some (elim (from_utf8 bs) [ some t ↦ text t | none ↦ base64 (b64_encode bs) ])

  unfoldable pub body_bytes : CapturedBody → Str
  body_bytes (text t) = t
  body_bytes (base64 d) = elim (b64_decode d) [ some bs ↦ bs | none ↦ [] ]

  -- A body is kept as it came: its bytes are read back, as text or through base64, if the encoding
  -- is decoded to what it encoded.
  body_bytes-from_bytes :
      ((bs : Str) → b64_decode (b64_encode bs) ≡ some bs)
      → (bs : Str) → elim (from_bytes bs) [ none ↦ [] | some b ↦ body_bytes b ] ≡ bs
  unfolding from_bytes body_bytes from_utf8
  body_bytes-from_bytes back [] = refl
  body_bytes-from_bytes back (c ∷ bs) =
      elim (Bool-cases (str_eq (from_utf8_lossy (c ∷ bs)) (c ∷ bs))) [
        | inl e ↦ rw e refl
        | inr e ↦ rw e (
            match_option (λ (x : Str). x ≡ c ∷ bs) (b64_decode (b64_encode (c ∷ bs)))
              (λ h. ground (arith, back (c ∷ bs))) (λ t h. some_inj (sym h ∙ back (c ∷ bs))))
      ]

abbrev pub as_text : CapturedBody → Option Str
as_text (text t) = some t
as_text (base64 d) = none

abbrev pub body_len : CapturedBody → ℕ
body_len (text t) = length t
body_len (base64 d) = length d / 4 * 3

abbrev pub status : Capture → Option ℕ
status c = elim c.response [ none ↦ none | some r ↦ some r.status ]

-- `split(['/', '?', '#']).next()`
abbrev pub to_delimiter : Str → Str
to_delimiter [] = []
to_delimiter (c ∷ s) =
    let rest = to_delimiter s in if c == b'/' || (c == b'?' || c == b'#') then [] else c ∷ rest

unfoldable pub host : Capture → Str
host c = elim (split_once_str (codes "://") c.request.url) [
  | some (scheme, r) ↦ to_delimiter r
  | none ↦ to_delimiter c.request.url
]
