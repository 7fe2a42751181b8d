-- ===== src/Engine/Form.antt =====
-- The encoding of form fields, `urlencode` of crates/gabriel-engine/src/lib.rs, against the decoding
-- of a captured form, `percent_decode` of crates/gabriel-core/src/capture.rs.
use gabrielbrowser.Base.{
  ℕ, ◌+◌, ◌-◌, ◌*◌, ◌/◌, ◌%◌, ◌<◌, ◌==◌, Bool, true, false, not, ◌&&◌, ◌||◌, Option, none, some, [],
  ◌∷◌, Str, if◌then◌else◌, leb, ltb, ◌>>=◌, ◌≡◌, refl, ap, ◌∙◌, arith, All, match_if,
}
use gabrielbrowser.Base.Utf8.{from_utf8_lossy}
use gabrielbrowser.Capture.Url.{percent_decode, decode_bytes, from_hex, hex_digit, is_boundary}

abbrev pub is_unreserved : ℕ → Bool
is_unreserved c =
    (leb b'A' c && leb c b'Z')
    || ((leb b'a' c && leb c b'z')
        || ((leb b'0' c && leb c b'9') || (c == b'-' || (c == b'_' || (c == b'.' || c == b'~')))))

-- a digit of `{:02X}`
abbrev pub upper_hex : ℕ → ℕ
upper_hex n = if ltb n 10 then b'0' + n else b'A' + (n - 10)

unfoldable pub urlencode : Str → Str
urlencode [] = []
urlencode (c ∷ s) =
    let rest = urlencode s in
    if is_unreserved c
    then c ∷ rest
    else if c == b' '
    then b'+' ∷ rest
    else b'%' ∷ upper_hex (c / 16) ∷ upper_hex (c % 16) ∷ rest

hex_digit-upper_hex : (n : ℕ) → n < 16 → hex_digit (upper_hex n) ≡ some n
hex_digit-upper_hex n h = ground arith

from_hex-digits :
    (a b h l : ℕ)
    → hex_digit a ≡ some h
    → hex_digit b ≡ some l
    → (a == b'+') ≡ false
    → from_hex a b ≡ some (h * 16 + l)
from_hex-digits a b h l ea eb plain =
    ap
      (λ (o : Option ℕ).
        o >>= (λ i. if a == b'+' then some i else (hex_digit a >>= (λ j. some (j * 16 + i)))))
      eb
    ∙ ap (λ (t : Bool). if t then some l else (hex_digit a >>= (λ j. some (j * 16 + l)))) plain
    ∙ ap (λ (o : Option ℕ). o >>= (λ j. some (j * 16 + l))) ea

from_hex-upper_hex : (c : ℕ) → c < 256 → from_hex (upper_hex (c / 16)) (upper_hex (c % 16)) ≡ some c
from_hex-upper_hex c h =
    from_hex-digits (upper_hex (c / 16)) (upper_hex (c % 16)) (c / 16) (c % 16)
      (hex_digit-upper_hex (c / 16) (omega arith)) (hex_digit-upper_hex (c % 16) (omega arith))
      (ground arith)
    ∙ ap (λ (n : ℕ). some n) (omega arith)

decode_bytes-plain :
    (c : ℕ) (s : Str)
    → (c == b'%') ≡ false
    → decode_bytes (c ∷ s)
      ≡ (do rest ← decode_bytes s; some ((if c == b'+' then b' ' else c) ∷ rest))
unfolding decode_bytes
decode_bytes-plain c [] h = refl
decode_bytes-plain c (a ∷ []) h = refl
decode_bytes-plain c (a ∷ b ∷ s) h = rw h refl

decode_bytes-escape :
    (a b : ℕ) (s : Str) (byte : ℕ)
    → a < 0x80
    → is_boundary s ≡ true
    → from_hex a b ≡ some byte
    → decode_bytes (b'%' ∷ a ∷ b ∷ s) ≡ (do rest ← decode_bytes s; some (byte ∷ rest))
unfolding decode_bytes
decode_bytes-escape a b s byte h k e =
    let whole : (not (is_boundary (a ∷ b ∷ s)) || not (is_boundary s)) ≡ false =
      ground (arith, h, k) in
    ap (λ (t : Bool). if t then none else decoded (from_hex a b)) whole ∙ ap decoded e
  where
    decoded : Option ℕ → Option Str
    decoded o = elim o [
      | some byte' ↦ (do rest ← decode_bytes s; some (byte' ∷ rest))
      | none ↦ (do rest ← decode_bytes (a ∷ b ∷ s); some (b'%' ∷ rest))
    ]

urlencode-boundary : (s : Str) → is_boundary (urlencode s) ≡ true
unfolding urlencode
urlencode-boundary [] = refl
urlencode-boundary (c ∷ s) =
    match_if (λ (l : Str). is_boundary l ≡ true) (is_unreserved c) (λ e. ground (arith, e))
      (λ _. match_if (λ (l : Str). is_boundary l ≡ true) (c == b' ') (λ _. refl) (λ _. refl))

decode_bytes-urlencode : (s : Str) → All (λ c. c < 256) s → decode_bytes (urlencode s) ≡ some s
unfolding urlencode
decode_bytes-urlencode [] h = unfold decode_bytes in refl
decode_bytes-urlencode (c ∷ s) (h, hs) =
    let later = decode_bytes-urlencode s hs in
    let with_rest : (byte : ℕ)
        → (do rest ← decode_bytes (urlencode s); some (byte ∷ rest)) ≡ some (byte ∷ s) =
      λ byte. ap (λ (o : Option Str). o >>= (λ rest. some (byte ∷ rest))) later in
    let goal : Str → Type 0 = λ l. decode_bytes l ≡ some (c ∷ s) in
    match_if goal (is_unreserved c)
      (λ e.
        let kept : (if c == b'+' then b' ' else c) ≡ c = ground (arith, e) in
        decode_bytes-plain c (urlencode s) (ground (arith, e))
        ∙ with_rest (if c == b'+' then b' ' else c)
        ∙ ap (λ (n : ℕ). some (n ∷ s)) kept)
      (λ _.
        match_if goal (c == b' ')
          (λ e.
            let space : b' ' ≡ c = ground (arith, e) in
            decode_bytes-plain b'+' (urlencode s) refl
            ∙ with_rest b' '
            ∙ ap (λ (n : ℕ). some (n ∷ s)) space)
          (λ _.
            decode_bytes-escape (upper_hex (c / 16)) (upper_hex (c % 16)) (urlencode s) c
              (ground arith) (urlencode-boundary s) (from_hex-upper_hex c h)
            ∙ with_rest c))

-- A text that is encoded for a form is read back from a captured form as it was.
pub percent_decode-urlencode :
    (s : Str) → All (λ c. c < 256) s → from_utf8_lossy s ≡ s → percent_decode (urlencode s) ≡ some s
unfolding percent_decode
percent_decode-urlencode s h e = rw (decode_bytes-urlencode s h) (ap (λ (t : Str). some t) e)
