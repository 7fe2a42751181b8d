-- ===== src/Collection/Slug/Shape.antt =====
-- What `slugify` of crates/gabriel-collection/src/lib.rs gives.
use gabrielbrowser.Base.{
  ℕ, Bool, true, false, not, ◌||◌, ◌&&◌, [], ◌∷◌, ◌++◌, Str, ◌==◌, leb, lower, if◌then◌else◌, ◌≡◌,
  refl, sym, ap, ◌∙◌, ◌⊎◌, inl, inr, arith, reverse, reverse-append, reverse-reverse,
}
use gabrielbrowser.Base.Text.{is_digit, trim_start_matches, trim_end_matches}
use gabrielbrowser.Collection.Slug.{is_ascii_alphanumeric, slug_from, or_request, slugify}

-- a lower-case ASCII letter or a digit
abbrev pub is_slug_byte : ℕ → Bool
is_slug_byte c = (leb b'a' c && leb c b'z') || is_digit c

-- Words of such bytes with one dash between them; `start` says that a word has to begin.
abbrev pub is_slug : Bool → Str → Bool
is_slug start [] = not start
is_slug start (c ∷ s) = elim (is_slug_byte c) [
  | true ↦ is_slug false s
  | false ↦ if start then false else elim (c == b'-') [ true ↦ is_slug true s | false ↦ false ]
]

alnum-is_slug_byte : (c : ℕ) → is_ascii_alphanumeric c ≡ true → is_slug_byte (lower c) ≡ true
unfolding lower
alnum-is_slug_byte c h = ground arith

pub is_slug_byte-alnum : (c : ℕ) → is_slug_byte c ≡ true → is_ascii_alphanumeric c ≡ true
is_slug_byte-alnum c h = ground arith

pub is_slug_byte-lower : (c : ℕ) → is_slug_byte c ≡ true → lower c ≡ c
unfolding lower
is_slug_byte-lower c h = ground arith

dash_not_slug : (c : ℕ) → is_slug_byte c ≡ true → (c == b'-') ≡ false
dash_not_slug c h = ground arith

-- what the loop gives: words, and perhaps a dash behind them
abbrev Loops : Bool → Str → Type 0
Loops start out =
    (is_slug start out ≡ true)
    ⊎ (((t : Str) × (out ≡ t ++ b'-' ∷ []) × (is_slug start t ≡ true))
        ⊎ ((out ≡ []) × (start ≡ true)))

is_slug-cons :
    (start : Bool) (c : ℕ) (s : Str)
    → is_slug_byte c ≡ true
    → is_slug start (c ∷ s) ≡ is_slug false s
is_slug-cons start c s h =
    ap
      (λ (b : Bool). elim b [
        | true ↦ is_slug false s
        | false ↦
            if start then false else elim (c == b'-') [ true ↦ is_slug true s | false ↦ false ]
      ])
      h

Loops-byte :
    (start : Bool) (c : ℕ) (s : Str) → is_slug_byte c ≡ true → Loops false s → Loops start (c ∷ s)
Loops-byte start c s h (inl k) = inl (is_slug-cons start c s h ∙ k)
Loops-byte start c s h (inr (inl (t, e, k))) =
    inr (inl (c ∷ t, ap (λ (l : Str). c ∷ l) e, is_slug-cons start c t h ∙ k))
Loops-byte start c s h (inr (inr (e, k))) = cc

Loops-dash : (s : Str) → Loops true s → Loops false (b'-' ∷ s)
Loops-dash s (inl k) = inl k
Loops-dash s (inr (inl (t, e, k))) = inr (inl (b'-' ∷ t, ap (λ (l : Str). b'-' ∷ l) e, k))
Loops-dash s (inr (inr (e, k))) = inr (inl ([], ap (λ (l : Str). b'-' ∷ l) e, refl))

slug_from-Loops : (start : Bool) (s : Str) → Loops start (slug_from start s)
unfolding slug_from
slug_from-Loops true [] = inr (inr (refl, refl))
slug_from-Loops false [] = inl refl
slug_from-Loops start (c ∷ s) =
    by_byte (is_ascii_alphanumeric c) start refl (slug_from-Loops false s) (slug_from-Loops true s)
  where
    by_byte :
        (b start : Bool)
        → is_ascii_alphanumeric c ≡ b
        → Loops false (slug_from false s)
        → Loops true (slug_from true s)
        → Loops start (elim b [
          | true ↦ lower c ∷ slug_from false s
          | false ↦ elim start [ true ↦ slug_from true s | false ↦ b'-' ∷ slug_from true s ]
        ])
    by_byte true start e word dash =
        Loops-byte start (lower c) (slug_from false s) (alnum-is_slug_byte c e) word
    by_byte false true e word dash = dash
    by_byte false false e word dash = Loops-dash (slug_from true s) dash

-- What a text of words begins with: a byte of a word, or the dash before one.
pub is_slug-inv :
    (start : Bool) (c : ℕ) (s : Str)
    → is_slug start (c ∷ s) ≡ true
    → ((is_slug_byte c ≡ true) × (is_slug false s ≡ true))
      ⊎ ((start ≡ false) × (((c == b'-') ≡ true) × (is_slug true s ≡ true)))
is_slug-inv start c s h = by_byte (is_slug_byte c) start refl h
  where
    Goal : Bool → Type 0
    Goal start =
        ((is_slug_byte c ≡ true) × (is_slug false s ≡ true))
        ⊎ ((start ≡ false) × (((c == b'-') ≡ true) × (is_slug true s ≡ true)))

    by_dash :
        (d : Bool)
        → (c == b'-') ≡ d
        → (elim d [ true ↦ is_slug true s | false ↦ false ]) ≡ true
        → Goal false
    by_dash true e k = inr (refl, (e, k))
    by_dash false e k = cc

    by_byte :
        (b start : Bool)
        → is_slug_byte c ≡ b
        → (elim b [
          | true ↦ is_slug false s
          | false ↦
              if start then false else elim (c == b'-') [ true ↦ is_slug true s | false ↦ false ]
        ])
          ≡ true
        → Goal start
    by_byte true start e k = inl (e, k)
    by_byte false true e k = cc
    by_byte false false e k = by_dash (c == b'-') refl k

-- Words end in a byte that is no dash.
is_slug-last :
    (start : Bool) (c : ℕ) (s : Str)
    → is_slug start (c ∷ s) ≡ true
    → (ys : Str) × (y : ℕ) × (c ∷ s ≡ ys ++ y ∷ []) × ((y == b'-') ≡ false)
is_slug-last start c [] h = elim (is_slug-inv start c [] h) [
  | inl (byte, _) ↦ ([], c, refl, dash_not_slug c byte)
  | inr (_, (_, k)) ↦ cc
]
is_slug-last start c (d ∷ s) h = elim (is_slug-inv start c (d ∷ s) h) [
  | inl (_, k) ↦
      let (ys, y, e, n) = is_slug-last false d s k in (c ∷ ys, y, ap (λ (l : Str). c ∷ l) e, n)
  | inr (_, (_, k)) ↦
      let (ys, y, e, n) = is_slug-last true d s k in (c ∷ ys, y, ap (λ (l : Str). c ∷ l) e, n)
]

trim_start-other : (c : ℕ) (s : Str) → (c == b'-') ≡ false → trim_start_matches b'-' (c ∷ s) ≡ c ∷ s
unfolding trim_start_matches
trim_start-other c s h = ground arith

trim_start-dash : (s : Str) → trim_start_matches b'-' (b'-' ∷ s) ≡ trim_start_matches b'-' s
unfolding trim_start_matches
trim_start-dash s = refl

-- Nothing is trimmed from the end of words, and a dash behind them is.
trim_end-words :
    (start : Bool) (c : ℕ) (s : Str)
    → is_slug start (c ∷ s) ≡ true
    → (trim_end_matches b'-' (c ∷ s) ≡ c ∷ s)
      × (trim_end_matches b'-' ((c ∷ s) ++ b'-' ∷ []) ≡ c ∷ s)
unfolding trim_end_matches
trim_end-words start c s h =
    let (ys, y, e, n) = is_slug-last start c s h in
    let backwards : reverse (c ∷ s) ≡ y ∷ reverse ys = ap reverse e ∙ reverse-append ys (y ∷ []) in
    let kept : trim_start_matches b'-' (reverse (c ∷ s)) ≡ reverse (c ∷ s) =
      ap (trim_start_matches b'-') backwards
      ∙ (trim_start-other y (reverse ys) n ∙ sym backwards) in
    (
      ap reverse kept ∙ reverse-reverse (c ∷ s),
      ap (λ (l : Str). reverse (trim_start_matches b'-' l)) (reverse-append (c ∷ s) (b'-' ∷ []))
          ∙ (ap reverse (trim_start-dash (reverse (c ∷ s)))
              ∙ (ap reverse kept ∙ reverse-reverse (c ∷ s))),
    )

trim_start-words :
    (c : ℕ) (s t : Str) → is_slug true (c ∷ s) ≡ true → trim_start_matches b'-' (c ∷ t) ≡ c ∷ t
trim_start-words c s t h = elim (is_slug-inv true c s h) [
  | inl (byte, _) ↦ trim_start-other c t (dash_not_slug c byte)
  | inr (e, _) ↦ cc
]

-- the trimming of `slugify`
abbrev pub trimmed : Str → Str
trimmed out = or_request (trim_end_matches b'-' (trim_start_matches b'-' out))

pub trimmed-words : (t : Str) → is_slug true t ≡ true → trimmed t ≡ t
trimmed-words [] h = cc
trimmed-words (c ∷ s) h =
    ap (λ (l : Str). or_request (trim_end_matches b'-' l)) (trim_start-words c s s h)
    ∙ ap or_request (trim_end-words true c s h).0

trimmed-dash : (t : Str) → is_slug true t ≡ true → trimmed (t ++ b'-' ∷ []) ≡ t
trimmed-dash [] h = cc
trimmed-dash (c ∷ s) h =
    ap (λ (l : Str). or_request (trim_end_matches b'-' l)) (trim_start-words c s (s ++ b'-' ∷ []) h)
    ∙ ap or_request (trim_end-words true c s h).1

-- A slug is made of lower-case ASCII letters and digits, in words with one dash between them, and
-- is not empty.
pub slugify-is_slug : (input : Str) → is_slug true (slugify input) ≡ true
unfolding slugify
slugify-is_slug input = by_shape (slug_from true input) (slug_from-Loops true input)
  where
    by_shape : (out : Str) → Loops true out → is_slug true (trimmed out) ≡ true
    by_shape out (inl k) = ap (is_slug true) (trimmed-words out k) ∙ k
    by_shape out (inr (inl (t, e, k))) =
        ap (λ (l : Str). is_slug true (trimmed l)) e ∙ (ap (is_slug true) (trimmed-dash t k) ∙ k)
    by_shape out (inr (inr (e, _))) = ap (λ (l : Str). is_slug true (trimmed l)) e ∙ no_word
      where
        no_word : is_slug true (trimmed []) ≡ true
        no_word = unfold trim_end_matches trim_start_matches in refl
