-- ===== src/Collection/Slug/Idem.antt =====
-- A slug of a slug, crates/gabriel-collection/src/lib.rs.
use gabrielbrowser.Collection.Slug.Shape.{
  is_slug_byte-alnum, is_slug_byte-lower, is_slug-inv, trimmed, trimmed-words, slugify-is_slug,
}
use gabrielbrowser.Base.{
  ℕ, Bool, true, false, not, ◌||◌, ◌&&◌, [], ◌∷◌, Str, ◌==◌, leb, lower, if◌then◌else◌, ◌≡◌, refl,
  sym, ap, ◌∙◌, inl, inr, arith, ==_iff,
}
use gabrielbrowser.Base.Text.{is_digit}
use gabrielbrowser.Collection.Slug.{is_ascii_alphanumeric, slug_from, slugify}

-- a lower-case ASCII letter or a digit
abbrev pub is_slug_byte : ℕ → Bool
is_slug_byte c = (leb b'a' c && leb c b'z') || is_digit c

-- Words of such bytes with one dash between them; `start` says that a word has to begin.
abbrev pub is_slug : Bool → Str → Bool
is_slug start [] = not start
is_slug start (c ∷ s) = elim (is_slug_byte c) [
  | true ↦ is_slug false s
  | false ↦ if start then false else elim (c == b'-') [ true ↦ is_slug true s | false ↦ false ]
]

slug_from-words : (start : Bool) (s : Str) → is_slug start s ≡ true → slug_from start s ≡ s
unfolding slug_from
slug_from-words start [] h = refl
slug_from-words start (c ∷ s) h = elim (is_slug-inv start c s h) [
  | inl (byte, k) ↦
      ap
        (λ (b : Bool). elim b [
          | true ↦ lower c ∷ slug_from false s
          | false ↦ elim start [ true ↦ slug_from true s | false ↦ b'-' ∷ slug_from true s ]
        ])
        (is_slug_byte-alnum c byte)
      ∙ (ap (λ (d : ℕ). d ∷ slug_from false s) (is_slug_byte-lower c byte)
          ∙ ap (λ (l : Str). c ∷ l) (slug_from-words false s k))
  | inr (first, (dash, k)) ↦ dashed start first dash (slug_from-words true s k)
]
  where
    not_alnum : (c == b'-') ≡ true → is_ascii_alphanumeric c ≡ false
    not_alnum e = ground arith

    dashed :
        (start : Bool)
        → start ≡ false
        → (c == b'-') ≡ true
        → slug_from true s ≡ s
        → (elim (is_ascii_alphanumeric c) [
          | true ↦ lower c ∷ slug_from false s
          | false ↦ elim start [ true ↦ slug_from true s | false ↦ b'-' ∷ slug_from true s ]
        ])
          ≡ c ∷ s
    dashed true f e k = cc
    dashed false f e k =
        ap
          (λ (b : Bool). elim b as (λ _. Str) [
            | true ↦ lower c ∷ slug_from false s
            | false ↦ b'-' ∷ slug_from true s
          ])
          (not_alnum e)
        ∙ (ap (λ (d : ℕ). d ∷ slug_from true s) (sym ((==_iff c b'-').0 e))
            ∙ ap (λ (l : Str). c ∷ l) k)

slugify-words : (s : Str) → is_slug true s ≡ true → slugify s ≡ s
unfolding slugify
slugify-words s h = ap trimmed (slug_from-words true s h) ∙ trimmed-words s h

-- A slug is its own slug.
slugify_idem : (input : Str) → slugify (slugify input) ≡ slugify input
slugify_idem input = slugify-words (slugify input) (slugify-is_slug input)
