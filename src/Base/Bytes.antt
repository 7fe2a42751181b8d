-- ===== src/Base/Bytes.antt =====
-- Byte strings. `String`, `&str` and `Vec<u8>` of the source are all lists of bytes here, since a
-- Rust string is its UTF-8 bytes: lengths, slices and searches count bytes in both. A text literal
-- of the source is `codes "…"`; all literals are ASCII.
use Prim.Native.Nat.{ℕ, ◌+◌, ◌-◌}
use Prim.Native.Char.{code}
use Prim.Native.String.{String}
use mathlib.Core.Path.{◌≡◌, refl, ap, sym, ◌∙◌}
use mathlib.Core.Logic.{◌↔◌}
use mathlib.Core.Bool.{Bool, true, false, ◌&&◌}
use mathlib.Core.List.{List, [], ◌∷◌, ◌++◌, map, reverse, reverse-append, reverse-reverse}
use mathlib.Core.Option.{Option, none, some}
use native.Mathlib.Omega.{arith}
use gabrielbrowser.Base.Tests.{if◌then◌else◌, ◌==◌, leb, is_some}

abbrev pub Str : Type 0
Str = List ℕ

abbrev pub codes : String → Str
codes String.[] = []
codes (String.◌∷◌ c s) = code c ∷ codes s

-- `a == b` on strings
unfoldable pub str_eq : Str → Str → Bool
str_eq [] [] = true
str_eq (a ∷ s) (b ∷ t) = let rest = str_eq s t in if a == b then rest else false
str_eq _ _ = false

pub str_eq_sound : (s t : Str) → str_eq s t ≡ true → s ≡ t
unfolding str_eq
str_eq_sound [] [] h = refl
str_eq_sound (a ∷ s) (b ∷ t) h = ground (arith, str_eq_sound s t)
str_eq_sound [] (b ∷ t) h = cc
str_eq_sound (a ∷ s) [] h = cc

pub str_eq_refl : (s : Str) → str_eq s s ≡ true
unfolding str_eq
str_eq_refl [] = refl
str_eq_refl (a ∷ s) = ground (arith, str_eq_refl s)

pub str_eq_iff : (s t : Str) → (str_eq s t ≡ true) ↔ (s ≡ t)
str_eq_iff s t = (str_eq_sound s t, λ e. rw e (str_eq_refl t))

-- `u8::to_ascii_lowercase`, `u8::to_ascii_uppercase`
unfoldable pub lower : ℕ → ℕ
lower c = if leb b'A' c && leb c b'Z' then c + 32 else c

unfoldable pub upper : ℕ → ℕ
upper c = if leb b'a' c && leb c b'z' then c - 32 else c

unfoldable pub to_ascii_lowercase : Str → Str
unfolding lower
to_ascii_lowercase s = map lower s

unfoldable pub to_ascii_uppercase : Str → Str
unfolding upper
to_ascii_uppercase s = map upper s

-- `str::eq_ignore_ascii_case`
unfoldable pub eq_ignore_ascii_case : Str → Str → Bool
unfolding to_ascii_lowercase str_eq
eq_ignore_ascii_case s t = str_eq (to_ascii_lowercase s) (to_ascii_lowercase t)

lower_idem : (c : ℕ) → lower (lower c) ≡ lower c
unfolding lower
lower_idem c = ground arith

pub to_ascii_lowercase_idem :
    (s : Str) → to_ascii_lowercase (to_ascii_lowercase s) ≡ to_ascii_lowercase s
unfolding to_ascii_lowercase
to_ascii_lowercase_idem [] = refl
to_ascii_lowercase_idem (c ∷ s) = cc (lower_idem c, to_ascii_lowercase_idem s)

-- `s.strip_prefix(p)` for a string `p`
unfoldable pub strip_prefix : Str → Str → Option Str
strip_prefix s [] = some s
strip_prefix [] (d ∷ p) = none
strip_prefix (c ∷ s) (d ∷ p) = let rest = strip_prefix s p in if c == d then rest else none

pub strip_prefix_sound : (s p r : Str) → strip_prefix s p ≡ some r → s ≡ p ++ r
unfolding strip_prefix
strip_prefix_sound [] [] r h = ground arith
strip_prefix_sound (c ∷ s) [] r h = ground arith
strip_prefix_sound [] (d ∷ p) r h = cc
strip_prefix_sound (c ∷ s) (d ∷ p) r h = ground (arith, strip_prefix_sound s p r)

pub strip_prefix-append : (p r : Str) → strip_prefix (p ++ r) p ≡ some r
unfolding strip_prefix
strip_prefix-append [] [] = refl
strip_prefix-append [] (c ∷ r) = refl
strip_prefix-append (d ∷ p) r = ground (arith, strip_prefix-append p r)

unfoldable pub starts_with : Str → Str → Bool
unfolding strip_prefix
starts_with s p = is_some (strip_prefix s p)

unfoldable pub ends_with : Str → Str → Bool
unfolding starts_with
ends_with s p = starts_with (reverse s) (reverse p)

unfoldable pub strip_suffix : Str → Str → Option Str
unfolding strip_prefix
strip_suffix s p = elim (strip_prefix (reverse s) (reverse p)) [
  | none ↦ none
  | some r ↦ some (reverse r)
]

pub starts_with_iff : (s p : Str) → (starts_with s p ≡ true) ↔ ((r : Str) × (s ≡ p ++ r))
unfolding starts_with
starts_with_iff s p = (to (strip_prefix s p) refl, from)
  where
    to : (o : Option Str) → strip_prefix s p ≡ o → is_some o ≡ true → (r : Str) × (s ≡ p ++ r)
    to none e h = cc
    to (some r) e h = (r, strip_prefix_sound s p r e)

    from : (r : Str) × (s ≡ p ++ r) → is_some (strip_prefix s p) ≡ true
    from (r, e) = rw (e, strip_prefix-append p r)

pub ends_with_iff : (s p : Str) → (ends_with s p ≡ true) ↔ ((r : Str) × (s ≡ r ++ p))
unfolding ends_with
ends_with_iff s p = (to, from)
  where
    to : starts_with (reverse s) (reverse p) ≡ true → (r : Str) × (s ≡ r ++ p)
    to h =
        let (r, e) = (starts_with_iff (reverse s) (reverse p)).0 h in
        (reverse r, sym (reverse-reverse s) ∙ ap reverse e ∙ simp (reverse-append, reverse-reverse))

    from : (r : Str) × (s ≡ r ++ p) → starts_with (reverse s) (reverse p) ≡ true
    from (r, e) =
        (starts_with_iff (reverse s) (reverse p)).1 (reverse r, rw e (simp reverse-append))

pub strip_suffix_sound : (s p r : Str) → strip_suffix s p ≡ some r → s ≡ r ++ p
unfolding strip_suffix
strip_suffix_sound s p r h = go (strip_prefix (reverse s) (reverse p)) refl h
  where
    go :
        (o : Option Str)
        → strip_prefix (reverse s) (reverse p) ≡ o
        → (elim o [ none ↦ none | some t ↦ some (reverse t) ]) ≡ some r
        → s ≡ r ++ p
    go none e k = cc
    go (some t) e k =
        let back : reverse s ≡ reverse p ++ t = strip_prefix_sound (reverse s) (reverse p) t e in
        let same : reverse t ≡ r = cc in
        sym (reverse-reverse s) ∙ ap reverse back ∙ simp (reverse-append, reverse-reverse, same)
