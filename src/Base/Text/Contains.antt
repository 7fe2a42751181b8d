-- ===== src/Base/Text/Contains.antt =====
-- What `contains` finds. No file of the repository.
use mathlib.Core.Path.{◌≡◌, refl, sym, ap, ◌∙◌}
use mathlib.Core.Logic.{◌↔◌, inl, inr}
use mathlib.Core.Bool.{Bool, true, false}
use mathlib.Core.List.{[], ◌∷◌, ◌++◌}
use mathlib.Core.Option
use mathlib.Core.Option.{Option, none, some}
use Prim.Native.Nat.{ℕ}
use gabrielbrowser.Base.Tests.{if◌then◌else◌, is_some, Bool-cases}
use gabrielbrowser.Base.Bytes.{Str, strip_prefix, starts_with, starts_with_iff}
use gabrielbrowser.Base.Text.{split_once_str, contains}

map-is_some : {A B : Type 0} (f : A → B) (o : Option A) → is_some (Option.map f o) ≡ is_some o
map-is_some f none = refl
map-is_some f (some a) = refl

contains-cons :
    (d : ℕ) (s pat : Str)
    → contains (d ∷ s) pat ≡ (if starts_with (d ∷ s) pat then true else contains s pat)
unfolding contains starts_with split_once_str
contains-cons d s pat = by_prefix (strip_prefix (d ∷ s) pat)
  where
    by_prefix :
        (o : Option Str)
        → is_some {A = Str × Str} (elim o as (λ _. Option (Str × Str)) [
          | some r ↦ some ([], r)
          | none ↦ Option.map (λ (p : Str × Str). (d ∷ p.0, p.1)) (split_once_str pat s)
        ])
          ≡ (if is_some o then true else is_some (split_once_str pat s))
    by_prefix (some r) = refl
    by_prefix none = map-is_some (λ (p : Str × Str). (d ∷ p.0, p.1)) (split_once_str pat s)

contains-nil : (pat : Str) → contains [] pat ≡ starts_with [] pat
unfolding contains starts_with split_once_str
contains-nil pat = by_prefix (strip_prefix [] pat)
  where
    by_prefix :
        (o : Option Str)
        → is_some (elim o as (λ _. Option (Str × Str)) [ none ↦ none | some r ↦ some ([], r) ])
          ≡ is_some o
    by_prefix none = refl
    by_prefix (some r) = refl

-- The text stands somewhere in the other.
abbrev pub Occurs : Str → Str → Type 0
Occurs pat s = (before : Str) × (after : Str) × (s ≡ before ++ (pat ++ after))

contains_found : (s pat : Str) → contains s pat ≡ true → Occurs pat s
contains_found [] pat h =
    let (r, e) = (starts_with_iff [] pat).0 (sym (contains-nil pat) ∙ h) in ([], r, e)
contains_found (d ∷ s) pat h = elim (Bool-cases (starts_with (d ∷ s) pat)) [
  | inl begins ↦ let (r, e) = (starts_with_iff (d ∷ s) pat).0 begins in ([], r, e)
  | inr not_yet ↦
      let rest : contains s pat ≡ true =
        ap (λ (b : Bool). if b then true else contains s pat) (sym not_yet)
        ∙ (sym (contains-cons d s pat) ∙ h) in
      let (before, after, e) = contains_found s pat rest in
      (d ∷ before, after, ap (λ (l : Str). d ∷ l) e)
]

contains_there : (s pat before after : Str) → s ≡ before ++ (pat ++ after) → contains s pat ≡ true
contains_there [] pat [] after e = contains-nil pat ∙ (starts_with_iff [] pat).1 (after, e)
contains_there [] pat (d ∷ before) after e = cc
contains_there (c ∷ s) pat [] after e =
    contains-cons c s pat
    ∙ ap (λ (b : Bool). if b then true else contains s pat)
        ((starts_with_iff (c ∷ s) pat).1 (after, e))
contains_there (c ∷ s) pat (d ∷ before) after e =
    let tail : s ≡ before ++ (pat ++ after) = cc in
    let rest = contains_there s pat before after tail in
    contains-cons c s pat
    ∙ (ap (λ (b : Bool). if starts_with (c ∷ s) pat then true else b) rest
        ∙ always (starts_with (c ∷ s) pat))
  where
    always : (b : Bool) → (if b then true else true) ≡ true
    always true = refl
    always false = refl

pub contains_iff : (s pat : Str) → (contains s pat ≡ true) ↔ Occurs pat s
contains_iff s pat = (contains_found s pat, λ o. contains_there s pat o.0 o.1 o.2)
