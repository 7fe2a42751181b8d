-- ===== src/Base/Splits.antt =====
-- What the splits of byte strings give. No file of the repository.
use gabrielbrowser.Base.Tests.{if◌then◌else◌, ◌==◌, match_if}
use gabrielbrowser.Base.Bytes.{Str}
use gabrielbrowser.Base.Text.{split_once, split, cons_first, has_byte}
use Prim.Native.Nat.{ℕ, ◌<◌}
use gabrielbrowser.Base.Lists.{length}
use mathlib.Core.Path.{◌≡◌, refl}
use mathlib.Core.Bool.{true, false}
use mathlib.Core.List.{List, [], ◌∷◌, ◌++◌}
use mathlib.Core.Option
use mathlib.Core.Option.{Option, none, some}
use native.Mathlib.Omega.{arith}

pub split_once_sound :
    (c : ℕ) (s l r : Str) → split_once c s ≡ some (l, r) → (s ≡ l ++ c ∷ r) × (has_byte c l ≡ false)
unfolding split_once
split_once_sound c [] l r h = cc
split_once_sound c (d ∷ s) l r h = go (split_once_sound c s) (split_once c s) refl h
  where
    go :
        ((a b : Str) → split_once c s ≡ some (a, b) → (s ≡ a ++ c ∷ b) × (has_byte c a ≡ false))
        → (o : Option (Str × Str)) → split_once c s ≡ o
        → if◌then◌else◌ {A = Option (Str × Str)}
            (d == c)
            (some ([], s))
            (Option.map (λ (q : Str × Str). (d ∷ q.0, q.1)) o)
          ≡ some (l, r)
        → (d ∷ s ≡ l ++ c ∷ r) × (has_byte c l ≡ false)
    go later none e k = ground arith
    go later (some (a, b)) e k = ground (arith, later a b e)

pub split_once-none : (c : ℕ) (s : Str) → split_once c s ≡ none → has_byte c s ≡ false
unfolding split_once
split_once-none c [] h = refl
split_once-none c (d ∷ s) h = go (split_once-none c s) (split_once c s) refl h
  where
    go :
        (split_once c s ≡ none → has_byte c s ≡ false)
        → (o : Option (Str × Str)) → split_once c s ≡ o
        → if◌then◌else◌ {A = Option (Str × Str)}
            (d == c)
            (some ([], s))
            (Option.map (λ (q : Str × Str). (d ∷ q.0, q.1)) o)
          ≡ none
        → (if d == c then true else has_byte c s) ≡ false
    go later none e k = ground (arith, later e)
    go later (some (a, b)) e k = ground arith

-- A text without the byte is one part.
pub split-absent : (c : ℕ) (s : Str) → has_byte c s ≡ false → split c s ≡ s ∷ []
unfolding split
split-absent c [] h = refl
split-absent c (d ∷ s) h = ground (arith, split-absent c s)

cons_first-append :
    (d : ℕ) (ps qs : List Str) → 0 < length ps → cons_first d (ps ++ qs) ≡ cons_first d ps ++ qs
cons_first-append d [] qs h = ground arith
cons_first-append d (p ∷ ps) qs h = refl

length-cons_first : (d : ℕ) (ps : List Str) → 0 < length (cons_first d ps)
length-cons_first d [] = omega arith
length-cons_first d (p ∷ ps) = omega arith

length-split : (c : ℕ) (s : Str) → 0 < length (split c s)
unfolding split
length-split c [] = omega arith
length-split c (d ∷ s) =
    match_if (λ (l : List Str). 0 < length l) (d == c) (λ _. omega arith)
      (λ _. length-cons_first d (split c s))

-- The parts around one occurrence of the byte.
pub split-append : (c : ℕ) (s t : Str) → split c (s ++ c ∷ t) ≡ split c s ++ split c t
unfolding split
split-append c [] t = ground arith
split-append c (d ∷ s) t =
    ground
      (arith, split-append c s t, cons_first-append d (split c s) (split c t), length-split c s)
