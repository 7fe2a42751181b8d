-- ===== src/Base/Text/Trim.antt =====
-- Text that `trim` leaves alone. No file of the repository.
use Prim.Native.Nat.{ℕ, zero, suc}
use mathlib.Core.Path.{◌≡◌, refl, sym, ap, ◌∙◌}
use mathlib.Core.Bool.{Bool, true, false, ◌&&◌}
use mathlib.Core.List.{List, [], ◌∷◌, map, reverse, reverse-reverse}
use mathlib.Core.Option.{Option, none, some}
use native.Mathlib.Omega.{arith}
use gabrielbrowser.Base.Tests.{ltb, if◌then◌else◌, ◌==◌}
use gabrielbrowser.Base.Lists.{length}
use gabrielbrowser.Base.Bytes.{Str, strip_prefix}
use gabrielbrowser.Base.Text.{trim, trim_start, trim_end, trim_rounds, first_prefix, white_spaces}

-- a printing ASCII byte, the space aside
abbrev pub is_graphic : ℕ → Bool
is_graphic c = ltb 0x20 c && ltb c 0x7f

strip_prefix-cons :
    (c d : ℕ) (s p : Str)
    → strip_prefix (c ∷ s) (d ∷ p) ≡ (if c == d then strip_prefix s p else none)
unfolding strip_prefix
strip_prefix-cons c d s p = refl

-- No text of the list begins with a graphic byte.
abbrev starts_apart : List Str → Bool
starts_apart [] = true
starts_apart ([] ∷ ws) = false
starts_apart ((d ∷ w) ∷ ws) = let rest = starts_apart ws in if is_graphic d then false else rest

first_prefix-none :
    (ws : List Str) (c : ℕ) (s : Str)
    → starts_apart ws ≡ true
    → is_graphic c ≡ true
    → first_prefix ws (c ∷ s) ≡ none
unfolding first_prefix
first_prefix-none [] c s h k = refl
first_prefix-none ([] ∷ ws) c s h k = cc
first_prefix-none ((d ∷ w) ∷ ws) c s h k =
    ground (arith, strip_prefix-cons c d s w, first_prefix-none ws c s)

trim_rounds_id :
    (ws : List Str) (fuel c : ℕ) (s : Str)
    → starts_apart ws ≡ true
    → is_graphic c ≡ true
    → trim_rounds ws fuel (c ∷ s) ≡ c ∷ s
unfolding trim_rounds
trim_rounds_id ws zero c s h k = refl
trim_rounds_id ws (suc fuel) c s h k =
    ap (λ (o : Option Str). elim o [ none ↦ c ∷ s | some r ↦ trim_rounds ws fuel r ])
      (first_prefix-none ws c s h k)

-- A text whose first and last byte are graphic has nothing to trim.
pub trim_id :
    (c d : ℕ) (s t u : Str)
    → u ≡ c ∷ s
    → reverse u ≡ d ∷ t
    → is_graphic c ≡ true
    → is_graphic d ≡ true
    → trim u ≡ u
unfolding trim trim_start trim_end
trim_id c d s t u e r hc hd =
    let start : trim_start u ≡ u =
      ap trim_start e ∙ (trim_rounds_id white_spaces (length (c ∷ s)) c s refl hc ∙ sym e) in
    ap trim_end start
    ∙ (ap (λ (v : Str). reverse (trim_rounds (map reverse white_spaces) (length u) v)) r
        ∙ (ap reverse (trim_rounds_id (map reverse white_spaces) (length u) d t refl hd)
            ∙ (ap reverse (sym r) ∙ reverse-reverse u)))
