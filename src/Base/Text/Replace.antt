-- ===== src/Base/Text/Replace.antt =====
-- `replace` of one byte. No file of the repository.
use mathlib.Core.Path.{◌≡◌, refl, sym, ap, ◌∙◌}
use mathlib.Core.Bool.{Bool, true, false}
use mathlib.Core.List.{[], ◌∷◌, ◌++◌}
use mathlib.Core.Option
use mathlib.Core.Option.{Option, none, some}
use Prim.Native.Nat.{ℕ, zero, suc, ◌≤◌}
use native.Mathlib.Omega.{arith}
use gabrielbrowser.Base.Tests.{if◌then◌else◌, ◌==◌}
use gabrielbrowser.Base.Lists.{length, length-append}
use gabrielbrowser.Base.Bytes.{Str, strip_prefix}
use gabrielbrowser.Base.Text.{split_once, split_once_str, has_byte, replace, replace_rounds}
use gabrielbrowser.Base.Splits.{split_once_sound, split_once-none}

-- Every byte `q` written as `to`.
abbrev pub replace_byte : ℕ → Str → Str → Str
replace_byte q to [] = []
replace_byte q to (c ∷ s) =
    let rest = replace_byte q to s in if c == q then to ++ rest else c ∷ rest

strip_prefix-byte :
    (q d : ℕ) (s : Str) → strip_prefix (d ∷ s) (q ∷ []) ≡ (if d == q then some s else none)
unfolding strip_prefix
strip_prefix-byte q d [] = refl
strip_prefix-byte q d (c ∷ s) = refl

split_once_str-byte : (q : ℕ) (s : Str) → split_once_str (q ∷ []) s ≡ split_once q s
unfolding split_once_str split_once strip_prefix
split_once_str-byte q [] = refl
split_once_str-byte q (d ∷ s) = by_byte (d == q) (strip_prefix-byte q d s) (split_once_str-byte q s)
  where
    extended : Option (Str × Str) → Option (Str × Str)
    extended o = Option.map (λ (p : Str × Str). (d ∷ p.0, p.1)) o

    by_byte :
        (b : Bool)
        → strip_prefix (d ∷ s) (q ∷ []) ≡ (if b then some s else none)
        → split_once_str (q ∷ []) s ≡ split_once q s
        → (elim (strip_prefix (d ∷ s) (q ∷ [])) [
          | some r ↦ some ([], r)
          | none ↦ extended (split_once_str (q ∷ []) s)
        ])
          ≡ (if b then some ([], s) else extended (split_once q s))
    by_byte true e ih =
        ap
          (λ (o : Option Str). elim o as (λ _. Option (Str × Str)) [
            | some r ↦ some ([], r)
            | none ↦ extended (split_once_str (q ∷ []) s)
          ])
          e
    by_byte false e ih =
        ap
          (λ (o : Option Str). elim o as (λ _. Option (Str × Str)) [
            | some r ↦ some ([], r)
            | none ↦ extended (split_once_str (q ∷ []) s)
          ])
          e
        ∙ ap extended ih

replace_byte-absent : (q : ℕ) (to s : Str) → has_byte q s ≡ false → replace_byte q to s ≡ s
replace_byte-absent q to [] h = refl
replace_byte-absent q to (c ∷ s) h = ground (arith, replace_byte-absent q to s)

replace_byte-first :
    (q : ℕ) (to before after : Str)
    → has_byte q before ≡ false
    → replace_byte q to (before ++ q ∷ after) ≡ before ++ (to ++ replace_byte q to after)
replace_byte-first q to [] after h = ground arith
replace_byte-first q to (c ∷ before) after h = ground (arith, replace_byte-first q to before after)

replace_rounds-byte :
    (rounds q : ℕ) (to s : Str)
    → length s ≤ rounds
    → replace_rounds rounds s (q ∷ []) to ≡ replace_byte q to s
unfolding replace_rounds
replace_rounds-byte zero q to [] h = refl
replace_rounds-byte zero q to (c ∷ s) h = absurd (omega arith)
replace_rounds-byte (suc rounds) q to s h =
    ap next (split_once_str-byte q s)
    ∙ by_split (split_once q s) refl λ after k. replace_rounds-byte rounds q to after k
  where
    next : Option (Str × Str) → Str
    next o = elim o [
      | none ↦ s
      | some (before, after) ↦ before ++ (to ++ replace_rounds rounds after (q ∷ []) to)
    ]

    by_split :
        (o : Option (Str × Str))
        → split_once q s ≡ o
        → ((after : Str)
            → length after ≤ rounds
            → replace_rounds rounds after (q ∷ []) to ≡ replace_byte q to after)
        → next o ≡ replace_byte q to s
    by_split none e ih = sym (replace_byte-absent q to s (split_once-none q s e))
    by_split (some (before, after)) e ih =
        let (whole, absent) = split_once_sound q s before after e in
        let size = ap length whole ∙ length-append before (q ∷ after) in
        ap (λ (l : Str). before ++ (to ++ l)) (ih after (omega (arith, h, size)))
        ∙ (sym (replace_byte-first q to before after absent) ∙ ap (replace_byte q to) (sym whole))

pub replace-byte : (q : ℕ) (to s : Str) → replace s (q ∷ []) to ≡ replace_byte q to s
unfolding replace
replace-byte q to s = replace_rounds-byte (length s) q to s (omega arith)
