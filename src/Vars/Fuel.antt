-- ===== src/Vars/Fuel.antt =====
-- The rounds that `expand` of crates/gabriel-core/src/vars.rs makes, and what resolves to itself.
use gabrielbrowser.Base.{
  ℕ, zero, suc, ◌+◌, ◌≤◌, ◌<◌, false, Option, none, some, [], ◌∷◌, ◌++◌, Str, codes, strip_prefix,
  strip_prefix_sound, length, length-append, ◌≡◌, refl, sym, ap, arith, Option-cases, match_option,
  match_options, some_inj, inl, inr,
}
use gabrielbrowser.Base.Text.{split_once_str, contains, trim}
use gabrielbrowser.Base.Results.{ok, err, and_then}
use gabrielbrowser.Vars.{World, Resolver, Outcome, expand_loop, resolve, expand}
use mathlib.Core.Option

-- what a split's result says about lengths
abbrev IsSplit : Str → Str → Str → Str → Option (Str × Str) → Type 0
IsSplit pat s before after o = o ≡ some (before, after) → length pat + length after ≤ length s

shifted :
    (pat : Str) (d : ℕ) (s before after : Str) (o : Option (Str × Str))
    → ((b a : Str) → o ≡ some (b, a) → length pat + length a ≤ length s)
    → IsSplit pat (d ∷ s) before after (Option.map (λ (p : Str × Str). (d ∷ p.0, p.1)) o)
shifted pat d s before after none later h = ground arith
shifted pat d s before after (some (b, a)) later h =
    omega (arith, later b a refl, ap (λ (p : Str × Str). length p.1) (some_inj h))

-- What is left after a pattern is shorter than the text by the pattern at least.
pub length-split_once_str :
    (pat s before after : Str)
    → split_once_str pat s ≡ some (before, after)
    → length pat + length after ≤ length s
unfolding split_once_str
length-split_once_str pat [] before after =
    match_option (IsSplit pat [] before after) (strip_prefix [] pat) (λ _ h. ground arith)
      (λ r e h. omega (
        arith,
        ap length (strip_prefix_sound [] pat r e),
        length-append pat r,
        ap (λ (p : Str × Str). length p.1) (some_inj h),
      ))
length-split_once_str pat (d ∷ s) before after =
    let later = length-split_once_str pat s in
    match_option (IsSplit pat (d ∷ s) before after) (strip_prefix (d ∷ s) pat)
      (λ _. shifted pat d s before after (split_once_str pat s) later)
      (λ r e h. omega (
        arith,
        ap length (strip_prefix_sound (d ∷ s) pat r e),
        length-append pat r,
        ap (λ (p : Str × Str). length p.1) (some_inj h),
      ))

split_once_str-short : (pat s : Str) → length s < length pat → split_once_str pat s ≡ none
split_once_str-short pat s h = elim (Option-cases (split_once_str pat s)) [
  | inl e ↦ e
  | inr ((before, after), e) ↦ ground (arith, length-split_once_str pat s before after e)
]

and_then-same :
    (f : Outcome) (k l : Resolver → Str → Outcome)
    → ((r : Resolver) (t : Str) → k r t ≡ l r t)
    → and_then f k ≡ and_then f l
and_then-same (s, err e) k l h = refl
and_then-same (s, ok a) k l h = h s a

expand_loop-plain :
    (look : Resolver → Str → Outcome) (template : Str) (n : ℕ) (r : Resolver) (out rest : Str)
    → split_once_str (codes "{{") rest ≡ none
    → expand_loop look template n r out rest ≡ (r, ok (out ++ rest))
unfolding expand_loop
expand_loop-plain look template zero r out rest h = refl
expand_loop-plain look template (suc n) r out rest h =
    match_option (λ (x : Outcome). x ≡ (r, ok (out ++ rest))) (split_once_str (codes "{{") rest)
      (λ _. refl) (λ p e. cc)

-- More rounds than the text has bytes change nothing.
expand_loop-more :
    (look : Resolver → Str → Outcome) (template : Str) (n m : ℕ) (r : Resolver) (out rest : Str)
    → length rest ≤ n
    → length rest ≤ m
    → expand_loop look template n r out rest ≡ expand_loop look template m r out rest
unfolding expand_loop
expand_loop-more look template zero zero r out rest h k = refl
expand_loop-more look template zero (suc m) r out rest h k = sym (
    expand_loop-plain look template (suc m) r out rest
      (split_once_str-short (codes "{{") rest (omega arith)))
expand_loop-more look template (suc n) zero r out rest h k =
    expand_loop-plain look template (suc n) r out rest
      (split_once_str-short (codes "{{") rest (omega arith))
expand_loop-more look template (suc n) (suc m) r out rest h k =
    match_options (λ a b. a ≡ b) (split_once_str (codes "{{") rest) (λ _. refl)
      (λ p e.
        match_options (λ a b. a ≡ b) (split_once_str (codes "}}") p.1) (λ _. refl)
          (λ q f. and_then-same (look r (trim q.0)) _ _ (λ r' value.
            expand_loop-more look template n m r' ((out ++ p.0) ++ value) q.1
              (omega (
                arith,
                length-split_once_str (codes "{{") rest p.0 p.1 e,
                length-split_once_str (codes "}}") p.1 q.0 q.1 f,
              ))
              (omega (
                arith,
                length-split_once_str (codes "{{") rest p.0 p.1 e,
                length-split_once_str (codes "}}") p.1 q.0 q.1 f,
              )))))

-- A text without `{{` is resolved to itself, and nothing else changes.
pub resolve-plain :
    (w : World) (r : Resolver) (template : Str)
    → contains template (codes "{{") ≡ false
    → resolve w r template ≡ (r, ok template)
unfolding resolve expand
resolve-plain w r template h = rw h refl
