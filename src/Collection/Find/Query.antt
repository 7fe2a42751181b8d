-- ===== src/Collection/Find/Query.antt =====
-- What `find` looks for, crates/gabriel-collection/src/lib.rs.
use gabrielbrowser.Base.{
  ℕ, zero, suc, ◌≤◌, ◌<◌, is_some, ends_with_iff, Bool, true, false, Option, none, some, [], ◌∷◌,
  ◌++◌, Str, codes, length, length-append, reverse, reverse-cons, reverse-append, reverse-reverse,
  append_assoc, append-nil, All, All-append, starts_with, ends_with, strip_prefix, strip_suffix,
  strip_suffix_sound, ◌==◌, ==_iff, if◌then◌else◌, ◌≡◌, refl, sym, ap, ◌∙◌, subst, arith,
  Bool-cases, inl, inr,
}
use gabrielbrowser.Base.Text.{trim_start_matches, trim_end_matches}
use gabrielbrowser.Collection.Paths.{trim_end_string}
use gabrielbrowser.Collection.Find.{normal_query}

-- a text as many times as the number says
abbrev pub repeated : ℕ → Str → Str
repeated zero p = []
repeated (suc n) p = repeated n p ++ p

abbrev pub AllSlashes : Str → Type 0
AllSlashes s = All (λ c. c ≡ b'/') s

-- The query without all extensions at its end, and then without all slashes around it.
abbrev pub IsQuery : Str → Str → Type 0
IsQuery query q =
    (stem before after : Str) × (n : ℕ) × (query ≡ stem ++ repeated n (codes ".toml"))
    × (ends_with stem (codes ".toml") ≡ false)
    × (stem ≡ before ++ (q ++ after))
    × AllSlashes before
    × AllSlashes after
    × (starts_with q (codes "/") ≡ false)
    × (ends_with q (codes "/") ≡ false)

abbrev IsTrimmed : Str → Str → Str → Type 0
IsTrimmed p s t = (n : ℕ) × (s ≡ t ++ repeated n p) × (ends_with t p ≡ false)

ends_with-empty : (p : Str) → 0 < length p → ends_with [] p ≡ false
ends_with-empty p k = elim (Bool-cases (ends_with [] p)) [
  | inl e ↦
      let (r, same) = (ends_with_iff [] p).0 e in
      let none_left = ap length same ∙ length-append r p in absurd (omega arith)
  | inr e ↦ e
]

ends_with-none : (s p : Str) → strip_suffix s p ≡ none → ends_with s p ≡ false
unfolding ends_with starts_with strip_suffix
ends_with-none s p e = by_prefix (strip_prefix (reverse s) (reverse p)) e
  where
    by_prefix :
        (o : Option Str)
        → (elim o as (λ _. Option Str) [ none ↦ none | some r ↦ some (reverse r) ]) ≡ none
        → is_some o ≡ false
    by_prefix none e = refl
    by_prefix (some r) e = cc

trim_end_string-IsTrimmed :
    (fuel : ℕ) (s p : Str)
    → length s ≤ fuel
    → 0 < length p
    → IsTrimmed p s (trim_end_string fuel s p)
trim_end_string-IsTrimmed zero [] p h k = (0, refl, ends_with-empty p k)
trim_end_string-IsTrimmed zero (d ∷ s) p h k = absurd (omega arith)
trim_end_string-IsTrimmed (suc fuel) s p h k =
    by_end (λ r. trim_end_string-IsTrimmed fuel r p) (strip_suffix s p) refl
  where
    by_end :
        ((r : Str) → length r ≤ fuel → 0 < length p → IsTrimmed p r (trim_end_string fuel r p))
        → (o : Option Str) → strip_suffix s p ≡ o
        → IsTrimmed p s (elim o [ some r ↦ trim_end_string fuel r p | none ↦ s ])
    by_end ih none e = (0, sym (append-nil s), ends_with-none s p e)
    by_end ih (some r) e =
        let split = strip_suffix_sound s p r e in
        let shorter = ap length split ∙ length-append r p in
        let (n, same, last) = ih r (omega arith) k in
        (
          suc n,
          split ∙ ap (λ l. l ++ p) same ∙ append_assoc (trim_end_string fuel r p) (repeated n p) p,
          last,
        )

abbrev AllAre : ℕ → Str → Type 0
AllAre c s = All (λ d. d ≡ c) s

trim_start_matches_lem :
    (c : ℕ) (s : Str)
    → (before : Str) × (s ≡ before ++ trim_start_matches c s)
      × AllAre c before
      × (starts_with (trim_start_matches c s) (c ∷ []) ≡ false)
unfolding trim_start_matches starts_with strip_prefix
trim_start_matches_lem c [] = ([], refl, tt, refl)
trim_start_matches_lem c (d ∷ s) = elim (Bool-cases (d == c)) [
  | inl e ↦
      let (before, same, all, first) = trim_start_matches_lem c s in
      rw e (d ∷ before, ap (λ l. d ∷ l) same, ((==_iff d c).0 e, all), first)
  | inr e ↦ rw e ([], refl, tt, ground (arith, e))
]

reverse-AllAre : (c : ℕ) (s : Str) → AllAre c s → AllAre c (reverse s)
reverse-AllAre c [] h = tt
reverse-AllAre c (d ∷ s) (first, h) =
    subst (AllAre c) (sym (reverse-cons d s))
      (All-append (λ d. d ≡ c) (reverse s) (d ∷ []) (reverse-AllAre c s h) (first, tt))

trim_end_matches_lem :
    (c : ℕ) (s : Str)
    → (after : Str) × (s ≡ trim_end_matches c s ++ after)
      × AllAre c after
      × (ends_with (trim_end_matches c s) (c ∷ []) ≡ false)
unfolding trim_end_matches ends_with
trim_end_matches_lem c s =
    let (before, same, all, first) = trim_start_matches_lem c (reverse s) in
    let rest = trim_start_matches c (reverse s) in
    (
      reverse before,
      sym (reverse-reverse s) ∙ ap reverse same ∙ reverse-append before rest,
      reverse-AllAre c before all,
      ap (λ l. starts_with l (c ∷ [])) (reverse-reverse rest) ∙ first,
    )

starts_with-byte : (c d : ℕ) (s : Str) → starts_with (d ∷ s) (c ∷ []) ≡ (d == c)
unfolding starts_with strip_prefix
starts_with-byte c d [] = by_test (d == c)
  where
    by_test : (b : Bool) → is_some {A = Str} (if b then some [] else none) ≡ b
    by_test true = refl
    by_test false = refl
starts_with-byte c d (e ∷ s) = by_test (d == c)
  where
    by_test : (b : Bool) → is_some (if b then some (e ∷ s) else none) ≡ b
    by_test true = refl
    by_test false = refl

-- What a text does not begin with, no part at its beginning begins with.
starts_with-part :
    (c : ℕ) (q after : Str)
    → starts_with (q ++ after) (c ∷ []) ≡ false
    → starts_with q (c ∷ []) ≡ false
unfolding starts_with strip_prefix
starts_with-part c [] after h = refl
starts_with-part c (d ∷ q) after h =
    starts_with-byte c d q ∙ (sym (starts_with-byte c d (q ++ after)) ∙ h)

-- `find` looks for the query without extensions and slashes.
pub normal_query-IsQuery : (query : Str) → IsQuery query (normal_query query)
normal_query-IsQuery query =
    let stem = trim_end_string (length query) query (codes ".toml") in
    let (n, whole, last) =
      trim_end_string-IsTrimmed (length query) query (codes ".toml") (omega arith) (omega arith) in
    let (before, front, all, first) = trim_start_matches_lem b'/' stem in
    let (after, back, all', end) = trim_end_matches_lem b'/' (trim_start_matches b'/' stem) in
    (
      stem,
      before,
      after,
      n,
      whole,
      last,
      front ∙ ap (λ l. before ++ l) back,
      all,
      all',
      starts_with-part b'/' (normal_query query) after
          (ap (λ l. starts_with l (codes "/")) (sym back) ∙ first),
      end,
    )
