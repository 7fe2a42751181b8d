-- ===== src/Engine/Headers/Merge.antt =====
-- Which cookies of two `Cookie` headers are sent, crates/gabriel-engine/src/lib.rs.
use gabrielbrowser.Base.{
  Bool, true, false, not, List, [], ◌∷◌, ◌++◌, map, Str, str_eq, str_eq_iff, if◌then◌else◌, filter,
  ◌≡◌, refl, ap, ◌∙◌, arith, Bool-cases, inl, inr, append-nil,
}
use gabrielbrowser.Engine.Headers.{name_of, is_in, merge_pairs}

-- The pairs of one cookie name.
abbrev pub pairs_of : Str → List Str → List Str
pairs_of name pairs = filter (λ pair. str_eq (name_of pair) name) pairs

filter-append :
    (p : Str → Bool) (xs ys : List Str) → filter p (xs ++ ys) ≡ filter p xs ++ filter p ys
filter-append p [] ys = refl
filter-append p (x ∷ xs) ys = ground (arith, filter-append p xs ys)

-- a name that no pair has
pairs_of-absent :
    (name : Str) (pairs : List Str)
    → is_in (map name_of pairs) name ≡ false
    → pairs_of name pairs ≡ []
pairs_of-absent name [] h = refl
pairs_of-absent name (p ∷ pairs) h = ground (arith, pairs_of-absent name pairs)

-- the pairs of a name, after those with an overridden name are gone
pairs_of-kept :
    (name : Str) (names : List Str) (pairs : List Str)
    → pairs_of name (filter (λ pair. not (is_in names (name_of pair))) pairs)
      ≡ (if is_in names name then [] else pairs_of name pairs)
pairs_of-kept name names [] = ground arith
pairs_of-kept name names (p ∷ pairs) = ground (arith, pairs_of-kept name names pairs, same)
  where
    same : str_eq (name_of p) name ≡ true → is_in names (name_of p) ≡ is_in names name
    same e = ap (is_in names) ((str_eq_iff (name_of p) name).0 e)

-- For every cookie name, the merged pairs are those of the fresher header if it has the name, and
-- those of the base if not.
pairs_of-merge_pairs :
    (name : Str) (base fresher : List Str)
    → pairs_of name (merge_pairs base fresher)
      ≡ (if is_in (map name_of fresher) name then pairs_of name fresher else pairs_of name base)
unfolding merge_pairs
pairs_of-merge_pairs name base fresher =
    let split =
      filter-append (λ pair. str_eq (name_of pair) name) fresher
        (filter (λ pair. not (is_in (map name_of fresher) (name_of pair))) base) in
    split
    ∙ rw (pairs_of-kept name (map name_of fresher) base)
        (elim (Bool-cases (is_in (map name_of fresher) name)) [
          | inl e ↦ rw e (append-nil (pairs_of name fresher))
          | inr e ↦ rw (e, pairs_of-absent name fresher e) refl
        ])
